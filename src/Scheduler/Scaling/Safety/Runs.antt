-- ===== src/Scheduler/Scaling/Safety/Runs.antt =====
-- The scheduler's threads and workers in any interleaving.
use bbtools_coroutine.Base.{
  ℕ, zero, suc, ◌≤◌, ◌<◌, ◌≡◌, refl, sym, ap, ◌∙◌, Bool, true, false, some, List, [], ◌∷◌, length,
  sum, All, arith,
}
use bbtools_coroutine.Scheduler.{
  GlobalConfig, ScalingBounds, numbers_refused, samples_refused, thresholds_refused, resolve_bounds,
  Scheduler, init,
}
use bbtools_coroutine.Scheduler.Resize.{comes_up, ids, prepare_expansion, count_outstanding}
use bbtools_coroutine.Scheduler.Ticks.{Answers, Stage, idle, is_up, is_down, tick}
use bbtools_coroutine.Scheduler.Scaling.{Move, step, step_at, run, start}
use bbtools_coroutine.Scheduler.Ids.{Rises}
use bbtools_coroutine.Scheduler.Roster.{active_ids, Pinned}
use bbtools_coroutine.Scheduler.Scaling.Safety.{Listed, Hits, leading, Holds, Later}
use bbtools_coroutine.Scheduler.Scaling.Safety.Changes.{Prepared, prepare-Prepared}
use bbtools_coroutine.Scheduler.Scaling.Safety.Steps.{Sound, tick-Ticked}
use bbtools_coroutine.Scheduler.Scaling.Safety.Moves.{step-Fine, Holds-Later}

-- What a configuration that is accepted says of the bounds.
resolve-bounds :
    (c : GlobalConfig) {b : ScalingBounds}
    → resolve_bounds c ≡ some b
    → (b.lowest ≤ b.initial) × (b.initial ≤ b.highest) × (1 ≤ b.lowest)
unfolding resolve_bounds numbers_refused samples_refused thresholds_refused
resolve-bounds c e = ground arith

abbrev pub threads : ℕ → List Stage
threads zero = []
threads (suc n) = idle ∷ threads n

module _ (c : GlobalConfig) (b : ScalingBounds) where
  abbrev All-Fine : List Stage × Scheduler → Type 0
  All-Fine (ss, s) = Sound c b s × All (λ st. Holds st s) ss

  All-Later :
      (ss : List Stage) (s s' : Scheduler)
      → Later s s'
      → All (λ st. Holds st s) ss
      → All (λ st. Holds st s') ss
  All-Later [] s s' g h = tt
  All-Later (st ∷ ss) s s' g (f, h) = (Holds-Later c b st s s' g f, All-Later ss s s' g h)

  step_at-Fine :
      (i : ℕ) (m : Move) (a : Answers) (ss : List Stage) (s : Scheduler)
      → All-Fine (ss, s)
      → All-Fine (step_at c b i m a ss s) × Later s (step_at c b i m a ss s).1
  unfolding step_at
  step_at-Fine i m a [] s h = (h, λ x g. g)
  step_at-Fine zero m a (st ∷ ss) s (h, (f, fs)) =
      let (h', g, f') = step-Fine c b m a st s f h in
      ((h', (f', All-Later ss s (step c b m a st s).1 g fs)), g)
  step_at-Fine (suc i) m a (st ∷ ss) s (h, (f, fs)) =
      let ((h', fs'), g) = step_at-Fine i m a ss s (h, fs) in
      ((h', (Holds-Later c b st s (step_at c b i m a ss s).1 g f, fs')), g)

  run-Fine :
      (ms : List (ℕ × Move × Answers)) (ss : List Stage) (s : Scheduler)
      → All-Fine (ss, s)
      → All-Fine (run c b ms ss s)
  unfolding run
  run-Fine [] ss s h = h
  run-Fine ((i, m, a) ∷ ms) ss s h =
      let (ss', s') = step_at c b i m a ss s in run-Fine ms ss' s' (step_at-Fine i m a ss s h).0

threads-Holds : (n : ℕ) (s : Scheduler) → All (λ st. Holds st s) (threads n)
threads-Holds zero s = tt
threads-Holds (suc n) s = (tt, threads-Holds n s)

-- The first batch comes up on an empty registry.
batch-Sound :
    (c : GlobalConfig) (b : ScalingBounds) (s : Scheduler) (o : Bool × Scheduler) (k : ℕ)
    → s.active_snapshot ≡ []
    → (o.0 ≡ true) × (o.1.target_num ≡ k)
    → b.lowest ≤ k
    → k ≤ b.highest
    → Hits c s
    → Prepared k s o
    → Sound c b o.1
batch-Sound c b s (true, s') k e t lo hi h (v, g, n, u, d, es) = (
  v,
  record {
    sized = omega (arith, n, t.1, ap (λ (l : List ℕ). length l) e);
    low = omega (arith, t.1);
    high = omega (arith, t.1);
  },
  (
    omega (arith, u, h.0, ap (leading (is_up c)) es),
    omega (arith, d, h.1, ap (leading (is_down c)) es),
  ),
)
batch-Sound c b s (false, s') k e (t, _) lo hi h p = absurd (cc)

prepare-ok :
    (k : ℕ) (s : Scheduler)
    → ((prepare_expansion k comes_up s).0 ≡ true)
      × ((prepare_expansion k comes_up s).1.target_num ≡ s.target_num)
unfolding prepare_expansion
prepare-ok zero s = (refl, refl)
prepare-ok (suc k) s = (refl, refl)

start-Sound :
    (c : GlobalConfig) {b : ScalingBounds} (now : ℕ)
    → resolve_bounds c ≡ some b
    → Sound c b (start c b now)
unfolding start active_ids count_outstanding sum
start-Sound c {b} now e =
    let (lo, hi, _) = resolve-bounds c e in
    let s = init c b now in
    let v : Listed s = record {
      kept = record { rises = tt; below = tt; few = omega arith; pinned = tt };
      snapshot = refl;
      mapped = refl;
    } in
    batch-Sound c b s (prepare_expansion b.initial comes_up s) b.initial refl
      (prepare-ok b.initial s) lo hi (omega arith, omega arith)
      (prepare-Prepared b.initial comes_up s v)

module _ (c : GlobalConfig) {b : ScalingBounds} (e : resolve_bounds c ≡ some b) (now n : ℕ) where
  after : (ms : List (ℕ × Move × Answers)) → All-Fine c b (run c b ms (threads n) (start c b now))
  after ms =
      run-Fine c b ms (threads n) (start c b now)
        (start-Sound c now e, threads-Holds n (start c b now))

  -- A configuration is accepted and the scheduler starts. Requests for a number of workers, the automatic scaling and the
  -- reaping of ended workers run in any number of threads, while drivers come and go and workers exit, in any interleaving
  -- and with any failures of threads, memory and joins. At every point the target lies within the configured
  -- bounds, is at least 1 and is the number of active workers; the registry and the snapshot name just the active workers, in the order
  -- of their ids, each once; at most 32 workers retire or wait to be joined; and no worker that has a driver retires.
  pub run-Sized :
      (ms : List (ℕ × Move × Answers))
      → let (ss, s) = run c b ms (threads n) (start c b now) in
        (s.target_num ≡ length s.active_snapshot)
        × (1 ≤ s.target_num)
        × (b.lowest ≤ s.target_num)
        × (s.target_num ≤ b.highest)
        × (s.active_snapshot ≡ active_ids s.workers)
        × (s.processer_map ≡ s.active_snapshot)
        × Rises 0 (ids s.workers)
        × (count_outstanding s.workers ≤ 32)
        × All Pinned s.workers
  run-Sized ms =
      let (ss, s) = run c b ms (threads n) (start c b now) in
      let ((v, z, h), _) = after ms in
      (
        z.sized,
        omega (arith, (resolve-bounds c e).2, z.low),
        z.low,
        z.high,
        v.snapshot,
        v.mapped ∙ sym v.snapshot,
        v.kept.rises,
        v.kept.few,
        v.kept.pinned,
      )

  -- Whatever requests, ticks and changes of the workers went before on a scheduler with an accepted configuration: a tick
  -- of the automatic scaling raises the target only if the configured number of newest samples, all of them taken since
  -- a request last reset the counters, found the load high, and lowers it only if so many found it low.
  pub run-Sustained :
      (ms : List (ℕ × Move × Answers)) (a : Answers)
      → let s = (run c b ms (threads n) (start c b now)).1 in
        let s' = (tick c b a s).1 in
        (s.target_num < s'.target_num → c.scale_up_samples ≤ leading (is_up c) s'.samples)
        × (s'.target_num < s.target_num → c.scale_down_samples ≤ leading (is_down c) s'.samples)
  run-Sustained ms a =
      let (h, _) = after ms in (tick-Ticked c b a (run c b ms (threads n) (start c b now)).1 h).1
