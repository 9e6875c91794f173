-- ===== src/Scheduler/Scaling/Safety/Moves.antt =====
-- One move of a thread or a worker keeps the registry.
use bbtools_coroutine.Base.{
  ℕ, zero, suc, ◌+◌, ◌≤◌, ◌<◌, ◌≡◌, sym, ap, ◌∙◌, ◌==◌, Bool, true, false, if-cases, Option, none,
  some, List, [], ◌∷◌, map, All, if◌then◌else◌, arith,
}
use bbtools_coroutine.Processer.{is_active}
use bbtools_coroutine.Scheduler.{GlobalConfig, ScalingBounds, Mode, manual, auto, Worker, Scheduler}
use bbtools_coroutine.Scheduler.Resize.{ids, contains, set_processer_auto_scale, reset_samples}
use bbtools_coroutine.Scheduler.Ticks.{
  Answers, Stage, idle, ticks, relocks_up, relocks_down, reaps, joins, erases,
}
use bbtools_coroutine.Scheduler.Scaling.{
  find_reapable, reapable, update_at, update_worker, erase_worker, claim, unclaim, mark_joined,
  reap_found, reap_join, own, exit, end_thread, Move, requests, enables, begins_tick, goes_on,
  binds, unbinds, exits, ends, creates, go_on, tick_gate, request, step,
}
use bbtools_coroutine.Scheduler.Ids.{Rises}
use bbtools_coroutine.Scheduler.Roster.{Pinned}
use bbtools_coroutine.Scheduler.Roster.Changes.{
  Keeps, map-Keeps, All-lift, All-All, Inactive, erase_worker-keeps, erase_worker-All,
  erase_worker-Rises, contains-active_ids,
}
use bbtools_coroutine.Scheduler.Scaling.Safety.{Listed, Gone, Holds, Later}
use bbtools_coroutine.Scheduler.Scaling.Safety.Changes.{below_mono}
use bbtools_coroutine.Scheduler.Scaling.Safety.Steps.{Sound, Fine, tick-Ticked, request-Sound}

-- A change of one worker's record.
module _ (x : ℕ) (f : Worker → Worker) (s : Scheduler) where
  update-Kept :
      All (Keeps (update_at x f)) s.workers
      → Listed s
      → Listed (update_worker x f s) × Later s (update_worker x f s)
  update-Kept k v =
      let (e, a, o, p) = map-Keeps (update_at x f) s.workers k in
      (
        record {
          kept = record {
            rises = rw e v.kept.rises;
            below = rw e v.kept.below;
            few = omega (arith, o, v.kept.few);
            pinned = p v.kept.pinned;
          };
          snapshot = v.snapshot ∙ sym a;
          mapped = v.mapped ∙ sym a;
        },
        λ y (lt, g). (lt, inactive y s.workers k g),
      )
    where
      inactive :
          (y : ℕ) (ws : List Worker)
          → All (Keeps (update_at x f)) ws
          → All (Inactive y) ws
          → All (Inactive y) (map (update_at x f) ws)
      inactive y [] k i = tt
      inactive y (w ∷ ws) (q, k) (i, is) = ((λ e. q.1 ∙ i (sym q.0 ∙ e)), inactive y ws k is)

-- Changes that keep the id and the lifecycle, and give no driver away.
claim-Keeps : (x : ℕ) (w : Worker) → Keeps (update_at x claim) w
claim-Keeps x w = ground arith

unclaim-Keeps : (x : ℕ) (w : Worker) → Keeps (update_at x unclaim) w
unclaim-Keeps x w = ground arith

disown-Keeps : (x : ℕ) (w : Worker) → Keeps (update_at x (own false)) w
disown-Keeps x w = ground arith

own-Keeps :
    (x : ℕ) (w : Worker)
    → (w.id ≡ x → is_active w.lifecycle ≡ true)
    → Keeps (update_at x (own true)) w
own-Keeps x w h = ground (arith, h)

join-Keeps : (x : ℕ) (w : Worker) → Inactive x w → Keeps (update_at x mark_joined) w
join-Keeps x w h = ground (arith, h)

exit-Keeps : (x : ℕ) (w : Worker) → Keeps (update_at x exit) w
exit-Keeps x w = ground arith

end-Keeps : (x : ℕ) (w : Worker) → Keeps (update_at x end_thread) w
end-Keeps x w = ground arith

-- The worker that is claimed has left its loop.
abbrev Found : ℕ → ℕ → List Worker → Option ℕ → Type 0
Found lo n ws none = Unit
Found lo n ws (some x) = (lo ≤ x) × (x < n) × All (Inactive x) ws

Rises-Inactive : (x lo : ℕ) (ws : List Worker) → x < lo → Rises lo (ids ws) → All (Inactive x) ws
Rises-Inactive x lo [] h r = tt
Rises-Inactive x lo (w ∷ ws) h (le, r) =
    ((λ e. absurd (omega arith)), Rises-Inactive x (suc w.id) ws (omega arith) r)

find_reapable-Found :
    (lo n : ℕ) (ws : List Worker)
    → Rises lo (ids ws)
    → All (λ y. y < n) (ids ws)
    → Found lo n ws (find_reapable ws)
unfolding find_reapable
find_reapable-Found lo n [] r b = tt
find_reapable-Found lo n (w ∷ ws) (le, r) (lt, b) =
    if-cases (Found lo n (w ∷ ws)) (reapable w) _ _
      (λ t. (le, lt, ((λ e. ground (arith, t)), Rises-Inactive w.id (suc w.id) ws (omega arith) r)))
      (λ _. later (find_reapable ws) (find_reapable-Found (suc w.id) n ws r b))
  where
    later : (o : Option ℕ) → Found (suc w.id) n ws o → Found lo n (w ∷ ws) o
    later none f = tt
    later (some x) (g, l, i) = (omega arith, l, ((λ e. absurd (omega arith)), i))

module _ (c : GlobalConfig) (b : ScalingBounds) where
  updated :
      (x : ℕ) (f : Worker → Worker) (s : Scheduler)
      → All (Keeps (update_at x f)) s.workers
      → Sound c b s
      → Sound c b (update_worker x f s) × Later s (update_worker x f s)
  updated x f s k (v, z, h) = let (v', g) = update-Kept x f s k v in ((v', z, h), g)

  updated_all :
      (x : ℕ) (f : Worker → Worker) (s : Scheduler)
      → ((w : Worker) → Keeps (update_at x f) w)
      → Sound c b s
      → Sound c b (update_worker x f s) × Later s (update_worker x f s)
  updated_all x f s k = updated x f s (All-All (Keeps (update_at x f)) s.workers k)

  reap_found-Fine :
      (k : ℕ) (s : Scheduler) (o : Option ℕ)
      → Found 0 s.next_id s.workers o
      → Sound c b s
      → Fine c b s (reap_found k o s)
  unfolding reap_found
  reap_found-Fine k s none f h = (h, λ x g. g, tt)
  reap_found-Fine k s (some x) (_, lt, i) h =
      let (h', g) = updated_all x claim s (claim-Keeps x) h in (h', g, g x (lt, i))

  reap_join-Fine :
      (o : Bool) (x k : ℕ) (s : Scheduler) → Gone x s → Sound c b s → Fine c b s (reap_join o x k s)
  unfolding reap_join
  reap_join-Fine false x k s f h =
      let (h', g) = updated_all x unclaim s (unclaim-Keeps x) h in (h', g, tt)
  reap_join-Fine true x k s f h =
      let keeps =
        All-lift (Inactive x) (Keeps (update_at x mark_joined)) s.workers (join-Keeps x) f.1 in
      let (h', g) = updated x mark_joined s keeps h in (h', g, g x f)

  erase-Fine :
      (x k : ℕ) (s : Scheduler)
      → Gone x s
      → Sound c b s
      → Fine c b s (reaps k, record s { workers = erase_worker x s.workers })
  unfolding erase_worker
  erase-Fine x k s f (v, z, h) =
      let (a, o) = erase_worker-keeps x s.workers f.1 in
      (
        (
          record {
            kept = record {
              rises = erase_worker-Rises x 0 s.workers v.kept.rises;
              below = below x s.workers v.kept.below;
              few = omega (arith, o, v.kept.few);
              pinned = erase_worker-All Pinned x s.workers v.kept.pinned;
            };
            snapshot = v.snapshot ∙ sym a;
            mapped = v.mapped ∙ sym a;
          },
          z,
          h,
        ),
        λ y (lt, i). (lt, erase_worker-All (Inactive y) x s.workers i),
        tt,
      )
    where
      below :
          (x : ℕ) (ws : List Worker)
          → All (λ y. y < s.next_id) (ids ws)
          → All (λ y. y < s.next_id) (ids (erase_worker x ws))
      below x [] t = tt
      below x (w ∷ ws) (lt, t) =
          if-cases (λ us. All (λ y. y < s.next_id) (ids us)) (w.id == x) ws (w ∷ erase_worker x ws)
            (λ _. t) (λ _. (lt, below x ws t))

  go_on-Fine :
      (a : Answers) (st : Stage) (s : Scheduler)
      → Holds st s
      → Sound c b s
      → Fine c b s (go_on c b a st s)
  unfolding go_on
  go_on-Fine a idle s f h = (h, λ x g. g, tt)
  go_on-Fine a ticks s f h = (tick-Ticked c b a s h).0
  go_on-Fine a relocks_up s f (v, z, h) = ((v, z, (omega arith, h.1)), λ x g. g, tt)
  go_on-Fine a relocks_down s f (v, z, h) = ((v, z, (h.0, omega arith)), λ x g. g, tt)
  go_on-Fine a (reaps zero) s f h = (h, λ x g. g, tt)
  go_on-Fine a (reaps (suc k)) s f h =
      reap_found-Fine k s (find_reapable s.workers)
        (find_reapable-Found 0 s.next_id s.workers h.0.kept.rises h.0.kept.below) h
  go_on-Fine a (joins x k) s f h = reap_join-Fine a.joins_well x k s f h
  go_on-Fine a (erases x k) s f h = erase-Fine x k s f h

  tick_gate-Holds : (m : Mode) (s : Scheduler) → Holds (tick_gate m) s
  tick_gate-Holds manual s = tt
  tick_gate-Holds auto s = tt

  pub Holds-Later : (st : Stage) (s s' : Scheduler) → Later s s' → Holds st s → Holds st s'
  Holds-Later (joins x k) s s' g f = g x f
  Holds-Later (erases x k) s s' g f = g x f
  Holds-Later _ s s' g f = tt

  worker-Fine :
      (st : Stage) (s s' : Scheduler) → Holds st s → Sound c b s' × Later s s' → Fine c b s (st, s')
  worker-Fine st s s' f (h, g) = (h, g, Holds-Later st s s' g f)

  binds-Sound :
      (x : ℕ) (s : Scheduler)
      → Sound c b s
      → let s' = if contains s.processer_map x then update_worker x (own true) s else s in
        Sound c b s' × Later s s'
  binds-Sound x s h =
      if-cases (λ s'. Sound c b s' × Later s s') (contains s.processer_map x) _ _
        (λ e.
          updated x (own true) s
            (All-lift _ (Keeps (update_at x (own true))) s.workers (own-Keeps x) (
              contains-active_ids x 0 s.workers h.0.kept.rises
                (ap (λ l. contains l x) (sym h.0.mapped) ∙ e)))
            h)
        (λ _. (h, λ y g. g))

  pub step-Fine :
      (m : Move) (a : Answers) (st : Stage) (s : Scheduler)
      → Holds st s
      → Sound c b s
      → Fine c b s (step c b m a st s)
  unfolding step request set_processer_auto_scale reset_samples
  step-Fine (requests num) a idle s f h =
      let (h', g) = request-Sound c b num a.self a.has_memory a.batch a.now s h in (h', g, tt)
  step-Fine (enables on) a idle s f (v, z, h) = ((v, z, (omega arith, omega arith)), λ x g. g, tt)
  step-Fine begins_tick a idle s f h = (h, λ x g. g, tick_gate-Holds s.scaling_mode s)
  step-Fine goes_on a st s f h = go_on-Fine a st s f h
  step-Fine (binds x) a st s f h = worker-Fine st s _ f (binds-Sound x s h)
  step-Fine (unbinds x) a st s f h =
      worker-Fine st s _ f (updated_all x (own false) s (disown-Keeps x) h)
  step-Fine (exits x) a st s f h = worker-Fine st s _ f (updated_all x exit s (exit-Keeps x) h)
  step-Fine (ends x) a st s f h = worker-Fine st s _ f (updated_all x end_thread s (end-Keeps x) h)
  step-Fine (creates n) a st s f (v, z, h) =
      worker-Fine st s (record s { next_id = s.next_id + n }) f
        (
          (
            record {
              kept = record {
                rises = v.kept.rises;
                below = below_mono s.next_id n (ids s.workers) v.kept.below;
                few = v.kept.few;
                pinned = v.kept.pinned;
              };
              snapshot = v.snapshot;
              mapped = v.mapped;
            },
            z,
            h,
          ),
          λ x (lt, i). (omega arith, i),
        )
  step-Fine m a st s f h = (h, λ x g. g, f)
