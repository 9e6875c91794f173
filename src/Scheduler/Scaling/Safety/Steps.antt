-- ===== src/Scheduler/Scaling/Safety/Steps.antt =====
-- One step of a thread: a request, a tick, the reaping of a worker.
use bbtools_coroutine.Base.{
  ℕ, ◌≤◌, ◌<◌, ◌≡◌, refl, ap, ltb, leb, leb→le, Bool, ◌||◌, if-cases, Option, none, some, List, ◌∷◌,
  arith,
}
use bbtools_coroutine.Scheduler.{GlobalConfig, ScalingBounds, Mode, manual, auto, Load, Scheduler}
use bbtools_coroutine.Scheduler.Resize.{
  ResizeResult, ok, pending, invalid_target, driver_bound, create_failed, self_retire, busy, Batch,
  apply_target, accepted, reset_samples, set_processer_num,
}
use bbtools_coroutine.Scheduler.Ticks.{
  advance_hits, Answers, claim_auto_sample, is_due, is_up, is_down, sample_load, accumulate_hits,
  Stage, grown, next_up, scale_up, shrunk, next_down, scale_down, decide, sampled, claimed_tick,
  tick,
}
use bbtools_coroutine.Scheduler.Scaling.Safety.{Listed, Sized, Hits, leading, Holds, Later}
use bbtools_coroutine.Scheduler.Scaling.Safety.Changes.{Applied, apply-Applied}

abbrev pub Sound : GlobalConfig → ScalingBounds → Scheduler → Type 0
Sound c b s = Listed s × Sized b s × Hits c s

abbrev pub Fine : GlobalConfig → ScalingBounds → Scheduler → Stage × Scheduler → Type 0
Fine c b s (st, s') = Sound c b s' × Later s s' × Holds st s'

-- A tick changes the target only after so many loads in a row that ask for it.
abbrev pub Sustained : GlobalConfig → Scheduler → Scheduler → Type 0
Sustained c s s' =
    (s.target_num < s'.target_num → c.scale_up_samples ≤ leading (is_up c) s'.samples)
    × (s'.target_num < s.target_num → c.scale_down_samples ≤ leading (is_down c) s'.samples)

advance-le :
    (p : Load → Bool) (l : Load) (ls : List Load) (hits samples : ℕ)
    → hits ≤ leading p ls
    → advance_hits hits (p l) samples ≤ leading p (l ∷ ls)
unfolding advance_hits
advance-le p l ls hits samples h = ground arith

module _ (c : GlobalConfig) (b : ScalingBounds) where
  abbrev Ticked : Scheduler → Stage × Scheduler → Type 0
  Ticked s (st, s') = Fine c b s (st, s') × Sustained c s s'

  Hits-same :
      (s s' : Scheduler)
      → s'.scale_up_hits ≡ s.scale_up_hits
      → s'.scale_down_hits ≡ s.scale_down_hits
      → s'.samples ≡ s.samples
      → Hits c s
      → Hits c s'
  Hits-same s s' u d e (hu, hd) = (
    omega (arith, u, hu, ap (leading (is_up c)) e),
    omega (arith, d, hd, ap (leading (is_down c)) e),
  )

  module _ (t : ℕ) (s : Scheduler) (h : Hits c s) where
    grown-Ticked :
        s.target_num ≤ t
        → c.scale_up_samples ≤ leading (is_up c) s.samples
        → (o : ResizeResult × Scheduler) → Applied b t s o
        → Ticked s (grown o)
    unfolding grown
    grown-Ticked le full (r, s') (v, g, z, u, d, e, w) = go r
      where
        kept : Hits c s'
        kept = Hits-same s s' u d e h

        why : Sustained c s s'
        why = (λ _. omega (arith, full, ap (leading (is_up c)) e), λ lt. absurd (ground (arith, w)))

        go : (r : ResizeResult) → Ticked s (grown (r, s'))
        go ok = (((v, z, (omega arith, omega arith)), g, tt), why)
        go create_failed = (((v, z, kept), g, tt), why)
        go pending = (((v, z, (omega arith, kept.1)), g, tt), why)
        go invalid_target = (((v, z, (omega arith, kept.1)), g, tt), why)
        go driver_bound = (((v, z, (omega arith, kept.1)), g, tt), why)
        go self_retire = (((v, z, (omega arith, kept.1)), g, tt), why)
        go busy = (((v, z, (omega arith, kept.1)), g, tt), why)

    shrunk-Ticked :
        t ≤ s.target_num
        → c.scale_down_samples ≤ leading (is_down c) s.samples
        → (o : ResizeResult × Scheduler) → Applied b t s o
        → Ticked s (shrunk o)
    unfolding shrunk
    shrunk-Ticked le full (r, s') (v, g, z, u, d, e, w) = go r
      where
        kept : Hits c s'
        kept = Hits-same s s' u d e h

        why : Sustained c s s'
        why =
            (λ lt. absurd (ground (arith, w)), λ _. omega (arith, full, ap (leading (is_down c)) e))

        go : (r : ResizeResult) → Ticked s (shrunk (r, s'))
        go ok = (((v, z, (omega arith, omega arith)), g, tt), why)
        go create_failed = (((v, z, kept), g, tt), why)
        go pending = (((v, z, (omega arith, omega arith)), g, tt), why)
        go invalid_target = (((v, z, (kept.0, omega arith)), g, tt), why)
        go driver_bound = (((v, z, (kept.0, omega arith)), g, tt), why)
        go self_retire = (((v, z, (kept.0, omega arith)), g, tt), why)
        go busy = (((v, z, (kept.0, omega arith)), g, tt), why)

  module _ (a : Answers) (s : Scheduler) where
    decide-Ticked : Sound c b s → Ticked s (decide c b a s)
    unfolding decide scale_up scale_down
    decide-Ticked (v, z, h) =
        if-cases (Ticked s) (leb c.scale_up_samples s.scale_up_hits) _ _
          (λ up.
            if-cases (Ticked s) (leb b.highest s.target_num) _ _
              (λ _. (((v, z, (omega arith, h.1)), λ x g. g, tt), same))
              (λ room.
                let t = next_up c b s.target_num in
                grown-Ticked t s h (ground (arith, z.high, room))
                  (omega (arith, leb→le _ _ up, h.0)) (apply_target t a.self a.has_memory a.batch s)
                  (apply-Applied b t s v z a.self a.has_memory a.batch (ground (arith, z.low, room))
                    (ground (arith, room)))))
          (λ _.
            if-cases (Ticked s) (leb c.scale_down_samples s.scale_down_hits) _ _
              (λ down.
                if-cases (Ticked s) (leb s.target_num b.lowest) _ _
                  (λ _. (((v, z, (h.0, omega arith)), λ x g. g, tt), same))
                  (λ room.
                    let t = next_down c b s.target_num in
                    shrunk-Ticked t s h (ground (arith, z.low, room))
                      (omega (arith, leb→le _ _ down, h.1))
                      (apply_target t a.self a.has_memory a.batch s)
                      (apply-Applied b t s v z a.self a.has_memory a.batch (ground (arith, room))
                        (ground (arith, z.high, room)))))
              (λ _. (((v, z, h), λ x g. g, tt), same)))
      where
        same : Sustained c s s
        same = (λ lt. absurd (omega arith), λ lt. absurd (omega arith))

  still : (s : Scheduler) → Sustained c s s
  still s = (λ lt. absurd (omega arith), λ lt. absurd (omega arith))

  sampled-Ticked :
      (a : Answers) (s : Scheduler) (o : Option Load) → Sound c b s → Ticked s (sampled c b a o s)
  unfolding sampled accumulate_hits
  sampled-Ticked a s none f = ((f, λ x g. g, tt), still s)
  sampled-Ticked a s (some l) (v, z, h) = decide-Ticked a (accumulate_hits c l s) (
    v,
    z,
    (
      advance-le (is_up c) l s.samples s.scale_up_hits c.scale_up_samples h.0,
      advance-le (is_down c) l s.samples s.scale_down_hits c.scale_down_samples h.1,
    ),
  )

  pub tick-Ticked : (a : Answers) (s : Scheduler) → Sound c b s → Ticked s (tick c b a s)
  unfolding tick claim_auto_sample claimed_tick
  tick-Ticked a s f = go s.scaling_mode refl
    where
      go : (m : Mode) → s.scaling_mode ≡ m → Ticked s (tick c b a s)
      go manual e = rw (e, tick, claimed_tick, claim_auto_sample) ((f, λ x g. g, tt), still s)
      go auto e =
          rw (e, tick, claimed_tick, claim_auto_sample)
            (if-cases (λ o. Ticked s (claimed_tick c b a o)) (is_due c a.now s.last_auto_sample) _ _
              (λ _.
                sampled-Ticked a (record s { last_auto_sample = a.now })
                  (sample_load a s.active_snapshot) f)
              (λ _. ((f, λ x g. g, tt), still s)))

  -- A request.
  accepted-Sound :
      (now t : ℕ) (s : Scheduler) (o : ResizeResult × Scheduler)
      → Hits c s
      → Applied b t s o
      → Sound c b (accepted now o).1 × Later s (accepted now o).1
  unfolding accepted reset_samples
  accepted-Sound now t s (r, s') h (v, g, z, u, d, e, w) = go r
    where
      kept : Hits c s'
      kept = Hits-same s s' u d e h

      go :
          (r : ResizeResult) → Sound c b (accepted now (r, s')).1 × Later s (accepted now (r, s')).1
      go ok = ((v, z, (omega arith, omega arith)), g)
      go pending = ((v, z, (omega arith, omega arith)), g)
      go create_failed = ((v, z, kept), g)
      go invalid_target = ((v, z, kept), g)
      go driver_bound = ((v, z, kept), g)
      go self_retire = ((v, z, kept), g)
      go busy = ((v, z, kept), g)

  pub request-Sound :
      (num : ℕ) (self : Option ℕ) (m : Bool) (batch : Batch) (now : ℕ) (s : Scheduler)
      → Sound c b s
      → let s' = (set_processer_num b num self m batch now s).1 in Sound c b s' × Later s s'
  unfolding set_processer_num
  request-Sound num self m batch now s (v, z, h) =
      if-cases P (ltb num b.lowest || ltb b.highest num) _ _ (λ _. ((v, z, h), λ x g. g))
        (λ inside. accepted-Sound now num s (apply_target num self m batch s) h (
          apply-Applied b num s v z self m batch (ground (arith, inside)) (ground (arith, inside))))
    where
      P : ResizeResult × Scheduler → Type 0
      P o = Sound c b o.1 × Later s o.1
