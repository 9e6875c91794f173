-- ===== src/Scheduler/Scaling/Safety/Changes.antt =====
-- Growth, shrinking and the changes of single workers keep the registry.
use bbtools_coroutine.Base.{
  ℕ, zero, suc, ◌+◌, ◌-◌, ◌≤◌, ◌<◌, ◌≡◌, refl, sym, ap, ◌∙◌, ltb, Bool, true, false, not, ◌⊎◌, inl,
  inr, if-cases, ltb→lt, subst, Option, List, [], ◌∷◌, ◌++◌, map, length, length-append, All,
  All-append, arith,
}
use bbtools_coroutine.Scheduler.{ScalingBounds, Worker, Scheduler}
use bbtools_coroutine.Scheduler.Resize.{
  ResizeResult, driver_bound, self_retire, busy, Batch, comes_up, fails, fresh_from, ids,
  prepare_expansion, candidates, select, count_outstanding, max_outstanding_retire, without,
  begin_retire, commit_selected, commit_shrink, set_target, apply_target,
}
use bbtools_coroutine.Scheduler.Ids.{Rises-append, Rises-Sub, Sub, Sub-trans, length-without}
use bbtools_coroutine.Scheduler.Roster.{
  active_ids, Pinned, active_ids-Sub, active_ids-append, active_ids-fresh_from, ids-append,
  fresh_from-Rises, count_outstanding-append, selected-Sub, length-select-le, selected-free,
}
use bbtools_coroutine.Scheduler.Roster.Changes.{map-retire, outstanding-retire, Inactive}
use bbtools_coroutine.Scheduler.Scaling.Safety.{Kept, Listed, Sized, Later}

pub below_mono : (n k : ℕ) (xs : List ℕ) → All (λ x. x < n) xs → All (λ x. x < n + k) xs
below_mono n k [] b = tt
below_mono n k (x ∷ xs) (h, b) = (omega arith, below_mono n k xs b)

fresh-Inactive : (x n k : ℕ) → x < n → All (Inactive x) (fresh_from n k)
fresh-Inactive x n zero h = tt
fresh-Inactive x n (suc k) h =
    ((λ e. absurd (omega arith)), fresh-Inactive x (suc n) k (omega arith))

-- A batch that comes up.
module _ (n k : ℕ) (ws : List Worker) where
  append-Kept : Kept n ws → Kept (n + k) (ws ++ fresh_from n k)
  append-Kept v =
      let (r, b, l, o, p) = fresh_from-Rises n k in
      record {
        rises =
            rw (ids-append ws (fresh_from n k))
              (Rises-append 0 n (ids ws) (ids (fresh_from n k)) (omega arith) v.below v.rises r);
        below = rw (ids-append ws (fresh_from n k)) (
            All-append (λ x. x < n + k) (ids ws) (ids (fresh_from n k))
              (below_mono n k (ids ws) v.below) b);
        few = omega (arith, count_outstanding-append ws (fresh_from n k), o, v.few);
        pinned = All-append Pinned ws (fresh_from n k) v.pinned p;
      }

  append-active : active_ids (ws ++ fresh_from n k) ≡ active_ids ws ++ ids (fresh_from n k)
  append-active = rw (active_ids-append ws (fresh_from n k), active_ids-fresh_from n k) refl

-- What the resizing does: it keeps the registry and the counters, and ends with `n` active workers.
abbrev pub Resized : ℕ → Scheduler → Scheduler → Type 0
Resized n s s' =
    Listed s'
    × Later s s'
    × (length s'.active_snapshot ≡ n)
    × (s'.scale_up_hits ≡ s.scale_up_hits)
    × (s'.scale_down_hits ≡ s.scale_down_hits)
    × (s'.samples ≡ s.samples)

abbrev pub Prepared : ℕ → Scheduler → Bool × Scheduler → Type 0
Prepared k s (true, s') = Resized (length s.active_snapshot + k) s s'
Prepared k s (false, s') = Resized (length s.active_snapshot) s s' × (s'.target_num ≡ s.target_num)

pub prepare-Prepared :
    (k : ℕ) (b : Batch) (s : Scheduler) → Listed s → Prepared k s (prepare_expansion k b s)
unfolding prepare_expansion
prepare-Prepared zero b s v = (v, λ x g. g, omega arith, refl, refl, refl)
prepare-Prepared (suc k) (fails n) s v =
    let kept : Kept (s.next_id + n) s.workers = record {
      rises = v.kept.rises;
      below = below_mono s.next_id n (ids s.workers) v.kept.below;
      few = v.kept.few;
      pinned = v.kept.pinned;
    } in
    (
      (
        record { kept = kept; snapshot = v.snapshot; mapped = v.mapped },
        λ x g. (omega (arith, g.0), g.1),
        refl,
        refl,
        refl,
        refl,
      ),
      refl,
    )
prepare-Prepared (suc k) comes_up s v =
    let n = s.next_id in
    let new = fresh_from n (suc k) in
    (
      record {
        kept = append-Kept n (suc k) s.workers v.kept;
        snapshot =
            ap (λ (l : List ℕ). l ++ ids new) v.snapshot ∙ sym (append-active n (suc k) s.workers);
        mapped =
            ap (λ (l : List ℕ). l ++ ids new) v.mapped ∙ sym (append-active n (suc k) s.workers);
      },
      λ x g. (
        omega (arith, g.0),
        All-append (Inactive x) s.workers new g.1 (fresh-Inactive x n (suc k) g.0),
      ),
      omega (arith, length-append s.active_snapshot (ids new), fresh_from-Rises n (suc k)),
      refl,
      refl,
      refl,
    )

-- A selection that retires.
module _ (self : Option ℕ) (k : ℕ) (s : Scheduler) (v : Listed s) where
  abbrev selected : List ℕ
  selected = select self k (candidates s.workers s.active_snapshot)

  selected-Active : Sub selected (active_ids s.workers)
  selected-Active =
      subst (λ l. Sub selected l) v.snapshot (selected-Sub self k s.workers s.active_snapshot)

  retire-Resized :
      (target : ℕ)
      → count_outstanding s.workers + k ≤ max_outstanding_retire
      → ltb (length selected) k ≡ false
      → Resized (length s.active_snapshot - k) s (commit_selected target selected s).1
  unfolding commit_selected
  retire-Resized target few enough =
      let free = selected-free self k s.workers s.active_snapshot v.kept.rises in
      let (e, a, o, p) = map-retire selected s.workers free v.kept.pinned in
      let rises' = Rises-Sub 0 (active_ids-Sub s.workers) v.kept.rises in
      let shorter = length-without 0 selected-Active rises' in
      let le = length-select-le self k (candidates s.workers s.active_snapshot) in
      (
        record {
          kept = record {
            rises = rw e v.kept.rises;
            below = rw e v.kept.below;
            few = omega (
              arith,
              outstanding-retire selected s.workers free v.kept.pinned
                  (Sub-trans selected-Active (active_ids-Sub s.workers)) v.kept.rises,
              le,
            );
            pinned = p;
          };
          snapshot = ap (without selected) v.snapshot ∙ sym a;
          mapped = ap (without selected) v.mapped ∙ sym a;
        },
        λ x g. (g.0, retire-Inactive x s.workers g.1),
        short le shorter,
        refl,
        refl,
        refl,
      )
    where
      retire-Inactive :
          (x : ℕ) (ws : List Worker)
          → All (Inactive x) ws
          → All (Inactive x) (map (begin_retire selected) ws)
      retire-Inactive x [] i = tt
      retire-Inactive x (w ∷ ws) (i, is) = (ground (arith, i), retire-Inactive x ws is)

      short :
          length selected ≤ k
          → length (without selected (active_ids s.workers)) + length selected
            ≡ length (active_ids s.workers)
          → length (without selected s.active_snapshot) ≡ length s.active_snapshot - k
      short le e = rw v.snapshot (ground (arith, le, e, enough))

-- A target is set: there are just so many active workers, or nothing changed.
abbrev pub Applied : ScalingBounds → ℕ → Scheduler → ResizeResult × Scheduler → Type 0
Applied b t s (r, s') =
    Listed s'
    × Later s s'
    × Sized b s'
    × (s'.scale_up_hits ≡ s.scale_up_hits)
    × (s'.scale_down_hits ≡ s.scale_down_hits)
    × (s'.samples ≡ s.samples)
    × ((s'.target_num ≡ t) ⊎ (s'.target_num ≡ s.target_num))

module _ (b : ScalingBounds) (t : ℕ) (s : Scheduler) (v : Listed s) (z : Sized b s) where
  same : (r : ResizeResult) → Applied b t s (r, s)
  same r = (v, λ x g. g, z, refl, refl, refl, inr refl)

  set_target-Applied :
      b.lowest ≤ t
      → t ≤ b.highest
      → length s.active_snapshot < t
      → (o : Bool × Scheduler) → Prepared (t - length s.active_snapshot) s o
      → Applied b t s (set_target t o)
  unfolding set_target
  set_target-Applied lo hi lt (true, s') (l, g, n, eu, ed, es) =
      (l, g, record { sized = omega (arith, n); low = lo; high = hi }, eu, ed, es, inl refl)
  set_target-Applied lo hi lt (false, s') ((l, g, n, eu, ed, es), k) = (
    l,
    g,
    record {
      sized = omega (arith, n, k, z.sized);
      low = omega (arith, k, z.low);
      high = omega (arith, k, z.high);
    },
    eu,
    ed,
    es,
    inr k,
  )

  shrink-Applied :
      (self : Option ℕ) (m : Bool)
      → b.lowest ≤ t
      → t ≤ b.highest
      → t < length s.active_snapshot
      → Applied b t s (commit_shrink (length s.active_snapshot - t) t self m s)
  unfolding commit_shrink
  shrink-Applied self m lo hi lt =
      let k = length s.active_snapshot - t in
      let sel = select self k (candidates s.workers s.active_snapshot) in
      if-cases P (not m) _ _ (λ _. same busy)
        (λ _.
          if-cases P (ltb (length (candidates s.workers s.active_snapshot)) k) _ _
            (λ _. same driver_bound)
            (λ _.
              if-cases P (ltb (length sel) k) _ _ (λ _. same self_retire)
                (λ enough.
                  if-cases P (ltb max_outstanding_retire (count_outstanding s.workers + k)) _ _
                    (λ _. same busy)
                    (λ few. done self (retire-Resized self k s v t (ground (arith, few)) enough)))))
    where
      P : ResizeResult × Scheduler → Type 0
      P = Applied b t s

      done :
          (self : Option ℕ)
          → let k = length s.active_snapshot - t in
            let sel = select self k (candidates s.workers s.active_snapshot) in
            Resized (length s.active_snapshot - k) s (commit_selected t sel s).1
            → Applied b t s (commit_selected t sel s)
      done self (l, g, n, eu, ed, es) =
          unfold commit_selected in
          (l, g, record { sized = omega (arith, n); low = lo; high = hi }, eu, ed, es, inl refl)

  pub apply-Applied :
      (self : Option ℕ) (m : Bool) (batch : Batch)
      → b.lowest ≤ t
      → t ≤ b.highest
      → Applied b t s (apply_target t self m batch s)
  unfolding apply_target
  apply-Applied self m batch lo hi =
      let n = length s.active_snapshot in
      if-cases (Applied b t s) (ltb n t) _ _
        (λ lt.
          set_target-Applied lo hi (ltb→lt _ _ lt) (prepare_expansion (t - n) batch s)
            (prepare-Prepared (t - n) batch s v))
        (λ ge.
          if-cases (Applied b t s) (ltb t n) _ _ (λ lt. shrink-Applied self m lo hi (ltb→lt _ _ lt))
            (λ le. (
              v,
              λ x g. g,
              record { sized = ground arith; low = lo; high = hi },
              refl,
              refl,
              refl,
              inl refl,
            )))
