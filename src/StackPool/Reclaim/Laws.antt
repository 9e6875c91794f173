-- ===== src/StackPool/Reclaim/Laws.antt =====
-- What the reclaiming loops do to a pool that is consistent.
use Prim.Native.Nat.{min}
use bbtools_coroutine.Base.{
  ℕ, zero, suc, ◌+◌, ◌-◌, ◌≤◌, ◌<◌, ◌≡◌, refl, some, List, arith, leb, ltb, if◌then◌else◌, ◌∙◌, ap,
  inl, inr, Bool-cases,
}
use bbtools_coroutine.Base.Size.{word, inc}
use bbtools_coroutine.Base.Map.{total}
use bbtools_coroutine.StackPool.Size.{Stack}
use bbtools_coroutine.StackPool.Buckets.{BucketKey, bucket_key}
use bbtools_coroutine.StackPool.{StackPool, PoolConfig}
use bbtools_coroutine.StackPool.Invariant.{Consistent}
use bbtools_coroutine.StackPool.TakeIdle.{idle_of, take_idle_lem}
use bbtools_coroutine.StackPool.Reclaim.{
  release_unused, Readings, sample, keep_target, shrink, on_update,
}

abbrev idle_total : StackPool → ℕ
idle_total p = total idle_of p.buckets

sample-adjusts :
    (c : PoolConfig) (t : Readings) (p : StackPool)
    → sample c t p
      ≡ record p { co_avg = (sample c t p).co_avg; prev_sample_ts = (sample c t p).prev_sample_ts }
unfolding sample
sample-adjusts c t p = ground arith

sample-keeps :
    (c : PoolConfig) (t : Readings) (p : StackPool)
    → ((sample c t p).buckets ≡ p.buckets)
      × ((sample c t p).live_count ≡ p.live_count)
      × ((sample c t p).borrowed_count ≡ p.borrowed_count)
      × ((sample c t p).pending_count ≡ p.pending_count)
      × ((sample c t p).prev_adjust_ts ≡ p.prev_adjust_ts)
unfolding sample
sample-keeps c t p = ground arith

module _ {limit : ℕ} {reserving : List BucketKey} {lent : List Stack} where
  -- In a consistent pool, with more fuel than cached stacks and a count below 2^64, the loop of
  -- ReleaseUnused ends, and has freed and counted every cached stack and nothing else: none is left
  -- cached, what is borrowed or reserved is as before, and the pool is consistent.
  pub release_unused_lem :
      (fuel : ℕ) (p : StackPool) (released : ℕ)
      → Consistent limit p reserving lent
      → idle_total p < fuel
      → released + idle_total p < word
      → (q : StackPool) × (release_unused fuel p released ≡ some (q, released + idle_total p))
        × Consistent limit q reserving lent
        × (idle_total q ≡ 0)
        × (q.live_count + idle_total p ≡ p.live_count)
        × (q.borrowed_count ≡ p.borrowed_count)
        × (q.pending_count ≡ p.pending_count)
  unfolding release_unused
  release_unused_lem zero p released inv h w = absurd (omega arith)
  release_unused_lem (suc fuel) p released inv h w = elim (take_idle_lem inv) [
    | inl (z, e) ↦
        (p, rw (e, release_unused) (rw e (ground arith)), inv, z, omega arith, refl, refl)
    | inr (q, s, e, t) ↦
        let (r, run, ok, none_left, live, borrowed, pending) =
          release_unused_lem fuel q (inc released) t.kept (ground (arith, t.fewer))
            (ground (arith, t.fewer)) in
        (
          r,
          rw (e, release_unused) (rw e (rw run (ground (arith, t.fewer)))),
          ok,
          none_left,
          ground (arith, t.fewer, t.live),
          ground (arith, t.borrowed),
          ground (arith, t.pending),
        )
  ]

  -- The loop of `OnUpdate` stops at the target or for want of a cached stack, and no sooner.
  pub shrink_lem :
      (n keep : ℕ) (p : StackPool)
      → Consistent limit p reserving lent
      → p.live_count - keep ≤ n
      → Consistent limit (shrink n keep p) reserving lent
        × ((shrink n keep p).live_count + min (p.live_count - keep) (idle_total p) ≡ p.live_count)
        × ((shrink n keep p).borrowed_count ≡ p.borrowed_count)
        × ((shrink n keep p).pending_count ≡ p.pending_count)
  unfolding shrink
  shrink_lem zero keep p inv h = (inv, omega arith, refl, refl)
  shrink_lem (suc n) keep p inv h = elim (Bool-cases (leb p.live_count keep)) [
    | inl t ↦ rw (t, shrink) (inv, ground arith, refl, refl)
    | inr f ↦
        rw (f, shrink)
          (elim (take_idle_lem inv) [
            | inl (z, e) ↦ rw (e, shrink) (rw e (inv, ground arith, refl, refl))
            | inr (q, s, e, t) ↦
                let (ok, live, borrowed, pending) =
                  shrink_lem n keep q t.kept (ground (arith, t.live)) in
                rw (e, shrink)
                  (rw e (
                    ok,
                    ground (arith, t.live, t.fewer),
                    ground (arith, t.borrowed),
                    ground (arith, t.pending),
                  ))
          ])
  ]

  -- The invariant says nothing of the average and of the two times.
  adjusted-Consistent :
      {p : StackPool} (avg adjust_ts sample_ts : ℕ)
      → Consistent limit p reserving lent
      → Consistent limit
          (record p { co_avg = avg; prev_adjust_ts = adjust_ts; prev_sample_ts = sample_ts })
          reserving
          lent
  adjusted-Consistent avg adjust_ts sample_ts inv = record {
    unique = inv.unique;
    sound = inv.sound;
    borrowers = inv.borrowers;
    reservers = inv.reservers;
    live = inv.live;
    borrowed = inv.borrowed;
    pending = inv.pending;
    lenders = inv.lenders;
    callers = inv.callers;
    capacity = inv.capacity;
    room = inv.room;
    distinct = inv.distinct;
  }

  pub sample-Consistent :
      (c : PoolConfig) (t : Readings) {p : StackPool}
      → Consistent limit p reserving lent
      → Consistent limit (sample c t p) reserving lent
  sample-Consistent c t {p} inv = rw sample-adjusts (adjusted-Consistent _ p.prev_adjust_ts _ inv)

  -- `OnUpdate` keeps a consistent pool consistent and what is borrowed or reserved as it is; when the
  -- adjustment is due, it frees cached stacks until the target is reached or none is left, and otherwise
  -- none.
  on_update_lem :
      (c : PoolConfig) (t : Readings) (p : StackPool)
      → Consistent limit p reserving lent
      → let q = on_update c t p in
        let keep = keep_target c (sample c t p).co_avg in
        let due = leb (p.prev_adjust_ts + c.adjust_interval) t.adjust_check in
        Consistent limit q reserving lent
        × (q.live_count + (if due then min (p.live_count - keep) (idle_total p) else 0)
            ≡ p.live_count)
        × (q.borrowed_count ≡ p.borrowed_count)
        × (q.pending_count ≡ p.pending_count)
  unfolding on_update
  on_update_lem c t p inv =
      let (buckets, live, borrowed, pending, ts) = sample-keeps c t p in
      let avg = (sample c t p).co_avg in
      let keep = keep_target c avg in
      let n : ℕ =
        if ltb keep (sample c t p).live_count then (sample c t p).live_count - keep else 0 in
      let (ok, left, lent_same, reserved_same) =
        shrink_lem n keep _
          (adjusted-Consistent avg t.adjust_done (sample c t p).prev_sample_ts
            (sample-Consistent c t inv))
          (ground arith) in
      elim (Bool-cases (leb (p.prev_adjust_ts + c.adjust_interval) t.adjust_check)) [
        | inl y ↦ rw ts (
            rw y (
              ok,
              ground (arith, left, live, ap (total idle_of) buckets),
              lent_same ∙ borrowed,
              reserved_same ∙ pending,
            ))
        | inr n ↦ rw ts (
            rw n (
              adjusted-Consistent avg p.prev_adjust_ts (sample c t p).prev_sample_ts
                  (sample-Consistent c t inv),
              ground arith,
              borrowed,
              pending,
            ))
      ]
