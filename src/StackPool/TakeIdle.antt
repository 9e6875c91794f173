-- ===== src/StackPool/TakeIdle.antt =====
-- `_TakeIdleLocked` takes a cached stack, if there is one, and no other.
use bbtools_coroutine.Base.{
  ℕ, ◌+◌, ◌<◌, ◌≡◌, refl, false, Option, none, some, List, [], ◌∷◌, length, arith, ◌==◌, inl, inr,
  ◌⊎◌,
}
use bbtools_coroutine.Base.Size.{dec}
use bbtools_coroutine.Base.Map.{
  Map, Unique, find, put, total, eqb_refl, find-put_self, total-erase, total-put, weight-le-total,
  put-cons_ne, put-cons_self,
}
use bbtools_coroutine.StackPool.Size.{Stack}
use bbtools_coroutine.StackPool.Buckets.{BucketKey, key_eq, key_eq_iff, bucket_key, Bucket}
use bbtools_coroutine.StackPool.{StackPool, erase_if_empty, scan_idle, take_idle}
use bbtools_coroutine.StackPool.Invariant.{held, held_of, Consistent, get_bucket_self}
use bbtools_coroutine.StackPool.Invariant.Steps.{
  here, lookup_lem, Write-Consistent, erase_if_empty-Consistent,
}

abbrev pub idle_of : Bucket → ℕ
idle_of b = b.idle

abbrev taken : Bucket → List Stack → Bucket
taken b rest = record b { pool = rest; idle = dec b.idle; live = dec b.live }

-- What the scan comes back with.
abbrev Scanned : Map BucketKey Bucket → Map BucketKey Bucket × Option (BucketKey × Stack) → Type 0
Scanned m r =
    ((total idle_of m ≡ 0) × (r ≡ (m, none)))
    ⊎ ((k : BucketKey) × (b : Bucket) × (s : Stack) × (rest : List Stack) × (find k m ≡ some b)
        × (b.pool ≡ s ∷ rest)
        × (r ≡ (put k (taken b rest) m, some (k, s))))

module _ (k : BucketKey) (b : Bucket) (m : Map BucketKey Bucket) where
  scan-skip : b.idle ≡ 0 → scan_idle ((k, b) ∷ m) ≡ ((k, b) ∷ (scan_idle m).0, (scan_idle m).1)
  unfolding scan_idle
  scan-skip z = rw z

  scan-hit :
      {s : Stack} {rest : List Stack}
      → b.pool ≡ s ∷ rest
      → 0 < b.idle
      → scan_idle ((k, b) ∷ m) ≡ ((k, taken b rest) ∷ m, some (k, s))
  unfolding scan_idle
  scan-hit e z =
      let nonzero : (b.idle == 0) ≡ false = ground arith in
      rw (nonzero, scan_idle) (rw (e, scan_idle))

  scan_cons :
      (xs : List Stack)
      → b.pool ≡ xs
      → b.idle ≡ length xs
      → find k m ≡ none
      → Scanned m (scan_idle m)
      → Scanned ((k, b) ∷ m) (scan_idle ((k, b) ∷ m))
  unfolding find total
  scan_cons [] e n u (inl (z, r)) = inl (omega arith, rw (scan-skip n, r))
  scan_cons [] e n u (inr (j, c, s, rest, f, q, r)) =
      let apart : key_eq k j ≡ false = ground (arith, key_eq_iff k j) in
      inr (j, c, s, rest, rw apart f, q, rw (scan-skip n, r) (rw (put-cons_ne k j _ b m apart f)))
  scan_cons (s ∷ rest) e n u _ =
      inr (k, b, s, rest, rw (eqb_refl k), e, rw (scan-hit e (omega arith), put-cons_self k _ b m))

scan_idle-Scanned :
    (m : Map BucketKey Bucket)
    → Unique m
    → ((k : BucketKey) (b : Bucket) → find k m ≡ some b → b.idle ≡ length b.pool)
    → Scanned m (scan_idle m)
unfolding find scan_idle total
scan_idle-Scanned [] u sound = inl (refl, refl)
scan_idle-Scanned ((k, b) ∷ m) u sound =
    scan_cons k b m b.pool refl (sound k b (rw (eqb_refl k))) u.0
      (scan_idle-Scanned m u.1 (λ j c e. sound j c (ground (arith, key_eq_iff k j, u.0))))

erase_if_empty-keeps :
    (k : BucketKey) (b : Bucket) (p : StackPool)
    → find k p.buckets ≡ some b
    → let q = erase_if_empty k b p in
      (total idle_of q.buckets ≡ total idle_of p.buckets)
      × (q.live_count ≡ p.live_count)
      × (q.borrowed_count ≡ p.borrowed_count)
      × (q.pending_count ≡ p.pending_count)
unfolding erase_if_empty
erase_if_empty-keeps k b p e = ground (arith, total-erase idle_of k p.buckets)

-- A stack came back: it was cached, so that no caller holds it, and the counters tell of it.
pub record Taken (limit : ℕ) (reserving : List BucketKey) (lent : List Stack) (p q : StackPool)
    (s : Stack) : Type 0 where
  pub kept : Consistent limit q reserving lent
  pub fewer : total idle_of q.buckets + 1 ≡ total idle_of p.buckets
  pub live : q.live_count + 1 ≡ p.live_count
  pub borrowed : q.borrowed_count ≡ p.borrowed_count
  pub pending : q.pending_count ≡ p.pending_count
  pub unlent : held s.chunk lent ≡ 0

module _ {limit : ℕ} {p : StackPool} {reserving : List BucketKey} {lent : List Stack}
    (inv : Consistent limit p reserving lent) where
  take_some :
      (k : BucketKey) (b : Bucket) (s : Stack) (rest : List Stack)
      → find k p.buckets ≡ some b
      → b.pool ≡ s ∷ rest
      → Taken limit reserving lent p
          (erase_if_empty k
            (taken b rest)
            (record p { buckets = put k (taken b rest) p.buckets; live_count = dec p.live_count }))
          s
  take_some k b s rest e q =
      let f = lookup_lem inv k in
      let back : here inv k ≡ b = rw e in
      let d = taken b rest in
      let r : StackPool = record p { buckets = put k d p.buckets; live_count = dec p.live_count } in
      let kept : Consistent limit r reserving lent = Write-Consistent inv k d (record {
        written = rw (get_bucket_self k p e);
        ok = record {
          cached = ground arith;
          counted = ground arith;
          sorted = (rw q at (inv.sound k b e).sorted).1;
        };
        live = ground arith;
        borrowed = ground arith;
        pending = ground arith;
        lenders = ground arith;
        callers = ground arith;
        capacity = ground arith;
        room = ground arith;
        borrowers = λ j. ground arith;
        reservers = λ j. ground arith;
        distinct = λ i. ground (arith, inv.distinct i);
      }) in
      let same = erase_if_empty-keeps k d r (find-put_self k d p.buckets) in
      record {
        kept = erase_if_empty-Consistent kept k d (find-put_self k d p.buckets);
        fewer = ground (arith, total-put idle_of k d p.buckets);
        live = ground arith;
        borrowed = ground arith;
        pending = ground arith;
        unlent =
            ground (arith, inv.distinct s.chunk, weight-le-total (held_of s.chunk) k p.buckets);
      }

  -- Without a cached stack nothing changes; with one, one is taken.
  pub take_idle_lem :
      ((total idle_of p.buckets ≡ 0) × (take_idle p ≡ (p, none)))
      ⊎ ((q : StackPool) × (s : Stack) × (take_idle p ≡ (q, some s))
          × Taken limit reserving lent p q s)
  unfolding take_idle
  take_idle_lem =
      elim (scan_idle-Scanned p.buckets inv.unique (λ k b e. (inv.sound k b e).cached)) [
        | inl (z, e) ↦ inl (z, rw (e, take_idle) (rw e))
        | inr (k, b, s, rest, f, q, e) ↦
            inr (_, s, rw (e, take_idle) (rw e (rw find-put_self)), take_some k b s rest f q)
      ]
