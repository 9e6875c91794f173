-- ===== src/StackPool/Invariant/Steps.antt =====
-- A write to one bucket, and the removal of an empty one, keep the invariant.
use bbtools_coroutine.Base.{
  ℕ, ◌+◌, ◌≤◌, ◌<◌, ◌≡◌, refl, some, List, length, All, arith, ◌==◌, ◌&&◌, if◌then◌else◌, inl, inr,
  Option-cases, Bool-cases, subst,
}
use bbtools_coroutine.Base.Size.{word}
use bbtools_coroutine.Base.Map.{
  find, put, total, find-erase, erase-Unique, total-erase, weight-le-total,
}
use bbtools_coroutine.StackPool.Size.{Stack}
use bbtools_coroutine.StackPool.Buckets.{
  BucketKey, key_eq, key_eq_iff, bucket_key, Bucket, bucket_of,
}
use bbtools_coroutine.StackPool.{StackPool, get_bucket, erase_if_empty, key_of}
use bbtools_coroutine.StackPool.Invariant.{
  held, keys_at, stacks_at, live_of, borrowed_of, pending_of, held_of, BucketOk, Consistent,
  get_bucket-found, get_bucket-keeps, find-write, write-Unique, total-write,
}

module _ {limit : ℕ} {p : StackPool} {reserving : List BucketKey} {lent : List Stack}
    (inv : Consistent limit p reserving lent) (k : BucketKey) where
  abbrev pub here : Bucket
  here = bucket_of (find k p.buckets)

  -- What a critical section knows of the bucket that it looks up.
  pub record Lookup : Type 0 where
    pub found : (get_bucket k p).0 ≡ here
    pub live : (get_bucket k p).1.live_count ≡ p.live_count
    pub borrowed : (get_bucket k p).1.borrowed_count ≡ p.borrowed_count
    pub pending : (get_bucket k p).1.pending_count ≡ p.pending_count
    pub cached : here.idle ≡ length here.pool
    pub counted : here.live ≡ here.idle + here.borrowed
    pub live_le : here.live ≤ p.live_count
    pub borrowed_le : here.borrowed ≤ p.borrowed_count
    pub pending_le : here.pending ≤ p.pending_count
    pub borrowers : here.borrowed ≡ stacks_at k lent
    pub reservers : here.pending ≡ keys_at k reserving
    pub lenders : p.borrowed_count ≡ length lent
    pub callers : p.pending_count ≡ length reserving
    pub capacity : p.borrowed_count + p.pending_count ≤ limit
    pub room : p.live_count + p.pending_count < word

  here-BucketOk : BucketOk k here
  here-BucketOk = elim (Option-cases (find k p.buckets)) [
    | inl e ↦ rw e (record { cached = refl; counted = refl; sorted = tt })
    | inr (b, e) ↦ rw e (inv.sound k b e)
  ]

  pub here-sorted : All (λ s. key_of s ≡ k) (get_bucket k p).0.pool
  here-sorted = rw get_bucket-found (here-BucketOk.sorted)

  pub lookup_lem : Lookup
  lookup_lem = record {
    found = get_bucket-found k p;
    live = (get_bucket-keeps k p).0;
    borrowed = (get_bucket-keeps k p).1;
    pending = (get_bucket-keeps k p).2;
    cached = here-BucketOk.cached;
    counted = here-BucketOk.counted;
    live_le = ground (arith, weight-le-total live_of k p.buckets, inv.live);
    borrowed_le = ground (arith, weight-le-total borrowed_of k p.buckets, inv.borrowed);
    pending_le = ground (arith, weight-le-total pending_of k p.buckets, inv.pending);
    borrowers = ground (arith, inv.borrowers k);
    reservers = ground (arith, inv.reservers k);
    lenders = inv.lenders;
    callers = inv.callers;
    capacity = inv.capacity;
    room = inv.room;
  }

  -- The write of `b` at `k`, with the counters and the lists changed by as much as the bucket's.
  pub record Write (b : Bucket) (q : StackPool) (reserving' : List BucketKey) (lent' : List Stack)
      : Type 0 where
    pub written : q.buckets ≡ put k b (get_bucket k p).1.buckets
    pub ok : BucketOk k b
    pub live : q.live_count + here.live ≡ p.live_count + b.live
    pub borrowed : q.borrowed_count + here.borrowed ≡ p.borrowed_count + b.borrowed
    pub pending : q.pending_count + here.pending ≡ p.pending_count + b.pending
    pub lenders : q.borrowed_count ≡ length lent'
    pub callers : q.pending_count ≡ length reserving'
    pub capacity : q.borrowed_count + q.pending_count ≤ limit
    pub room : q.live_count + q.pending_count < word
    pub borrowers :
        (j : BucketKey)
        → stacks_at j lent' + (if key_eq k j then here.borrowed else 0)
          ≡ stacks_at j lent + (if key_eq k j then b.borrowed else 0)
    pub reservers :
        (j : BucketKey)
        → keys_at j reserving' + (if key_eq k j then here.pending else 0)
          ≡ keys_at j reserving + (if key_eq k j then b.pending else 0)
    pub distinct :
        (i : ℕ) → total (held_of i) p.buckets + held i b.pool + held i lent' ≤ 1 + held i here.pool

  pub Write-Consistent :
      (b : Bucket) {q : StackPool} {reserving' : List BucketKey} {lent' : List Stack}
      → Write b q reserving' lent'
      → Consistent limit q reserving' lent'
  Write-Consistent b {q} {reserving'} {lent'} w = record {
    unique = rw w.written (write-Unique k p b inv.unique);
    sound = λ j c e. sound j c (rw w.written at e);
    borrowers = λ j.
        rw w.written
          (ground (arith, find-write k p j b, inv.borrowers j, w.borrowers j, key_eq_iff k j));
    reservers = λ j.
        rw w.written
          (ground (arith, find-write k p j b, inv.reservers j, w.reservers j, key_eq_iff k j));
    live = rw w.written (omega (arith, inv.live, w.live, total-write k p live_of b refl));
    borrowed =
        rw w.written (omega (arith, inv.borrowed, w.borrowed, total-write k p borrowed_of b refl));
    pending =
        rw w.written (omega (arith, inv.pending, w.pending, total-write k p pending_of b refl));
    lenders = w.lenders;
    callers = w.callers;
    capacity = w.capacity;
    room = w.room;
    distinct = λ i. rw w.written (omega (arith, w.distinct i, total-write k p (held_of i) b refl));
  }
    where
      sound :
          (j : BucketKey) (c : Bucket)
          → find j (put k b (get_bucket k p).1.buckets) ≡ some c
          → BucketOk j c
      sound j c e = elim (Bool-cases (key_eq k j)) [
        | inl t ↦
            subst (λ x. BucketOk x c) ((key_eq_iff k j).0 t)
              (subst (BucketOk k) (ground (arith, find-write k p j b)) w.ok)
        | inr f ↦ inv.sound j c (ground (arith, find-write k p j b))
      ]

  -- A bucket of which nothing is counted may go.
  pub erase_if_empty-Consistent :
      (b : Bucket)
      → find k p.buckets ≡ some b
      → Consistent limit (erase_if_empty k b p) reserving lent
  unfolding erase_if_empty
  erase_if_empty-Consistent b e =
      elim (Bool-cases (b.idle == 0 && (b.borrowed == 0 && b.pending == 0))) [
        | inr f ↦ rw (f, erase_if_empty) inv
        | inl t ↦
            rw (t, erase_if_empty)
              (record {
                unique = erase-Unique k p.buckets inv.unique;
                sound =
                    λ j c d. inv.sound j c (ground (arith, find-erase j k p.buckets inv.unique));
                borrowers = λ j.
                    ground
                      (arith, find-erase j k p.buckets inv.unique, inv.borrowers j, key_eq_iff k j);
                reservers = λ j.
                    ground
                      (arith, find-erase j k p.buckets inv.unique, inv.reservers j, key_eq_iff k j);
                live =
                    ground
                      (arith, inv.live, total-erase live_of k p.buckets, (inv.sound k b e).counted);
                borrowed = ground (arith, inv.borrowed, total-erase borrowed_of k p.buckets);
                pending = ground (arith, inv.pending, total-erase pending_of k p.buckets);
                lenders = inv.lenders;
                callers = inv.callers;
                capacity = inv.capacity;
                room = inv.room;
                distinct = λ i. ground (arith, inv.distinct i, total-erase (held_of i) k p.buckets);
              })
      ]
