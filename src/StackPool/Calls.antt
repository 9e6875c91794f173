-- ===== src/StackPool/Calls.antt =====
-- Every critical section keeps the invariant.
use bbtools_coroutine.Base.{
  ℕ, ◌+◌, ◌<◌, ◌≡◌, refl, Remove, length-Remove, Bool, true, false, some, List, [], ◌∷◌, All, arith,
  ◌==◌, leb, ◌%◌, inl, inr, Option-cases, Bool-cases,
}
use bbtools_coroutine.Base.Size.{word, inc, dec}
use bbtools_coroutine.Base.Map.{find, total, eqb_refl, find-put_self}
use bbtools_coroutine.StackPool.Size.{Stack}
use bbtools_coroutine.StackPool.Buckets.{BucketKey, key_eq, bucket_key, Bucket, bucket_of}
use bbtools_coroutine.StackPool.{
  StackPool, PoolConfig, Reserve, full, reused, reserved, get_bucket, key_of, apply_reserve,
  apply_commit, apply_rollback, release,
}
use bbtools_coroutine.StackPool.Invariant.{
  one_if, held, keys_at, stacks_at, held_of, Consistent, get_bucket_self,
}
use bbtools_coroutine.StackPool.Invariant.Steps.{
  here, Write-Consistent, erase_if_empty-Consistent, Lookup, lookup_lem, here-sorted,
}

-- What `Apply` has in hand after its first critical section.
abbrev pub reserving_after : BucketKey → Reserve → List BucketKey → List BucketKey
reserving_after k reserved r = k ∷ r
reserving_after k (reused s) r = r
reserving_after k full r = r

abbrev pub lent_after : Reserve → List Stack → List Stack
lent_after reserved l = l
lent_after (reused s) l = s ∷ l
lent_after full l = l

module _ (c : PoolConfig) {p : StackPool} {reserving : List BucketKey} {lent : List Stack}
    (bounded : c.max_alloc_size < word) (inv : Consistent c.max_alloc_size p reserving lent)
    (k : BucketKey) where
  -- After the capacity check, by what the bucket caches.
  reserve-Consistent :
      (xs : List Stack)
      → (get_bucket k p).0.pool ≡ xs
      → leb c.max_alloc_size ((p.borrowed_count + p.pending_count) % word) ≡ false
      → p.live_count + p.pending_count + 1 < word
      → Lookup inv k
      → All (λ s. key_of s ≡ k) xs
      → let r = apply_reserve c k p in
        Consistent c.max_alloc_size r.0 (reserving_after k r.1 reserving) (lent_after r.1 lent)
  unfolding apply_reserve
  reserve-Consistent [] e open_ space f keys =
      rw (open_, apply_reserve)
        (rw (e, apply_reserve)
          (Write-Consistent inv k _ (record {
            written = refl;
            ok = record { cached = ground arith; counted = ground arith; sorted = rw e tt };
            live = ground arith;
            borrowed = ground arith;
            pending = ground arith;
            lenders = ground arith;
            callers = ground arith;
            capacity = ground arith;
            room = ground arith;
            borrowers = λ j. ground arith;
            reservers = λ j. ground arith;
            distinct = λ i. ground (arith, inv.distinct i);
          })))
  reserve-Consistent (s ∷ rest) e open_ space f keys =
      rw (open_, apply_reserve)
        (rw (e, apply_reserve)
          (Write-Consistent inv k _ (record {
            written = refl;
            ok = record { cached = ground arith; counted = ground arith; sorted = keys.1 };
            live = ground arith;
            borrowed = ground arith;
            pending = ground arith;
            lenders = ground arith;
            callers = ground arith;
            capacity = ground arith;
            room = ground arith;
            borrowers = λ j. ground (arith, keys.0);
            reservers = λ j. ground arith;
            distinct = λ i. ground (arith, inv.distinct i);
          })))

  pub apply_reserve-Consistent :
      p.live_count + p.pending_count + 1 < word
      → let r = apply_reserve c k p in
        Consistent c.max_alloc_size r.0 (reserving_after k r.1 reserving) (lent_after r.1 lent)
  unfolding apply_reserve
  apply_reserve-Consistent space =
      elim (Bool-cases (leb c.max_alloc_size ((p.borrowed_count + p.pending_count) % word))) [
        | inl t ↦ rw (t, apply_reserve) inv
        | inr f ↦ reserve-Consistent _ refl f space (lookup_lem inv k) (here-sorted inv k)
      ]

keys_at-Remove :
    {k : BucketKey} (j : BucketKey) {l m : List BucketKey}
    → Remove k l m
    → keys_at j l ≡ one_if (key_eq k j) + keys_at j m
keys_at-Remove j Remove.here = refl
keys_at-Remove j (Remove.there r) = omega (arith, keys_at-Remove j r)

stacks_at-Remove :
    {s : Stack} (j : BucketKey) {l m : List Stack}
    → Remove s l m
    → stacks_at j l ≡ one_if (key_eq (key_of s) j) + stacks_at j m
stacks_at-Remove j Remove.here = refl
stacks_at-Remove j (Remove.there r) = omega (arith, stacks_at-Remove j r)

held-Remove :
    {s : Stack} (i : ℕ) {l m : List Stack}
    → Remove s l m
    → held i l ≡ one_if (s.chunk == i) + held i m
held-Remove i Remove.here = refl
held-Remove i (Remove.there r) = omega (arith, held-Remove i r)

-- The chunk that the allocator returns belongs to no stack of the pool.
abbrev pub IsFresh : StackPool → List Stack → Stack → Type 0
IsFresh p lent s = total (held_of s.chunk) p.buckets + held s.chunk lent ≡ 0

module _ {limit : ℕ} {p : StackPool} {reserving : List BucketKey} {lent : List Stack}
    (bounded : limit < word) (inv : Consistent limit p reserving lent) where
  pub apply_commit-Consistent :
      (k : BucketKey) (s : Stack) {reserving' : List BucketKey}
      → Remove k reserving reserving'
      → key_of s ≡ k
      → IsFresh p lent s
      → Consistent limit (apply_commit k p) reserving' (s ∷ lent)
  unfolding apply_commit
  apply_commit-Consistent k s taken e new =
      let f = lookup_lem inv k in
      let mine : 0 < (bucket_of (find k p.buckets)).pending =
        ground (arith, keys_at-Remove k taken, eqb_refl k) in
      Write-Consistent inv k _ (record {
        written = refl;
        ok = record { cached = ground arith; counted = ground (arith); sorted = here-sorted inv k };
        live = ground (arith);
        borrowed = ground (arith);
        pending = ground (arith);
        lenders = ground arith;
        callers = ground (arith, length-Remove taken);
        capacity = ground (arith);
        room = ground (arith);
        borrowers = λ j. ground (arith, e);
        reservers = λ j. ground (arith, mine, keys_at-Remove j taken);
        distinct = λ i. ground (arith, inv.distinct i, new);
      })

  pub apply_rollback-Consistent :
      (k : BucketKey) {reserving' : List BucketKey}
      → Remove k reserving reserving'
      → Consistent limit (apply_rollback k p) reserving' lent
  unfolding apply_rollback
  apply_rollback-Consistent k taken =
      let f = lookup_lem inv k in
      let mine : 0 < (bucket_of (find k p.buckets)).pending =
        ground (arith, keys_at-Remove k taken, eqb_refl k) in
      erase_if_empty-Consistent
        (Write-Consistent inv k _ (record {
          written = refl;
          ok = record { cached = ground arith; counted = ground arith; sorted = here-sorted inv k };
          live = ground arith;
          borrowed = ground arith;
          pending = ground (arith);
          lenders = ground arith;
          callers = ground (arith, length-Remove taken);
          capacity = ground (arith);
          room = ground (arith);
          borrowers = λ j. ground arith;
          reservers = λ j. ground (arith, mine, keys_at-Remove j taken);
          distinct = λ i. ground (arith, inv.distinct i);
        }))
        k _ (find-put_self k _ _)

  -- What a caller gives back stands in a bucket that has lent it.
  lent-found :
      (s : Stack) {lent' : List Stack}
      → Remove s lent lent'
      → (b : Bucket) × (find (key_of s) p.buckets ≡ some b) × (0 < b.borrowed)
  lent-found s taken = elim (Option-cases (find (key_of s) p.buckets)) [
    | inl e ↦ absurd (
        ground
          (arith, inv.borrowers (key_of s), stacks_at-Remove (key_of s) taken, eqb_refl (key_of s)))
    | inr (b, e) ↦ (
      b,
      e,
      ground
          (arith, inv.borrowers (key_of s), stacks_at-Remove (key_of s) taken, eqb_refl (key_of s)),
    )
  ]

  pub release-Consistent :
      (grows : Bool) (s : Stack) {lent' : List Stack}
      → Remove s lent lent'
      → Consistent limit (release grows s p).0 reserving lent'
  unfolding release
  release-Consistent true s taken =
      let (b, e, mine) = lent-found s taken in
      let k = key_of s in
      let f = lookup_lem inv k in
      let back : here inv k ≡ b = rw e in
      let nonzero : (b.borrowed == 0) ≡ false = ground arith in
      let d : Bucket = record b {
        pool = s ∷ b.pool;
        idle = inc b.idle;
        borrowed = dec b.borrowed;
      } in
      rw (e, release)
        (rw (nonzero, release)
          (erase_if_empty-Consistent
            (Write-Consistent inv k d (record {
              written = rw (get_bucket_self k p e);
              ok = record {
                cached = ground arith;
                counted = ground arith;
                sorted = (refl, (inv.sound k b e).sorted);
              };
              live = ground arith;
              borrowed = ground arith;
              pending = ground arith;
              lenders = ground (arith, length-Remove taken);
              callers = ground arith;
              capacity = ground arith;
              room = ground arith;
              borrowers = λ j. ground (arith, stacks_at-Remove j taken);
              reservers = λ j. ground arith;
              distinct = λ i. ground (arith, inv.distinct i, held-Remove i taken);
            }))
            k d (find-put_self k d _)))
  release-Consistent false s taken =
      let (b, e, mine) = lent-found s taken in
      let k = key_of s in
      let f = lookup_lem inv k in
      let back : here inv k ≡ b = rw e in
      let nonzero : (b.borrowed == 0) ≡ false = ground arith in
      let d : Bucket = record b { borrowed = dec b.borrowed; live = dec b.live } in
      rw (e, release)
        (rw (nonzero, release)
          (erase_if_empty-Consistent
            (Write-Consistent inv k d (record {
              written = rw (get_bucket_self k p e);
              ok = record {
                cached = ground arith;
                counted = ground arith;
                sorted = (inv.sound k b e).sorted;
              };
              live = ground arith;
              borrowed = ground arith;
              pending = ground arith;
              lenders = ground (arith, length-Remove taken);
              callers = ground arith;
              capacity = ground arith;
              room = ground arith;
              borrowers = λ j. ground (arith, stacks_at-Remove j taken);
              reservers = λ j. ground arith;
              distinct = λ i. ground (arith, inv.distinct i, held-Remove i taken);
            }))
            k d (find-put_self k d _)))
