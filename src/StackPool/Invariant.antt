-- ===== src/StackPool/Invariant.antt =====
-- What the pool's counters say of its stacks: the invariant, and that a write to one bucket keeps it.
pub mod Steps
use bbtools_coroutine.Base.{
  ℕ, ◌+◌, ◌≤◌, ◌<◌, ◌≡◌, refl, Bool, true, false, Option, none, some, List, [], ◌∷◌, length, All,
  arith, ◌==◌, if◌then◌else◌, inl, inr, Option-cases, Bool-cases, subst,
}
use bbtools_coroutine.Base.Size.{word}
use bbtools_coroutine.Base.Map.{
  Map, find, put, erase, Unique, weight, total, find-put, put-Unique, total-put, find-erase,
  erase-Unique, total-erase, weight-le-total, eqb_refl,
}
use bbtools_coroutine.StackPool.Size.{Stack}
use bbtools_coroutine.StackPool.Buckets.{
  BucketKey, key_eq, key_eq_iff, bucket_key, Bucket, empty_bucket, bucket_of,
}
use bbtools_coroutine.StackPool.{StackPool, get_bucket, erase_if_empty, key_of}

abbrev pub one_if : Bool → ℕ
one_if true = 1
one_if false = 0

-- How often a chunk of memory stands in a list of stacks.
abbrev pub held : ℕ → List Stack → ℕ
held i [] = 0
held i (s ∷ l) = one_if (s.chunk == i) + held i l

abbrev pub keys_at : BucketKey → List BucketKey → ℕ
keys_at k [] = 0
keys_at k (j ∷ l) = one_if (key_eq j k) + keys_at k l

abbrev pub stacks_at : BucketKey → List Stack → ℕ
stacks_at k [] = 0
stacks_at k (s ∷ l) = one_if (key_eq (key_of s) k) + stacks_at k l

abbrev pub live_of : Bucket → ℕ
live_of b = b.live

abbrev pub borrowed_of : Bucket → ℕ
borrowed_of b = b.borrowed

abbrev pub pending_of : Bucket → ℕ
pending_of b = b.pending

abbrev pub held_of : ℕ → Bucket → ℕ
held_of i b = held i b.pool

pub record BucketOk (k : BucketKey) (b : Bucket) : Type 0 where
  pub cached : b.idle ≡ length b.pool
  pub counted : b.live ≡ b.idle + b.borrowed
  pub sorted : All (λ s. key_of s ≡ k) b.pool

-- `reserving` lists the keys of the calls of `Apply` between their two critical sections, and `lent`
-- the stacks that callers hold.
pub record Consistent (limit : ℕ) (p : StackPool) (reserving : List BucketKey) (lent : List Stack)
    : Type 0 where
  pub unique : Unique p.buckets
  pub sound : (k : BucketKey) (b : Bucket) → find k p.buckets ≡ some b → BucketOk k b
  pub borrowers : (k : BucketKey) → weight borrowed_of (find k p.buckets) ≡ stacks_at k lent
  pub reservers : (k : BucketKey) → weight pending_of (find k p.buckets) ≡ keys_at k reserving
  pub live : p.live_count ≡ total live_of p.buckets
  pub borrowed : p.borrowed_count ≡ total borrowed_of p.buckets
  pub pending : p.pending_count ≡ total pending_of p.buckets
  pub lenders : p.borrowed_count ≡ length lent
  pub callers : p.pending_count ≡ length reserving
  pub capacity : p.borrowed_count + p.pending_count ≤ limit
  pub room : p.live_count + p.pending_count < word
  pub distinct : (i : ℕ) → total (held_of i) p.buckets + held i lent ≤ 1

module _ (k : BucketKey) (p : StackPool) where
  pub get_bucket-found : (get_bucket k p).0 ≡ bucket_of (find k p.buckets)
  unfolding get_bucket
  get_bucket-found = ground arith

  pub get_bucket-keeps :
      let q = (get_bucket k p).1 in
      (q.live_count ≡ p.live_count)
      × (q.borrowed_count ≡ p.borrowed_count)
      × (q.pending_count ≡ p.pending_count)
  unfolding get_bucket
  get_bucket-keeps = ground arith

  pub get_bucket_self : {b : Bucket} → find k p.buckets ≡ some b → (get_bucket k p).1 ≡ p
  unfolding get_bucket
  get_bucket_self e = rw (e, get_bucket)

  pub find-write :
      (j : BucketKey) (b : Bucket)
      → find j (put k b (get_bucket k p).1.buckets)
        ≡ (if key_eq k j then some b else find j p.buckets)
  unfolding get_bucket
  find-write j b = elim (Option-cases (find k p.buckets)) [
    | inl e ↦ rw (e, get_bucket) (rw find-put (rw find-put (ground arith)))
    | inr (c, e) ↦ rw (e, get_bucket) (find-put j k b p.buckets)
  ]

  pub write-Unique : (b : Bucket) → Unique p.buckets → Unique (put k b (get_bucket k p).1.buckets)
  unfolding get_bucket
  write-Unique b u = elim (Option-cases (find k p.buckets)) [
    | inl e ↦ rw (e, get_bucket) (put-Unique k b _ (put-Unique k empty_bucket p.buckets u))
    | inr (c, e) ↦ rw (e, get_bucket) (put-Unique k b _ u)
  ]

  pub total-write :
      (f : Bucket → ℕ) (b : Bucket)
      → f empty_bucket ≡ 0
      → total f (put k b (get_bucket k p).1.buckets) + f (bucket_of (find k p.buckets))
        ≡ total f p.buckets + f b
  unfolding get_bucket
  total-write f b z = elim (Option-cases (find k p.buckets)) [
    | inl e ↦
        rw (e, get_bucket)
          (ground (
            arith,
            total-put f k b (put k empty_bucket p.buckets),
            total-put f k empty_bucket p.buckets,
            find-put k k empty_bucket p.buckets,
            eqb_refl k,
          ))
    | inr (c, e) ↦ rw (e, get_bucket) (ground (arith, total-put f k b p.buckets))
  ]
