-- ===== src/StackPool.antt =====
-- bbt/coroutine/detail/StackPool.hpp and StackPool.cc. Each critical section of the pool's mutex is
-- a function from pool to pool. The configuration and the clock's readings (in milliseconds) are
-- arguments, as is whether a `push_back` finds memory.
pub mod Size
pub mod Buckets
pub mod Invariant
pub mod Calls
pub mod TakeIdle
pub mod Reclaim
pub mod System
mod Tests
use bbtools_coroutine.Base.{
  ℕ, ◌+◌, ◌%◌, Bool, true, false, ◌&&◌, Option, none, some, [], ◌∷◌, leb, ◌==◌, if◌then◌else◌,
}
use bbtools_coroutine.Base.Size.{word, inc, dec}
use bbtools_coroutine.Base.Map.{Map, find, put, erase}
use bbtools_coroutine.StackPool.Size.{
  Platform, Answers, Stack, Result, ok, err, normalize_size, make_stack,
}
use bbtools_coroutine.StackPool.Buckets.{
  BucketKey, bucket_key, Bucket, empty_bucket, bucket_of, push, pop,
}

-- The fields of GlobalConfig that the pool reads.
pub record PoolConfig : Type 0 where
  pub stack_size : ℕ
  pub stack_protect : Bool
  pub max_alloc_size : ℕ
  pub min_alloc_size : ℕ
  pub sample_interval : ℕ
  pub adjust_interval : ℕ

pub record StackPool : Type 0 where
  pub buckets : Map BucketKey Bucket
  pub live_count : ℕ
  pub borrowed_count : ℕ
  pub pending_count : ℕ
  pub co_avg : ℕ
  pub prev_adjust_ts : ℕ
  pub prev_sample_ts : ℕ

abbrev pub empty_pool : StackPool
empty_pool = record {
  buckets = [];
  live_count = 0;
  borrowed_count = 0;
  pending_count = 0;
  co_avg = 0;
  prev_adjust_ts = 0;
  prev_sample_ts = 0;
}

-- `_GetBucketLocked`: the bucket at a key, made if it is missing.
pub get_bucket : BucketKey → StackPool → Bucket × StackPool
get_bucket k p = elim (find k p.buckets) [
  | none ↦ (empty_bucket, record p { buckets = put k empty_bucket p.buckets })
  | some b ↦ (b, p)
]

-- A write through the pointer to a bucket.
abbrev write : BucketKey → Bucket → StackPool → StackPool
write k b p = record p { buckets = put k b p.buckets }

-- `_EraseBucketIfEmptyLocked`
pub erase_if_empty : BucketKey → Bucket → StackPool → StackPool
erase_if_empty k b p =
    if b.idle == 0 && (b.borrowed == 0 && b.pending == 0)
    then record p { buckets = erase k p.buckets }
    else p

-- The loop of `_TakeIdleLocked` over the buckets, up to the first stack found, with its key.
pub scan_idle : Map BucketKey Bucket → Map BucketKey Bucket × Option (BucketKey × Stack)
scan_idle [] = ([], none)
scan_idle ((k, b) ∷ m) =
    let rest = scan_idle m in
    let skip : Bucket → Map BucketKey Bucket × Option (BucketKey × Stack) =
      λ c. ((k, c) ∷ rest.0, rest.1) in
    if b.idle == 0 then skip b else elim (pop b) [
      | none ↦ skip (record b { idle = 0 })
      | some (s, c) ↦ ((k, record c { idle = dec c.idle; live = dec c.live }) ∷ m, some (k, s))
    ]

-- `_TakeIdleLocked`
pub take_idle : StackPool → StackPool × Option Stack
take_idle p =
    let (m, found) = scan_idle p.buckets in
    elim found [
      | none ↦ (record p { buckets = m }, none)
      | some (k, s) ↦ (
        erase_if_empty k (bucket_of (find k m))
            (record p { buckets = m; live_count = dec p.live_count }),
        some s,
      )
    ]

pub data Reserve : Type 0 where
  full : Reserve
  reused : Stack → Reserve
  reserved : Reserve

-- The first critical section of `Apply`: a cached stack, or a reservation.
pub apply_reserve : PoolConfig → BucketKey → StackPool → StackPool × Reserve
apply_reserve c k p =
    if leb c.max_alloc_size ((p.borrowed_count + p.pending_count) % word)
    then (p, full)
    else let got = get_bucket k p in
      elim (pop got.0) [
        | none ↦ (
          record (write k (record (got.0) { pending = inc (got.0).pending }) got.1) {
            pending_count = inc p.pending_count;
          },
          reserved,
        )
        | some (s, b) ↦ (
          record (write k (record b { idle = dec b.idle; borrowed = inc b.borrowed }) got.1) {
            borrowed_count = inc p.borrowed_count;
          },
          reused s,
        )
      ]

-- The critical section after a construction that threw.
pub apply_rollback : BucketKey → StackPool → StackPool
apply_rollback k p =
    let got = get_bucket k p in
    let b : Bucket = record (got.0) { pending = dec (got.0).pending } in
    erase_if_empty k b (record (write k b got.1) { pending_count = dec p.pending_count })

-- The critical section after a construction that returned.
pub apply_commit : BucketKey → StackPool → StackPool
apply_commit k p =
    let got = get_bucket k p in
    let b = got.0 in
    record (write k
      (record b { pending = dec b.pending; live = inc b.live; borrowed = inc b.borrowed }) got.1) {
        pending_count = dec p.pending_count;
        live_count = inc p.live_count;
        borrowed_count = inc p.borrowed_count;
      }

-- `Apply(stack_size, stack_protect)` with no other thread in between.
pub apply :
    PoolConfig → Platform → Answers → ℕ → Bool → StackPool → StackPool × Result (Option Stack)
apply c h a size protect p = elim (normalize_size h size) [
  | err e ↦ (p, err e)
  | ok useable ↦
      let k : BucketKey = record { size = useable; protect = protect } in
      let (q, r) = apply_reserve c k p in
      elim r [
        | full ↦ (q, ok none)
        | reused s ↦ (q, ok (some s))
        | reserved ↦ elim (make_stack h a useable protect) [
          | err e ↦ (apply_rollback k q, err e)
          | ok s ↦ (apply_commit k q, ok (some s))
        ]
      ]
]

-- `Apply()`
pub apply_default : PoolConfig → Platform → Answers → StackPool → StackPool × Result (Option Stack)
apply_default c h a p = apply c h a c.stack_size c.stack_protect p

abbrev pub key_of : Stack → BucketKey
key_of s = record { size = s.useable; protect = s.protect }

-- `Release` of a stack that is not null, with whether the push finds memory. The answer tells
-- whether the stack is destroyed after the critical section.
pub release : Bool → Stack → StackPool → StackPool × Bool
release grows s p =
    let k = key_of s in
    elim (find k p.buckets) [
      | none ↦ (p, true)
      | some b ↦
          if b.borrowed == 0
          then (erase_if_empty k b p, true)
          else let (c, cached) = push grows s b in
            if cached
            then (let d : Bucket = record c { borrowed = dec c.borrowed; idle = inc c.idle } in
                (
                  erase_if_empty k d
                      (record (write k d p) { borrowed_count = dec p.borrowed_count }),
                  false,
                ))
            else (let d : Bucket = record c { borrowed = dec c.borrowed; live = dec c.live } in
                (
                  erase_if_empty k d (record (write k d p) {
                    borrowed_count = dec p.borrowed_count;
                    live_count = dec p.live_count;
                  }),
                  true,
                ))
    ]
