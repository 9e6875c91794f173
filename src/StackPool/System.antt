-- ===== src/StackPool/System.antt =====
-- The pool shared by callers on any number of threads: a critical section at a time, in any order.
use bbtools_coroutine.Base.{
  ℕ, ◌+◌, ◌≤◌, ◌<◌, ◌≡◌, refl, Bool, List, [], ◌∷◌, length, Remove, arith, inl, inr,
}
use bbtools_coroutine.Base.Size.{word}
use bbtools_coroutine.Base.Map.{find, total}
use bbtools_coroutine.StackPool.Size.{Stack}
use bbtools_coroutine.StackPool.Buckets.{BucketKey, bucket_key}
use bbtools_coroutine.StackPool.{
  StackPool, PoolConfig, empty_pool, key_of, apply_reserve, apply_commit, apply_rollback, release,
  take_idle,
}
use bbtools_coroutine.StackPool.Invariant.{Consistent, held, held_of}
use bbtools_coroutine.StackPool.Calls.{
  reserving_after, lent_after, IsFresh, apply_reserve-Consistent, apply_commit-Consistent,
  apply_rollback-Consistent, release-Consistent,
}
use bbtools_coroutine.StackPool.TakeIdle.{take_idle_lem}
use bbtools_coroutine.StackPool.Reclaim.{Readings, sample, get_cur_co_num}
use bbtools_coroutine.StackPool.Reclaim.Laws.{sample-Consistent}

-- The pool, the keys of the calls of `Apply` that construct a stack, and the stacks that callers hold.
pub record System : Type 0 where
  pub pool : StackPool
  pub reserving : List BucketKey
  pub lent : List Stack

pub data Step (c : PoolConfig) (s : System) : System → Type 0 where
  -- Memory for one more stack can still be addressed.
  reserve :
      (k : BucketKey)
      → s.pool.live_count + s.pool.pending_count + 1 < word
      → Step c s (
          let r = apply_reserve c k s.pool in
          record {
            pool = r.0;
            reserving = reserving_after k r.1 s.reserving;
            lent = lent_after r.1 s.lent;
          })
  -- The construction returned a stack of the size and protection asked for, in a chunk of its own.
  commit :
      (made : Stack) {rest : List BucketKey}
      → Remove (key_of made) s.reserving rest
      → IsFresh s.pool s.lent made
      → Step c s (record {
        pool = apply_commit (key_of made) s.pool;
        reserving = rest;
        lent = made ∷ s.lent;
      })
  rollback :
      (k : BucketKey) {rest : List BucketKey}
      → Remove k s.reserving rest
      → Step c s (record { pool = apply_rollback k s.pool; reserving = rest; lent = s.lent })
  give_back :
      (grows : Bool) (item : Stack) {rest : List Stack}
      → Remove item s.lent rest
      → Step c s
          (record { pool = (release grows item s.pool).0; reserving = s.reserving; lent = rest })
  reclaim : Step c s (record s { pool = (take_idle s.pool).0 })
  sampling : (t : Readings) → Step c s (record s { pool = sample c t s.pool })

abbrev pub init : System
init = record { pool = empty_pool; reserving = []; lent = [] }

pub data Reach (c : PoolConfig) : System → Type 0 where
  start : Reach c init
  later : {s t : System} → Reach c s → Step c s t → Reach c t

init-Consistent : (limit : ℕ) → Consistent limit empty_pool [] []
unfolding find total
init-Consistent limit = record {
  unique = tt;
  sound = λ k b e. cc;
  borrowers = λ k. refl;
  reservers = λ k. refl;
  live = refl;
  borrowed = refl;
  pending = refl;
  lenders = refl;
  callers = refl;
  capacity = omega arith;
  room = omega arith;
  distinct = λ i. omega arith;
}

module _ (c : PoolConfig) (bounded : c.max_alloc_size < word) where
  abbrev pub IsConsistent : System → Type 0
  IsConsistent s = Consistent c.max_alloc_size s.pool s.reserving s.lent

  -- Every critical section keeps the counters, the buckets and the callers' stacks consistent.
  pub Step-Consistent : {s t : System} → Step c s t → IsConsistent s → IsConsistent t
  Step-Consistent (reserve k space) inv = apply_reserve-Consistent c bounded inv k space
  Step-Consistent (commit made taken new) inv =
      apply_commit-Consistent bounded inv _ made taken refl new
  Step-Consistent (rollback k taken) inv = apply_rollback-Consistent bounded inv k taken
  Step-Consistent (give_back grows item taken) inv = release-Consistent bounded inv grows item taken
  Step-Consistent reclaim inv = elim (take_idle_lem inv) [
    | inl (z, e) ↦ rw e inv
    | inr (q, s, e, t) ↦ rw e t.kept
  ]
  Step-Consistent (sampling t) inv = sample-Consistent c t inv

  pub Reach-Consistent : {s : System} → Reach c s → IsConsistent s
  Reach-Consistent start = init-Consistent c.max_alloc_size
  Reach-Consistent (later r st) = Step-Consistent st (Reach-Consistent r)

  -- The configured maximum is below 2^64, callers give back what they were lent, a construction gives a
  -- chunk that no stack of the pool has, and a reservation is made only while the stacks stay fewer than
  -- 2^64. Then, however the calls interleave, the stacks that callers hold and those under construction
  -- are at most as many as the configuration allows, and `GetCurCoNum` counts them.
  pub Reach-capacity :
      {s : System}
      → Reach c s
      → (length s.lent + length s.reserving ≤ c.max_alloc_size)
        × (get_cur_co_num s.pool ≡ length s.lent + length s.reserving)
  unfolding get_cur_co_num
  Reach-capacity r = let inv = Reach-Consistent r in ground arith

  -- Under the same conditions no chunk of memory is held by two callers, by a caller and a bucket, or twice
  -- by buckets: the configured maximum is below 2^64, callers give back what they were lent, a construction
  -- gives a chunk that no stack of the pool has, and the stacks stay fewer than 2^64.
  pub Reach-exclusive :
      {s : System} → Reach c s → (i : ℕ) → total (held_of i) s.pool.buckets + held i s.lent ≤ 1
  Reach-exclusive r = (Reach-Consistent r).distinct
