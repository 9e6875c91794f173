-- ===== src/StackPool/Tests.antt =====
-- The theorems about the pool at a pool that one caller has used.
use bbtools_coroutine.Base.{◌+◌, ◌≤◌, ◌≡◌, refl, true, some, [], ◌∷◌, length, here, arith}
use bbtools_coroutine.Base.Map.{find, put, insert, replace, erase, total}
use bbtools_coroutine.StackPool.Size.{Stack}
use bbtools_coroutine.StackPool.Buckets.{BucketKey, bucket_key}
use bbtools_coroutine.StackPool.{
  PoolConfig, StackPool, empty_pool, get_bucket, erase_if_empty, apply_reserve, apply_commit,
  release, key_of,
}
use bbtools_coroutine.StackPool.Invariant.{Consistent, held, held_of}
use bbtools_coroutine.StackPool.Calls.{reserving_after, lent_after}
use bbtools_coroutine.StackPool.TakeIdle.{idle_of}
use bbtools_coroutine.StackPool.Reclaim.{release_unused, get_cur_co_num}
use bbtools_coroutine.StackPool.Reclaim.Laws.{release_unused_lem}
use bbtools_coroutine.StackPool.System.{
  System, Step, Reach, Reach-Consistent, Reach-capacity, Reach-exclusive,
}

abbrev stack : Stack
stack = record { chunk = 64; chunk_size = 12288; useable = 8192; protect = true }

abbrev config : PoolConfig
config = record {
  stack_size = 8192;
  stack_protect = true;
  max_alloc_size = 3;
  min_alloc_size = 0;
  sample_interval = 1;
  adjust_interval = 1;
}

abbrev key : BucketKey
key = key_of stack

-- A call of Apply that has reserved; the stack that it made; the pool after it came back.
abbrev asked : System
asked =
    let r = apply_reserve config key empty_pool in
    record { pool = r.0; reserving = reserving_after key r.1 []; lent = lent_after r.1 [] }

abbrev given : System
given = record { pool = apply_commit key asked.pool; reserving = []; lent = stack ∷ [] }

abbrev returned : System
returned = record { pool = (release true stack given.pool).0; reserving = []; lent = [] }

asked-Reach : Reach config asked
asked-Reach = Reach.later Reach.start (Step.reserve key (omega arith))

given-Reach : Reach config given
unfolding apply_reserve get_bucket find put insert replace total
given-Reach = Reach.later asked-Reach (Step.commit stack here refl)

returned-Reach : Reach config returned
returned-Reach = Reach.later given-Reach (Step.give_back true stack here)

Reach-capacity_example :
    (length given.lent + length given.reserving ≤ 3)
    × (get_cur_co_num given.pool ≡ length given.lent + length given.reserving)
Reach-capacity_example = Reach-capacity config (omega arith) given-Reach

Reach-exclusive_example : total (held_of 64) given.pool.buckets + held 64 given.lent ≤ 1
Reach-exclusive_example = Reach-exclusive config (omega arith) given-Reach 64

release_unused_lem_example :
    let p = returned.pool in
    (q : StackPool) × (release_unused 5 p 0 ≡ some (q, 0 + total idle_of p.buckets))
    × Consistent 3 q [] []
    × (total idle_of q.buckets ≡ 0)
    × (q.live_count + total idle_of p.buckets ≡ p.live_count)
    × (q.borrowed_count ≡ p.borrowed_count)
    × (q.pending_count ≡ p.pending_count)
unfolding apply_reserve apply_commit release erase_if_empty get_bucket find put insert replace erase
    total
release_unused_lem_example =
    release_unused_lem 5 returned.pool 0 (Reach-Consistent config (omega arith) returned-Reach)
      (omega arith) (omega arith)
