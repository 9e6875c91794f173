-- ===== src/StackPool/Reclaim.antt =====
-- bbt/coroutine/detail/StackPool.cc: the loops that give stacks back to the system, and the
-- preloading. The loops run here with no other thread in between.
pub mod Laws
use bbtools_coroutine.Base.{
  ℕ, zero, suc, ◌+◌, ◌-◌, ◌*◌, ◌/◌, ◌%◌, Bool, true, false, Option, none, some, List, [], ◌∷◌, ltb,
  leb, ◌==◌, if◌then◌else◌,
}
use bbtools_coroutine.Base.Size.{word, inc}
use bbtools_coroutine.Base.Map.{put}
use bbtools_coroutine.StackPool.Size.{
  Platform, Answers, Stack, Result, ok, err, normalize_size, make_stack,
}
use bbtools_coroutine.StackPool.Buckets.{BucketKey, bucket_key, Bucket, push}
use bbtools_coroutine.StackPool.{StackPool, PoolConfig, get_bucket, erase_if_empty, take_idle}

-- `ReleaseUnused`, on fuel; `none` means that the fuel ran out.
pub release_unused : ℕ → StackPool → ℕ → Option (StackPool × ℕ)
release_unused zero p released = none
release_unused (suc fuel) p released =
    let (q, r) = take_idle p in
    elim r [ none ↦ some (q, released) | some _ ↦ release_unused fuel q (inc released) ]

pub alloc_size : StackPool → ℕ
alloc_size p = p.live_count

unfoldable pub get_cur_co_num : StackPool → ℕ
get_cur_co_num p = (p.borrowed_count + p.pending_count) % word

pub get_co_avg_count : StackPool → ℕ
get_co_avg_count p = p.co_avg

-- The four readings of the clock in `OnUpdate`, in their order.
pub record Readings : Type 0 where
  pub sample_check : ℕ
  pub sample_done : ℕ
  pub adjust_check : ℕ
  pub adjust_done : ℕ

-- floor(0.875 * avg + 0.125 * count), which doubles compute exactly up to 2^50.
abbrev pub smooth : ℕ → ℕ → ℕ
smooth avg count = (7 * avg + count) / 8

-- The sampling of `OnUpdate`.
pub sample : PoolConfig → Readings → StackPool → StackPool
sample c t p =
    let start : StackPool = if p.co_avg == 0 then record p { co_avg = get_cur_co_num p } else p in
    if leb (p.prev_sample_ts + c.sample_interval) t.sample_check
    then record start {
      co_avg = smooth start.co_avg (get_cur_co_num p);
      prev_sample_ts = t.sample_done;
    }
    else start

-- floor((m_rate + 1) * m_co_avg), where m_rate is the constant 0.
abbrev pub keep_target : PoolConfig → ℕ → ℕ
keep_target c avg = if ltb c.min_alloc_size avg then avg else c.min_alloc_size

-- The loop of `OnUpdate`: at most so many stacks, down to `keep` live ones.
pub shrink : ℕ → ℕ → StackPool → StackPool
shrink zero keep p = p
shrink (suc n) keep p =
    let next : StackPool =
      let (q, r) = take_idle p in elim r [ none ↦ q | some _ ↦ shrink n keep q ] in
    if leb p.live_count keep then p else next

pub on_update : PoolConfig → Readings → StackPool → StackPool
on_update c t p =
    let q = sample c t p in
    if leb (q.prev_adjust_ts + c.adjust_interval) t.adjust_check
    then (let keep = keep_target c q.co_avg in
        let to_release : ℕ = if ltb keep q.live_count then q.live_count - keep else 0 in
        shrink to_release keep (record q { prev_adjust_ts = t.adjust_done }))
    else q
