-- ===== src/Scheduler/Ticks.antt =====
-- One tick of the automatic scaling: the sample of the load, its hits in a row, and the step that they lead to.
use bbtools_coroutine.Base.{
  ℕ, ◌+◌, ◌-◌, ◌*◌, ◌/◌, ◌%◌, leb, ltb, Bool, true, false, not, ◌&&◌, ◌||◌, Option, none, some,
  List, [], ◌∷◌, length, sum, bit, if◌then◌else◌,
}
use bbtools_coroutine.Scheduler.{GlobalConfig, ScalingBounds, manual, auto, Load, Scheduler}
use bbtools_coroutine.Scheduler.Resize.{
  ResizeResult, ok, pending, create_failed, Batch, apply_target,
}

-- `AdvanceHits`
unfoldable pub advance_hits : ℕ → Bool → ℕ → ℕ
advance_hits hits hit samples = if not hit then 0 else if ltb hits samples then hits + 1 else hits

-- What the surroundings answer: the caller's own processer, whether memory and threads come, the time in nanoseconds,
-- the sizes of the global queues, what each processer has to run and whether it is busy, and whether a join goes well.
pub record Answers : Type 0 where
  pub self : Option ℕ
  pub has_memory : Bool
  pub batch : Batch
  pub now : ℕ
  pub global_sizes : List ℕ
  pub executable_num : ℕ → ℕ
  pub is_busy : ℕ → Bool
  pub joins_well : Bool

-- `_ClaimAutoSampleLocked`. The interval is brought to nanoseconds in a signed word of 64 bits.
abbrev pub interval_ns : GlobalConfig → ℕ
interval_ns c = c.scale_interval_ms * 1000000 % 18446744073709551616

abbrev pub is_due : GlobalConfig → ℕ → ℕ → Bool
is_due c now last = ltb 9223372036854775807 (interval_ns c) || leb (interval_ns c) (now - last)

unfoldable pub claim_auto_sample : GlobalConfig → ℕ → Scheduler → Bool × Scheduler
claim_auto_sample c now s = elim s.scaling_mode [
  | manual ↦ (false, s)
  | auto ↦
      if is_due c now s.last_auto_sample
      then (true, record s { last_auto_sample = now })
      else (false, s)
]

-- `_SampleScalingLoadLocked`, in 64 bits.
unfoldable pub sample_load : Answers → List ℕ → Option Load
unfolding sum
sample_load a [] = none
sample_load a (x ∷ xs) =
    let busy = sum (λ n. bit (a.is_busy n)) (x ∷ xs) in
    some (record {
      queue_total =
          (sum (λ n. n) a.global_sizes + sum a.executable_num (x ∷ xs)) % 18446744073709551616;
      busy_percent = busy * 100 % 18446744073709551616 / length (x ∷ xs);
    })

abbrev pub is_up : GlobalConfig → Load → Bool
is_up c l =
    leb c.scale_up_queue_watermark l.queue_total || leb c.scale_up_busy_percent l.busy_percent

abbrev pub is_down : GlobalConfig → Load → Bool
is_down c l =
    leb l.queue_total c.scale_down_queue_watermark && leb l.busy_percent c.scale_down_busy_percent

-- `_AccumulateScalingHitsLocked`
unfoldable pub accumulate_hits : GlobalConfig → Load → Scheduler → Scheduler
accumulate_hits c l s = record s {
  scale_up_hits = advance_hits s.scale_up_hits (is_up c l) c.scale_up_samples;
  scale_down_hits = advance_hits s.scale_down_hits (is_down c l) c.scale_down_samples;
  samples = l ∷ s.samples;
}

-- Where a thread stands. It found the mode to be Auto; a batch of its automatic growth or shrinking failed; it reaps so
-- many more workers, joins the thread of one, or takes its record out.
pub data Stage : Type 0 where
  idle ticks : Stage
  relocks_up relocks_down : Stage
  reaps : ℕ → Stage
  joins erases : ℕ → ℕ → Stage

abbrev pub max_reap_per_tick : ℕ
max_reap_per_tick = 8

abbrev pub reset_up : Scheduler → Scheduler
reset_up s = record s { scale_up_hits = 0 }

abbrev pub reset_down : Scheduler → Scheduler
reset_down s = record s { scale_down_hits = 0 }

-- `_ScaleUpOneStepLocked`
unfoldable pub grown : ResizeResult × Scheduler → Stage × Scheduler
grown (ok, s) = (reaps max_reap_per_tick, reset_down (reset_up s))
grown (create_failed, s) = (relocks_up, s)
grown (_, s) = (reaps max_reap_per_tick, reset_up s)

abbrev pub next_up : GlobalConfig → ScalingBounds → ℕ → ℕ
next_up c b target =
    if leb (b.highest - target) c.scale_step then b.highest else target + c.scale_step

unfoldable pub scale_up : GlobalConfig → ScalingBounds → Answers → Scheduler → Stage × Scheduler
scale_up c b a s =
    if leb b.highest s.target_num
    then (reaps max_reap_per_tick, reset_up s)
    else grown (apply_target (next_up c b s.target_num) a.self a.has_memory a.batch s)

-- `_ScaleDownOneStepLocked`
unfoldable pub shrunk : ResizeResult × Scheduler → Stage × Scheduler
shrunk (ok, s) = (reaps max_reap_per_tick, reset_down (reset_up s))
shrunk (pending, s) = (reaps max_reap_per_tick, reset_down (reset_up s))
shrunk (create_failed, s) = (relocks_down, s)
shrunk (_, s) = (reaps max_reap_per_tick, reset_down s)

abbrev pub next_down : GlobalConfig → ScalingBounds → ℕ → ℕ
next_down c b target =
    if leb (target - b.lowest) c.scale_step then b.lowest else target - c.scale_step

unfoldable pub scale_down : GlobalConfig → ScalingBounds → Answers → Scheduler → Stage × Scheduler
scale_down c b a s =
    if leb s.target_num b.lowest
    then (reaps max_reap_per_tick, reset_down s)
    else shrunk (apply_target (next_down c b s.target_num) a.self a.has_memory a.batch s)

-- `_ApplyScalingDecisionLocked`
unfoldable pub decide : GlobalConfig → ScalingBounds → Answers → Scheduler → Stage × Scheduler
decide c b a s =
    if leb c.scale_up_samples s.scale_up_hits
    then scale_up c b a s
    else if leb c.scale_down_samples s.scale_down_hits
    then scale_down c b a s
    else (reaps max_reap_per_tick, s)

-- `_AutoScaleTick`, from where it has the lock.
unfoldable pub sampled :
    GlobalConfig → ScalingBounds → Answers → Option Load → Scheduler → Stage × Scheduler
sampled c b a none s = (reaps max_reap_per_tick, s)
sampled c b a (some l) s = decide c b a (accumulate_hits c l s)

unfoldable pub claimed_tick :
    GlobalConfig → ScalingBounds → Answers → Bool × Scheduler → Stage × Scheduler
claimed_tick c b a (true, s) = sampled c b a (sample_load a s.active_snapshot) s
claimed_tick c b a (false, s) = (reaps max_reap_per_tick, s)

unfoldable pub tick : GlobalConfig → ScalingBounds → Answers → Scheduler → Stage × Scheduler
tick c b a s = claimed_tick c b a (claim_auto_sample c a.now s)
