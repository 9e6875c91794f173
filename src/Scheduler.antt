-- ===== src/Scheduler.antt =====
-- bbt/coroutine/detail/Scheduler.cc and the check of its configuration in GlobalConfig.cc. A processer is named by
-- its id, and stands in the record of its worker.
pub mod Resize
pub mod Ids
pub mod Roster
pub mod Rounds
pub mod Ticks
pub mod Scaling
mod Tests
use bbtools_coroutine.Base.{
  ℕ, zero, suc, ◌+◌, ◌-◌, ◌*◌, ◌%◌, ◌^◌, ◌==◌, leb, ltb, Bool, true, false, ◌&&◌, ◌||◌, Option,
  none, some, List, [], ◌∷◌, if◌then◌else◌,
}
use bbtools_coroutine.Processer.{Lifecycle, active}

-- GlobalConfig as the user set it; 0 for the bounds stands for the initial number.
pub record GlobalConfig : Type 0 where
  pub static_thread_num : ℕ
  pub auto_scale : Bool
  pub min_num : ℕ
  pub max_num : ℕ
  pub scale_interval_ms : ℕ
  pub scale_up_samples : ℕ
  pub scale_down_samples : ℕ
  pub scale_step : ℕ
  pub scale_up_busy_percent : ℕ
  pub scale_down_busy_percent : ℕ
  pub scale_up_queue_watermark : ℕ
  pub scale_down_queue_watermark : ℕ

pub record ScalingBounds : Type 0 where
  pub initial : ℕ
  pub lowest : ℕ
  pub highest : ℕ

abbrev pub or_initial : ℕ → ℕ → ℕ
or_initial initial n = if n == 0 then initial else n

-- The largest `int`, and the largest count of milliseconds (of 64 bits).
abbrev pub max_count : ℕ
max_count = 2147483647

abbrev pub max_ms : ℕ
max_ms = 9223372036854775807

unfoldable pub numbers_refused : ScalingBounds → Bool
numbers_refused b =
    b.lowest == 0
    || ltb b.highest b.lowest
    || ltb max_count b.highest
    || ltb b.initial b.lowest
    || ltb b.highest b.initial

unfoldable pub samples_refused : GlobalConfig → Bool
samples_refused c =
    c.scale_interval_ms == 0
    || ltb max_ms c.scale_interval_ms
    || c.scale_up_samples == 0
    || c.scale_down_samples == 0
    || c.scale_step == 0
    || ltb max_count c.scale_step

unfoldable pub thresholds_refused : GlobalConfig → Bool
thresholds_refused c =
    ltb 100 c.scale_up_busy_percent
    || ltb c.scale_up_busy_percent c.scale_down_busy_percent
    || c.scale_up_queue_watermark == 0
    || ltb c.scale_up_queue_watermark c.scale_down_queue_watermark

-- `ResolveProcesserScalingBounds`
unfoldable pub resolve_bounds : GlobalConfig → Option ScalingBounds
resolve_bounds c =
    let b : ScalingBounds = record {
      initial = c.static_thread_num;
      lowest = or_initial c.static_thread_num c.min_num;
      highest = or_initial c.static_thread_num c.max_num;
    } in
    if numbers_refused b
    then none
    else if samples_refused c
    then none
    else if thresholds_refused c
    then none
    else some b

pub data Mode : Type 0 where
  manual auto : Mode

-- A worker: its processer's id, lifecycle and whether a driver owns it; whether the reaper claimed it, and whether its
-- thread has ended.
pub record Worker : Type 0 where
  pub id : ℕ
  pub lifecycle : Lifecycle
  pub owned : Bool
  pub claimed : Bool
  pub thread_exited : Bool

-- What a sample of the load reads.
pub record Load : Type 0 where
  pub queue_total : ℕ
  pub busy_percent : ℕ

-- `next_id` is where the ids of new processers start. The history: the loads sampled since the counters were reset by a
-- request, newest first, and the workers whose threads were joined.
pub record Scheduler : Type 0 where
  pub workers : List Worker
  pub processer_map : List ℕ
  pub active_snapshot : List ℕ
  pub target_num : ℕ
  pub scaling_mode : Mode
  pub scale_up_hits : ℕ
  pub scale_down_hits : ℕ
  pub last_auto_sample : ℕ
  pub next_id : ℕ
  pub samples : List Load
  pub joined_ids : List ℕ

-- `_Init`, at the time `now`.
abbrev pub init : GlobalConfig → ScalingBounds → ℕ → Scheduler
init c b now = record {
  workers = [];
  processer_map = [];
  active_snapshot = [];
  target_num = b.initial;
  scaling_mode = if c.auto_scale then auto else manual;
  scale_up_hits = 0;
  scale_down_hits = 0;
  last_auto_sample = now;
  next_id = 1;
  samples = [];
  joined_ids = [];
}
