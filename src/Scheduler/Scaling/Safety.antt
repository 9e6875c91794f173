-- ===== src/Scheduler/Scaling/Safety.antt =====
-- What every step of the scheduler's threads and workers keeps.
pub mod Changes
pub mod Steps
pub mod Moves
pub mod Runs
use bbtools_coroutine.Base.{
  ℕ, ◌+◌, ◌≤◌, ◌<◌, ◌≡◌, Bool, true, false, List, [], ◌∷◌, length, All, if◌then◌else◌,
}
use bbtools_coroutine.Scheduler.{GlobalConfig, ScalingBounds, Worker, Load, Scheduler}
use bbtools_coroutine.Scheduler.Resize.{ids, count_outstanding, max_outstanding_retire}
use bbtools_coroutine.Scheduler.Ticks.{Stage, joins, erases, is_up, is_down}
use bbtools_coroutine.Scheduler.Ids.{Rises}
use bbtools_coroutine.Scheduler.Roster.{active_ids, Pinned}
use bbtools_coroutine.Scheduler.Roster.Changes.{Inactive}

-- The records of the workers have different ids; few owe their end; no retiring worker has a driver.
pub record Kept (n : ℕ) (ws : List Worker) : Type 0 where
  pub rises : Rises 0 (ids ws)
  pub below : All (λ x. x < n) (ids ws)
  pub few : count_outstanding ws ≤ max_outstanding_retire
  pub pinned : All Pinned ws

-- The registry and the snapshot name just the active workers.
pub record Registry (n : ℕ) (ws : List Worker) (active_snapshot processer_map : List ℕ)
    : Type 0 where
  pub kept : Kept n ws
  pub snapshot : active_snapshot ≡ active_ids ws
  pub mapped : processer_map ≡ active_ids ws

abbrev pub Listed : Scheduler → Type 0
Listed s = Registry s.next_id s.workers s.active_snapshot s.processer_map

pub record InBounds (b : ScalingBounds) (target : ℕ) (active_snapshot : List ℕ) : Type 0 where
  pub sized : target ≡ length active_snapshot
  pub low : b.lowest ≤ target
  pub high : target ≤ b.highest

abbrev pub Sized : ScalingBounds → Scheduler → Type 0
Sized b s = InBounds b s.target_num s.active_snapshot

-- How many of the newest loads pass a test, with none that fails among them.
abbrev pub leading : (Load → Bool) → List Load → ℕ
leading p [] = 0
leading p (l ∷ ls) = if p l then leading p ls + 1 else 0

abbrev pub Hits : GlobalConfig → Scheduler → Type 0
Hits c s =
    (s.scale_up_hits ≤ leading (is_up c) s.samples)
    × (s.scale_down_hits ≤ leading (is_down c) s.samples)

-- The worker whose thread is being joined or whose record is about to go is past its activity.
abbrev pub Gone : ℕ → Scheduler → Type 0
Gone x s = (x < s.next_id) × All (Inactive x) s.workers

abbrev pub Holds : Stage → Scheduler → Type 0
Holds (joins x k) s = Gone x s
Holds (erases x k) s = Gone x s
Holds _ s = Unit

-- What is past its activity stays so.
abbrev pub Later : Scheduler → Scheduler → Type 0
Later s s' = (x : ℕ) → Gone x s → Gone x s'
