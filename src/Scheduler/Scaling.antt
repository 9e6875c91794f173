-- ===== src/Scheduler/Scaling.antt =====
-- Requests, ticks and the reaping of ended workers, as moves of any number of threads. What a call does while it holds
-- m_lifecycle_mutex is one move; a batch that fails lets go of it. Workers get drivers, exit and end meanwhile.
pub mod Safety
use bbtools_coroutine.Base.{
  ℕ, zero, suc, ◌+◌, ◌-◌, ◌*◌, ◌/◌, ◌%◌, ◌==◌, leb, ltb, Bool, true, false, not, ◌&&◌, ◌||◌, Option,
  none, some, List, [], ◌∷◌, ◌++◌, map, length, sum, bit, if◌then◌else◌,
}
use bbtools_coroutine.Processer.{Lifecycle, retiring, exited, joined}
use bbtools_coroutine.Scheduler.{
  GlobalConfig, ScalingBounds, Mode, manual, auto, Worker, Load, Scheduler, init,
}
use bbtools_coroutine.Scheduler.Resize.{
  ResizeResult, ok, pending, create_failed, Batch, comes_up, ids, prepare_expansion, contains,
  apply_target, set_processer_num, set_processer_auto_scale,
}
use bbtools_coroutine.Scheduler.Ticks.{
  Answers, Stage, idle, ticks, relocks_up, relocks_down, reaps, joins, erases, max_reap_per_tick,
  reset_up, reset_down, tick,
}

-- `_ReapRetiredWorkers`: the first worker to be claimed; its thread, and its record.
abbrev pub is_exited : Lifecycle → Bool
is_exited exited = true
is_exited _ = false

abbrev pub reapable : Worker → Bool
reapable w = not w.claimed && is_exited w.lifecycle && w.thread_exited

unfoldable pub find_reapable : List Worker → Option ℕ
find_reapable [] = none
find_reapable (w ∷ ws) = if reapable w then some w.id else find_reapable ws

abbrev pub update_at : ℕ → (Worker → Worker) → Worker → Worker
update_at x f w = if w.id == x then f w else w

abbrev pub update_worker : ℕ → (Worker → Worker) → Scheduler → Scheduler
update_worker x f s = record s { workers = map (update_at x f) s.workers }

unfoldable pub erase_worker : ℕ → List Worker → List Worker
erase_worker x [] = []
erase_worker x (w ∷ ws) = if w.id == x then ws else w ∷ erase_worker x ws

abbrev pub claim : Worker → Worker
claim w = record w { claimed = true }

abbrev pub unclaim : Worker → Worker
unclaim w = record w { claimed = false }

abbrev pub mark_joined : Worker → Worker
mark_joined w = record w { lifecycle = joined }

unfoldable pub reap_found : ℕ → Option ℕ → Scheduler → Stage × Scheduler
reap_found k none s = (idle, s)
reap_found k (some x) s = (joins x k, update_worker x claim s)

unfoldable pub reap_join : Bool → ℕ → ℕ → Scheduler → Stage × Scheduler
reap_join false x k s = (idle, update_worker x unclaim s)
reap_join true x k s =
    (erases x k, update_worker x mark_joined (record s { joined_ids = x ∷ s.joined_ids }))

-- What a worker does: its processer gets a driver or loses it, its loop ends, its thread ends.
abbrev pub own : Bool → Worker → Worker
own o w = record w { owned = o }

abbrev pub exit : Worker → Worker
exit w = elim w.lifecycle [ retiring ↦ record w { lifecycle = exited } | _ ↦ w ]

abbrev pub end_thread : Worker → Worker
end_thread w = if is_exited w.lifecycle then record w { thread_exited = true } else w

pub data Move : Type 0 where
  requests : ℕ → Move
  enables : Bool → Move
  begins_tick goes_on : Move
  binds unbinds exits ends creates : ℕ → Move

unfoldable pub go_on :
    GlobalConfig → ScalingBounds → Answers → Stage → Scheduler → Stage × Scheduler
go_on c b a idle s = (idle, s)
go_on c b a ticks s = tick c b a s
go_on c b a relocks_up s = (reaps max_reap_per_tick, reset_up s)
go_on c b a relocks_down s = (reaps max_reap_per_tick, reset_down s)
go_on c b a (reaps zero) s = (idle, s)
go_on c b a (reaps (suc k)) s = reap_found k (find_reapable s.workers) s
go_on c b a (joins x k) s = reap_join a.joins_well x k s
go_on c b a (erases x k) s = (reaps k, record s { workers = erase_worker x s.workers })

-- The look at the mode without the lock.
abbrev pub tick_gate : Mode → Stage
tick_gate manual = reaps max_reap_per_tick
tick_gate auto = ticks

unfoldable pub request : ScalingBounds → ℕ → Answers → Scheduler → Scheduler
request b num a s = (set_processer_num b num a.self a.has_memory a.batch a.now s).1

unfoldable pub step :
    GlobalConfig → ScalingBounds → Move → Answers → Stage → Scheduler → Stage × Scheduler
step c b (requests num) a idle s = (reaps max_reap_per_tick, request b num a s)
step c b (enables on) a idle s = (idle, set_processer_auto_scale on a.now s)
step c b begins_tick a idle s = (tick_gate s.scaling_mode, s)
step c b goes_on a st s = go_on c b a st s
step c b (binds x) a st s =
    (st, if contains s.processer_map x then update_worker x (own true) s else s)
step c b (unbinds x) a st s = (st, update_worker x (own false) s)
step c b (exits x) a st s = (st, update_worker x exit s)
step c b (ends x) a st s = (st, update_worker x end_thread s)
step c b (creates n) a st s = (st, record s { next_id = s.next_id + n })
step c b m a st s = (st, s)

unfoldable pub step_at :
    GlobalConfig
    → ScalingBounds
    → ℕ
    → Move
    → Answers
    → List Stage
    → Scheduler
    → List Stage × Scheduler
step_at c b i m a [] s = ([], s)
step_at c b zero m a (st ∷ ss) s = let (st', s') = step c b m a st s in (st' ∷ ss, s')
step_at c b (suc i) m a (st ∷ ss) s = let (ss', s') = step_at c b i m a ss s in (st ∷ ss', s')

unfoldable pub run :
    GlobalConfig
    → ScalingBounds
    → List (ℕ × Move × Answers)
    → List Stage
    → Scheduler
    → List Stage × Scheduler
run c b [] ss s = (ss, s)
run c b ((i, m, a) ∷ ms) ss s = let (ss', s') = step_at c b i m a ss s in run c b ms ss' s'

-- `_CreateProcessers` on a fresh scheduler: the threads that call it afterwards are idle.
unfoldable pub start : GlobalConfig → ScalingBounds → ℕ → Scheduler
start c b now = (prepare_expansion b.initial comes_up (init c b now)).1
