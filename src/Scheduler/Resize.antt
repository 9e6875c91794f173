-- ===== src/Scheduler/Resize.antt =====
-- The number of workers as m_lifecycle_mutex guards it: a batch of new ones, a selection that retires, and the
-- requests that ask for them.
use bbtools_coroutine.Base.{
  ℕ, zero, suc, ◌+◌, ◌-◌, ◌==◌, ltb, Bool, true, false, not, ◌&&◌, ◌||◌, Option, none, some, List,
  [], ◌∷◌, ◌++◌, map, length, sum, bit, if◌then◌else◌,
}
use bbtools_coroutine.Processer.{Lifecycle, active, retiring, exited, is_active}
use bbtools_coroutine.Scheduler.{ScalingBounds, manual, auto, Worker, Scheduler}

pub data ResizeResult : Type 0 where
  ok pending invalid_target driver_bound create_failed self_retire busy : ResizeResult

-- What comes of a batch of new threads: all come up, or, after some processers were made, one does not.
pub data Batch : Type 0 where
  comes_up : Batch
  fails : ℕ → Batch

abbrev pub fresh : ℕ → Worker
fresh n = record {
  id = n;
  lifecycle = active;
  owned = false;
  claimed = false;
  thread_exited = false;
}

abbrev pub fresh_from : ℕ → ℕ → List Worker
fresh_from n zero = []
fresh_from n (suc k) = fresh n ∷ fresh_from (suc n) k

abbrev pub ids : List Worker → List ℕ
ids ws = map (λ (w : Worker). w.id) ws

-- `_PrepareExpansionLocked`: a batch is published as a whole or not at all.
unfoldable pub prepare_expansion : ℕ → Batch → Scheduler → Bool × Scheduler
prepare_expansion zero b s = (true, s)
prepare_expansion (suc k) (fails n) s = (false, record s { next_id = s.next_id + n })
prepare_expansion (suc k) comes_up s =
    let new = fresh_from s.next_id (suc k) in
    (
      true,
      record s {
        workers = s.workers ++ new;
        processer_map = s.processer_map ++ ids new;
        active_snapshot = s.active_snapshot ++ ids new;
        next_id = s.next_id + suc k;
      },
    )

unfoldable pub find_worker : ℕ → List Worker → Option Worker
find_worker n [] = none
find_worker n (w ∷ ws) = if w.id == n then some w else find_worker n ws

abbrev pub may_retire : Option Worker → Bool
may_retire none = false
may_retire (some w) = is_active w.lifecycle && not w.owned

unfoldable pub candidates : List Worker → List ℕ → List ℕ
candidates ws [] = []
candidates ws (x ∷ xs) =
    let rest = candidates ws xs in if may_retire (find_worker x ws) then x ∷ rest else rest

abbrev pub is_self : Option ℕ → ℕ → Bool
is_self none x = false
is_self (some y) x = x == y

-- The first so many that are not the caller's own.
unfoldable pub select : Option ℕ → ℕ → List ℕ → List ℕ
select self zero xs = []
select self (suc k) [] = []
select self (suc k) (x ∷ xs) = elim (is_self self x) [
  | true ↦ select self (suc k) xs
  | false ↦ x ∷ select self k xs
]

abbrev pub is_outstanding : Lifecycle → Bool
is_outstanding retiring = true
is_outstanding exited = true
is_outstanding _ = false

-- `_CountOutstandingRetireLocked`
unfoldable pub count_outstanding : List Worker → ℕ
unfolding sum
count_outstanding ws = sum (λ (w : Worker). bit (is_outstanding w.lifecycle)) ws

abbrev pub contains : List ℕ → ℕ → Bool
contains [] x = false
contains (y ∷ ys) x = x == y || contains ys x

unfoldable pub without : List ℕ → List ℕ → List ℕ
without gone [] = []
without gone (x ∷ xs) = let rest = without gone xs in if contains gone x then rest else x ∷ rest

abbrev pub begin_retire : List ℕ → Worker → Worker
begin_retire gone w = if contains gone w.id then record w { lifecycle = retiring } else w

abbrev pub max_outstanding_retire : ℕ
max_outstanding_retire = 32

-- `_CommitShrinkLocked`; `has_memory` says whether its allocations succeed.
unfoldable pub commit_selected : ℕ → List ℕ → Scheduler → ResizeResult × Scheduler
commit_selected target selected s = (
  pending,
  record s {
    workers = map (begin_retire selected) s.workers;
    processer_map = without selected s.processer_map;
    active_snapshot = without selected s.active_snapshot;
    target_num = target;
  },
)

unfoldable pub commit_shrink : ℕ → ℕ → Option ℕ → Bool → Scheduler → ResizeResult × Scheduler
commit_shrink need target self has_memory s =
    let free = candidates s.workers s.active_snapshot in
    let selected = select self need free in
    if not has_memory
    then (busy, s)
    else if ltb (length free) need
    then (driver_bound, s)
    else if ltb (length selected) need
    then (self_retire, s)
    else if ltb max_outstanding_retire (count_outstanding s.workers + need)
    then (busy, s)
    else commit_selected target selected s

-- `_ApplyTargetLocked`
unfoldable pub set_target : ℕ → Bool × Scheduler → ResizeResult × Scheduler
set_target target (true, s) = (ok, record s { target_num = target })
set_target target (false, s) = (create_failed, s)

unfoldable pub apply_target : ℕ → Option ℕ → Bool → Batch → Scheduler → ResizeResult × Scheduler
apply_target target self has_memory b s =
    let n = length s.active_snapshot in
    if ltb n target
    then set_target target (prepare_expansion (target - n) b s)
    else if ltb target n
    then commit_shrink (n - target) target self has_memory s
    else (ok, record s { target_num = target })

-- `_ResetScalingSamplesLocked`
unfoldable pub reset_samples : ℕ → Scheduler → Scheduler
reset_samples now s = record s {
  scale_up_hits = 0;
  scale_down_hits = 0;
  last_auto_sample = now;
  samples = [];
}

unfoldable pub accepted : ℕ → ResizeResult × Scheduler → ResizeResult × Scheduler
accepted now (ok, s) = (ok, reset_samples now (record s { scaling_mode = manual }))
accepted now (pending, s) = (pending, reset_samples now (record s { scaling_mode = manual }))
accepted now (r, s) = (r, s)

-- `SetProcesserNum`, up to where it lets go of the lock.
unfoldable pub set_processer_num :
    ScalingBounds → ℕ → Option ℕ → Bool → Batch → ℕ → Scheduler → ResizeResult × Scheduler
set_processer_num b num self has_memory batch now s =
    if ltb num b.lowest || ltb b.highest num
    then (invalid_target, s)
    else accepted now (apply_target num self has_memory batch s)

unfoldable pub set_processer_auto_scale : Bool → ℕ → Scheduler → Scheduler
set_processer_auto_scale enable now s =
    reset_samples now (record s { scaling_mode = if enable then auto else manual })
