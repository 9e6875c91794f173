-- ===== src/CoCond.antt =====
-- bbt/coroutine/sync/CoCond.cc: the condition variable. A waiter is named by its id; it is live from its
-- registration until it is notified, times out or is cancelled.
pub mod Laws
mod Tests
use bbtools_coroutine.Base.{
  ℕ, zero, suc, Bool, true, false, Option, none, some, List, [], ◌∷◌, ◌++◌, if◌then◌else◌,
}
use bbtools_coroutine.CoRwMutex.{Wait, registers, fails, throws, member, remove}

pub record Cond : Type 0 where
  pub waiter_queue : List ℕ
  pub live : List ℕ
  pub next_id : ℕ

-- `Wait` and `WaitFor` up to the suspension: the waiter is queued by the callback, which runs only when
-- it has been registered.
pub wait : Wait → Cond → Cond
wait registers c = record {
  waiter_queue = c.waiter_queue ++ c.next_id ∷ [];
  live = c.next_id ∷ c.live;
  next_id = suc c.next_id;
}
wait fails c = record c { next_id = suc c.next_id }
wait throws c = record c { next_id = suc c.next_id }

-- The loop of `_NotifyOne`: what is left of the queue and of the live waiters, and whether one was
-- woken.
unfoldable pub wake_one : List ℕ → List ℕ → List ℕ × List ℕ × Bool
wake_one [] live = ([], live, false)
wake_one (x ∷ q) live =
    let rest = wake_one q live in if member x live then (q, remove x live, true) else rest

pub notify_one : Cond → Cond × Bool
notify_one c =
    let (q, left, woke) = wake_one c.waiter_queue c.live in
    (record c { waiter_queue = q; live = left }, woke)

-- One round of `NotifyAll`: the front is taken out under the lock, and notified after it; `none` for an
-- empty queue, which ends the loop.
pub notify_round : Cond → Option Cond
notify_round c = elim c.waiter_queue [
  | [] ↦ none
  | x ∷ q ↦ some (record c { waiter_queue = q; live = remove x c.live })
]

-- `NotifyAll` on fuel, with what other calls do between its rounds. It is `none` when the fuel runs out.
pub notify_all : ℕ → (Cond → Cond) → Cond → Option Cond
notify_all zero others c = none
notify_all (suc fuel) others c = elim (notify_round c) [
  | none ↦ some c
  | some d ↦ notify_all fuel others (others d)
]
