-- ===== src/CoMutex.antt =====
-- bbt/coroutine/sync/CoMutex.cc: the mutex of coroutines. Each definition is what one critical section
-- of `m_mutex` does. An event that a coroutine waits on is named by an id; it is live from its
-- registration until it is triggered, times out or is cancelled. Its queue is scanned as those of
-- CoRWMutex are.
pub mod System
pub mod Wakeups
mod Tests
use bbtools_coroutine.Base.{ℕ, suc, Bool, Option, none, some, List, [], ◌∷◌, ◌++◌}
use bbtools_coroutine.CoRwMutex.{Wait, registers, fails, throws, wake_first}

pub data Status : Type 0 where
  free locked : Status

pub record Mutex : Type 0 where
  pub status : Status
  pub locked_co : Option ℕ
  pub wait_queue : List (Option ℕ)
  pub live : List ℕ
  pub next_id : ℕ

abbrev pub init : Mutex
init = record { status = free; locked_co = none; wait_queue = []; live = []; next_id = 0 }

-- `_NotifyOne`
pub notify_one : Mutex → Mutex
notify_one m =
    let (q, left, woke) = wake_first m.wait_queue m.live in record m { wait_queue = q; live = left }

-- `_OnLocked`
pub on_locked : ℕ → Mutex → Mutex
on_locked me m = record m { locked_co = some me; status = locked }

-- `_OnUnLocked`
pub on_unlocked : Mutex → Mutex
on_unlocked m = record (notify_one (record m { status = free })) { locked_co = none }

-- `_WaitUnLock` and `_WaitUnLockUnitlTimeout`, from an event that could be had: it is pushed, and the
-- registration succeeds, is refused, or something throws and the slot is emptied. An event that could not be had
-- counts as refused here, though the source then pushes none: the slot is dead either way.
pub wait_unlock : Wait → Mutex → Mutex
wait_unlock registers m = record m {
  wait_queue = m.wait_queue ++ some m.next_id ∷ [];
  live = m.next_id ∷ m.live;
  next_id = suc m.next_id;
}
wait_unlock fails m = record m {
  wait_queue = m.wait_queue ++ some m.next_id ∷ [];
  next_id = suc m.next_id;
}
wait_unlock throws m = record m { wait_queue = m.wait_queue ++ none ∷ []; next_id = suc m.next_id }
