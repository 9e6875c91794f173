-- ===== src/CoRwMutex.antt =====
-- bbt/coroutine/sync/CoRWMutex.cc: the reader-writer lock. Each definition is what one critical
-- section of `m_mutex` does. A waiter (a CoWaiter) is named by its id; it is live from its
-- registration until it is notified, times out or is cancelled.
pub mod System
pub mod Wakeups
mod Tests
use bbtools_coroutine.Base.{
  ℕ, zero, suc, ◌+◌, ◌%◌, ◌^◌, Bool, true, false, not, ◌&&◌, ◌||◌, Option, none, some, List, [],
  ◌∷◌, ◌++◌, ltb, ◌==◌, if◌then◌else◌,
}

-- `CoRWMutexStatus`
pub data Status : Type 0 where
  free rlocked wlocked : Status

-- The two counters are `int`: each stands for its 32 bits, and wraps around where the source overflows.
abbrev pub inc : ℕ → ℕ
inc n = (n + 1) % 2 ^ 32

abbrev pub dec : ℕ → ℕ
dec n = (n + 4294967295) % 2 ^ 32

-- Of an `int`: the sign bit is clear, and it is not 0.
abbrev pub is_positive : ℕ → Bool
is_positive n = ltb 0 n && ltb n 2147483648

-- A queue holds waiters and tombstones, the slots emptied by a wait that threw.
pub record Mutex : Type 0 where
  pub status : Status
  pub rlock_hold_num : ℕ
  pub wait_wlock_num : ℕ
  pub has_wait_wlock : Bool
  pub write_queue : List (Option ℕ)
  pub read_queue : List (Option ℕ)
  pub live : List ℕ
  pub next_id : ℕ

abbrev pub init : Mutex
init = record {
  status = free;
  rlock_hold_num = 0;
  wait_wlock_num = 0;
  has_wait_wlock = false;
  write_queue = [];
  read_queue = [];
  live = [];
  next_id = 0;
}

unfoldable pub member : ℕ → List ℕ → Bool
member x [] = false
member x (y ∷ ys) = y == x || member x ys

unfoldable pub remove : ℕ → List ℕ → List ℕ
remove x [] = []
remove x (y ∷ ys) = let rest = remove x ys in if y == x then rest else y ∷ rest

-- `CoWaiter::Notify`: 0, here true, only for a waiter that still waits.
pub notify : ℕ → List ℕ → List ℕ × Bool
notify x live = (remove x live, member x live)

-- One of the two loops of `_NotifyOne`: the queue and the live waiters left, and whether one was
-- woken.
pub wake_first : List (Option ℕ) → List ℕ → List (Option ℕ) × List ℕ × Bool
wake_first [] live = ([], live, false)
wake_first (none ∷ q) live = wake_first q live
wake_first (some x ∷ q) live =
    let rest = wake_first q live in if (notify x live).1 then (q, (notify x live).0, true) else rest

pub notify_one : Mutex → Mutex × Bool
notify_one m =
    let (wq, wlive, wrote) = wake_first m.write_queue m.live in
    let (rq, rlive, read) = wake_first m.read_queue wlive in
    if wrote
    then (record m { write_queue = wq; live = wlive }, true)
    else (record m { write_queue = wq; read_queue = rq; live = rlive }, read)

pub wake_all : List (Option ℕ) → List ℕ → List ℕ
wake_all [] live = live
wake_all (none ∷ q) live = wake_all q live
wake_all (some x ∷ q) live = wake_all q (notify x live).0

pub notify_all : Bool → Mutex → Mutex
notify_all reader m =
    if reader
    then record m { live = wake_all m.read_queue m.live; read_queue = [] }
    else record m { live = wake_all m.write_queue m.live; write_queue = [] }

-- How the wait that a lock operation begins turns out: it registers and its callback releases the
-- lock; the registration fails, the callback not having run; or it throws before the callback.
pub data Wait : Type 0 where
  registers fails throws : Wait

-- `_WaitRLock` and `_WaitRLockWithTimeout`, and the writers' two: the waiter pushed. The slot of one
-- that throws is emptied.
pub wait_read : Wait → Mutex → Mutex
wait_read registers m = record m {
  read_queue = m.read_queue ++ some m.next_id ∷ [];
  live = m.next_id ∷ m.live;
  next_id = suc m.next_id;
}
wait_read fails m = record m {
  read_queue = m.read_queue ++ some m.next_id ∷ [];
  next_id = suc m.next_id;
}
wait_read throws m = record m { read_queue = m.read_queue ++ none ∷ []; next_id = suc m.next_id }

pub wait_write : Wait → Mutex → Mutex
wait_write registers m = record m {
  write_queue = m.write_queue ++ some m.next_id ∷ [];
  live = m.next_id ∷ m.live;
  next_id = suc m.next_id;
  wait_wlock_num = inc m.wait_wlock_num;
  has_wait_wlock = true;
}
wait_write fails m = record m {
  write_queue = m.write_queue ++ some m.next_id ∷ [];
  next_id = suc m.next_id;
}
wait_write throws m = record m { write_queue = m.write_queue ++ none ∷ []; next_id = suc m.next_id }

abbrev pub is_free : Status → Bool
is_free free = true
is_free _ = false

abbrev pub is_wlocked : Status → Bool
is_wlocked wlocked = true
is_wlocked _ = false

-- The condition of `RLock`'s loop.
pub reader_blocked : Mutex → Bool
reader_blocked m = is_wlocked m.status || m.has_wait_wlock

-- A read lock is taken.
pub take_read : Mutex → Mutex
take_read m =
    let n : Mutex = record m { status = rlocked; rlock_hold_num = inc m.rlock_hold_num } in
    if n.has_wait_wlock then n else notify_all true n

-- A writer's wait is over: its share of the flag goes.
pub writer_resumes : Mutex → Mutex
writer_resumes m = record m {
  wait_wlock_num = dec m.wait_wlock_num;
  has_wait_wlock = is_positive (dec m.wait_wlock_num);
}

pub take_write : Mutex → Mutex
take_write m = record m { has_wait_wlock = is_positive m.wait_wlock_num; status = wlocked }

-- `TryWLock` leaves the flag.
pub try_take_write : Mutex → Mutex
try_take_write m = record m { status = wlocked }

pub runlock : Mutex → Mutex
runlock m =
    let held = dec m.rlock_hold_num in
    let n : Mutex = record m {
      rlock_hold_num = held;
      status = (if held == 0 then free else rlocked);
    } in
    if held == 0 then (notify_one n).0 else n

abbrev pub is_nil : List (Option ℕ) → Bool
is_nil [] = true
is_nil (x ∷ xs) = false

pub wunlock : Mutex → Mutex
wunlock m =
    let n : Mutex = record m { status = free } in
    if not (is_nil n.write_queue)
    then (notify_one n).0
    else if not (is_nil n.read_queue)
    then notify_all true n
    else n
