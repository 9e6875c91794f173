-- ===== src/CoWaiter.antt =====
-- bbt/coroutine/sync/CoWaiter.cc: one place to wait, and the calls that wait at it and notify it.
-- Also `Coroutine::RegistCustom` (bbt/coroutine/detail/Coroutine.cc). Times are nanoseconds of the
-- steady clock. An event is named by its id.
pub mod Waits
mod Tests
use bbtools_coroutine.Base.{
  ℕ, zero, suc, ◌+◌, ◌-◌, ◌*◌, ◌/◌, ◌%◌, ◌^◌, Bool, true, false, not, ◌&&◌, ◌||◌, Option, none,
  some, List, [], ◌∷◌, ltb, leb, ◌==◌, if◌then◌else◌,
}

pub data RunStatus : Type 0 where
  cond_default cond_free cond_wait cond_active : RunStatus

-- `values` holds what `SetNotifyValue` gave each event.
pub record Waiter : Type 0 where
  pub co_event : Option ℕ
  pub run_status : RunStatus
  pub values : ℕ → Option ℕ

abbrev pub fresh : Waiter
fresh = record { co_event = none; run_status = cond_default; values = λ _. none }

-- A number of milliseconds, as an `int` may be.
pub data Ms : Type 0 where
  millis : ℕ → Ms
  negative : ℕ → Ms

-- What `RegistCustom` meets: whether the coroutine has an event to await already, whether the Event
-- for a timer can be made, and the id of the new event.
pub record Registry : Type 0 where
  pub awaits : Bool
  pub creates : Bool
  pub new_id : ℕ

-- `RegistCustom(key)` and `RegistCustom(key, timeout_ms)`: the event, with the timer that it will
-- start; `StartListen` starts none for 0 milliseconds.
pub regist_custom : Registry → Option Ms → Option (ℕ × Option ℕ)
regist_custom r none = if r.awaits then none else some (r.new_id, none)
regist_custom r (some (negative n)) = none
regist_custom r (some (millis n)) =
    if r.awaits || not r.creates then none else some (r.new_id, (if n == 0 then none else some n))

-- How `YieldWithCallback` ends: the coroutine was resumed with a mask, its registration failed, or
-- it throws before it suspended.
pub data Yield : Type 0 where
  resumed : ℕ → Yield
  unregistered : Yield
  raised : Yield

pub data Ret : Type 0 where
  ok failed timed_out threw : Ret

-- Bits of `PollEventType`, as the coroutine is resumed with them.
abbrev pub has_bit : ℕ → ℕ → Bool
has_bit n mask = mask / 2 ^ n % 2 == 1

abbrev pub is_timeout : ℕ → Bool
is_timeout = has_bit 0

abbrev pub is_writeable : ℕ → Bool
is_writeable = has_bit 1

abbrev pub is_readable : ℕ → Bool
is_readable = has_bit 2

abbrev pub is_custom : ℕ → Bool
is_custom = has_bit 3

abbrev pub is_cancelled : ℕ → Bool
is_cancelled = has_bit 8

abbrev pub is_some : {A : Type 0} → Option A → Bool
is_some none = false
is_some (some a) = true

-- The critical section that takes the place.
pub occupy : ℕ → Waiter → Waiter
occupy id w = record w { co_event = some id; run_status = cond_wait }

-- The one that gives it back, unless another wait has it by then.
pub vacate : ℕ → Waiter → Waiter
vacate id w = elim w.co_event [
  | none ↦ w
  | some j ↦ if j == id then record w { co_event = none; run_status = cond_free } else w
]

-- `Notify`: the event to trigger.
pub notify : Waiter → Waiter × Option ℕ
notify w = elim w.run_status [
  | cond_wait ↦ (elim w.co_event [
    | none ↦ (w, none)
    | some id ↦ (record w { run_status = cond_active }, some id)
  ])
  | _ ↦ (w, none)
]

pub notify_value : ℕ → Waiter → Waiter × Option ℕ
notify_value v w = elim w.run_status [
  | cond_wait ↦ (elim w.co_event [
    | none ↦ (w, none)
    | some id ↦ (
      record w { run_status = cond_active; values = λ j. if j == id then some v else w.values j },
      some id,
    )
  ])
  | _ ↦ (w, none)
]

-- `Cancel`: later notifications pass it over.
pub cancel : Waiter → Waiter
cancel w = record w { run_status = cond_free }

pub data WaitStatus : Type 0 where
  completed timed_out cancelled invalid_context already_waiting runtime_unavailable : WaitStatus

pub data CombinedWaitStatus : Type 0 where
  fd_readable fd_writeable completed timed_out cancelled already_waiting invalid_context
        invalid_options runtime_unavailable :
      CombinedWaitStatus

-- The mask that a wait was resumed with, as its result.
pub verdict : ℕ → WaitStatus
verdict mask =
    if is_cancelled mask
    then cancelled
    else if is_timeout mask
    then timed_out
    else if is_custom mask
    then completed
    else cancelled

pub combined_verdict : ℕ → CombinedWaitStatus
combined_verdict mask =
    if is_cancelled mask
    then cancelled
    else if is_timeout mask
    then timed_out
    else if is_custom mask
    then completed
    else if is_readable mask
    then fd_readable
    else if is_writeable mask
    then fd_writeable
    else cancelled

-- The milliseconds left, rounded up.
pub remain : ℕ → ℕ → Ms
remain deadline now =
    if ltb now deadline
    then millis ((deadline - now + 999999) / 1000000)
    else (let late = (now - deadline) / 1000000 in if late == 0 then millis 0 else negative late)

-- The timer of a wait: none from `INT_MAX` milliseconds on.
abbrev pub timer_of : Ms → Option Ms
timer_of (millis n) = if ltb n 2147483647 then some (millis n) else none
timer_of (negative n) = some (negative n)
