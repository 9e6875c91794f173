-- ===== src/Coroutine.antt =====
-- bbt/coroutine/detail/Coroutine.cc: what a coroutine keeps, and what its calls do to it. The event that it waits
-- for is taken by its state word as a whole; PollEvent/Machine has the races on that. The clock, the stack and
-- the registration of the event are arguments.
pub mod Life
pub mod Wakes
mod Tests
use bbtools_coroutine.Base.{
  ℕ, suc, ◌+◌, ◌-◌, ◌*◌, ◌/◌, ◌%◌, ◌^◌, Bool, true, false, not, ◌&&◌, ◌||◌, Option, none, some, ltb,
  ◌==◌, bit, if◌then◌else◌,
}
use bbtools_coroutine.PollEvent.State.{Phase, inited, armed, parked, pending, final, cancelled}
use bbtools_coroutine.PollEvent.Slots.{Slots, fd_epoch}
use bbtools_coroutine.CoWaiter.{has_bit, is_timeout, is_cancelled}

pub data RunStatus : Type 0 where
  runnable running suspended done : RunStatus

-- `CoroutineYieldDisposition`
pub data Disposition : Type 0 where
  manual event_wait ready at_end : Disposition

pub data Priority : Type 0 where
  low normal high critical : Priority

-- `fd` is none for a wait on no descriptor.
pub record AwaitEvent : Type 0 where
  pub phase : Phase
  pub flags : ℕ
  pub fd : Option ℕ
  pub wait_epoch : ℕ

pub record Coroutine : Type 0 where
  pub run_status : RunStatus
  pub yield_disposition : Disposition
  pub await_event : Option AwaitEvent
  pub cancel_requested : Bool
  pub last_resume_event : ℕ
  pub last_wait_fd : Option ℕ
  pub last_wait_epoch : ℕ
  pub last_run_us : ℕ
  pub mlfq_demotions : ℕ
  pub is_parked : Bool

abbrev pub create : Coroutine
create = record {
  run_status = runnable;
  yield_disposition = manual;
  await_event = none;
  cancel_requested = false;
  last_resume_event = 0;
  last_wait_fd = none;
  last_wait_epoch = 0;
  last_run_us = 0;
  mlfq_demotions = 0;
  is_parked = false;
}

-- A mask of the bits that are set. The poller's masks have READABLE in bit 1 and WRITEABLE in bit 2, those of
-- a coroutine the other way round.
abbrev pub mask_of : Bool → Bool → Bool → Bool → Bool → Bool → ℕ
mask_of timeout writeable readable custom cancel closed =
    bit timeout
    + 2 * bit writeable
    + 4 * bit readable
    + 8 * bit custom
    + 256 * bit cancel
    + 512 * bit closed

unfoldable pub normalize_trigger_event : ℕ → ℕ
normalize_trigger_event events =
    mask_of (has_bit 0 events) (has_bit 2 events) (has_bit 1 events) (has_bit 3 events)
      (has_bit 8 events) (has_bit 9 events)

abbrev pub is_closed : ℕ → Bool
is_closed = has_bit 9

-- The time slice is 1000 microseconds.
abbrev pub is_slow : Coroutine → Bool
is_slow c = ltb 1000 c.last_run_us

pub next_demotions : Coroutine → ℕ
next_demotions c =
    if is_slow c
    then if ltb c.mlfq_demotions 3 then c.mlfq_demotions + 1 else c.mlfq_demotions
    else c.mlfq_demotions - 1

pub wake_priority : ℕ → Coroutine → Priority
wake_priority resume_event c =
    if is_timeout resume_event || is_cancelled resume_event
    then critical
    else if is_slow c
    then low
    else normal

-- `OnCoPollEvent`, with the event that it finds.
unfoldable pub on_co_poll_event : ℕ → AwaitEvent → Coroutine → Priority × Coroutine
on_co_poll_event event ev c =
    let resume_event = normalize_trigger_event (event % 2 ^ 16) in
    (
      wake_priority resume_event c,
      record c {
        mlfq_demotions = next_demotions c;
        last_resume_event = resume_event;
        last_wait_fd = ev.fd;
        last_wait_epoch = ev.wait_epoch;
        is_parked = false;
        await_event = none;
        yield_disposition = manual;
      },
    )

-- `FdWaitEpochValid`
unfoldable pub epoch_valid_at : Option ℕ → Slots → ℕ → Coroutine → Bool
epoch_valid_at none m fd c = true
epoch_valid_at (some k) m fd c = if not (k == fd) then true else fd_epoch fd m == c.last_wait_epoch

unfoldable pub fd_wait_epoch_valid : Slots → ℕ → Coroutine → Bool
fd_wait_epoch_valid m fd c =
    if is_closed c.last_resume_event then false else epoch_valid_at c.last_wait_fd m fd c

-- `Resume` and `YieldAndPushGCoQueue`, up to the switch.
abbrev pub resume : Coroutine → Coroutine
resume c = record c { run_status = running }

abbrev pub yield_and_push : Coroutine → Coroutine
yield_and_push c = record c { yield_disposition = ready; run_status = suspended }

-- `YieldWithCallback` up to the switch, and what undoes it when it throws or the callback fails.
abbrev pub wait_disposition : Option AwaitEvent → Disposition
wait_disposition none = manual
wait_disposition (some e) = event_wait

pub yield_with_callback : Coroutine → Coroutine
yield_with_callback c = record c {
  yield_disposition = wait_disposition c.await_event;
  run_status = suspended;
}

abbrev pub yield_throws : Coroutine → Coroutine
yield_throws c = record c { await_event = none; yield_disposition = manual; run_status = running }

abbrev pub yield_fails : Coroutine → Coroutine
yield_fails c = record c { yield_disposition = manual; run_status = running }

-- The body of the coroutine returns, or throws.
abbrev pub finish : Coroutine → Coroutine
finish c = record c { yield_disposition = at_end; run_status = done }

abbrev pub on_exception : Coroutine → Coroutine
on_exception c = record c { yield_disposition = at_end; run_status = done; await_event = none }

-- The event of a wait that begins.
abbrev pub new_event : Option ℕ → ℕ → AwaitEvent
new_event fd epoch = record { phase = inited; flags = 0; fd = fd; wait_epoch = epoch }

-- `Trigger` before the event is parked: the first mask is latched.
pub latch : Phase → ℕ → AwaitEvent → AwaitEvent
latch inited f e = record e { phase = pending; flags = f }
latch armed f e = record e { phase = pending; flags = f }
latch _ f e = e

-- `_RegistAwaitEvent`, with the answer of `Regist` for an event that is not pending.
pub regist_at : Phase → Bool → AwaitEvent → Coroutine → Bool × Coroutine
regist_at pending registers e c = (true, record c { await_event = some e; is_parked = true })
regist_at _ registers e c =
    if registers
    then (true, record c { await_event = some (record e { phase = armed }); is_parked = true })
    else (false, record c { await_event = none; yield_disposition = manual })

pub regist_event : Bool → Option AwaitEvent → Coroutine → Bool × Coroutine
regist_event registers none c = (false, record c { await_event = none; yield_disposition = manual })
regist_event registers (some e) c =
    let f = if c.cancel_requested then latch e.phase 256 e else e in regist_at f.phase registers f c

pub regist_await_event : Bool → Coroutine → Bool × Coroutine
regist_await_event registers c = regist_event registers c.await_event c
