-- ===== src/CoWaiter/Waits/Deadlines.antt =====
-- The timers that a wait with a deadline starts.
use bbtools_coroutine.Base.{ℕ, ◌+◌, ◌*◌, ◌≡◌, ◌≤◌, ◌<◌, ◌⊎◌, true, false, Option, none, some, arith}
use bbtools_coroutine.CoWaiter.{
  Waiter, Registry, regist_custom, Yield, CombinedWaitStatus, remain, timer_of,
}
use bbtools_coroutine.CoWaiter.Waits.{
  World, Outcome, wait_deadline, wait_combined, Combined, combined_timer, is_positive,
}

-- A timer of `n` milliseconds started at `now` fires at the deadline or up to a millisecond after it,
-- and fits into an `int`; without one the deadline is too far away for an `int`.
abbrev pub Meets : ℕ → ℕ → Option ℕ → Type 0
Meets deadline now (some n) =
    (deadline ≤ now + n * 1000000) × (now + n * 1000000 < deadline + 1000000) × (n < 2147483647)
Meets deadline now none = now + 2147483646 * 1000000 < deadline

-- The clock has passed the deadline by less than a millisecond.
abbrev pub JustPassed : ℕ → ℕ → Type 0
JustPassed deadline now = (deadline ≤ now) × (now < deadline + 1000000)

combined_timer-Meets :
    (deadline now : ℕ)
    → is_positive (remain deadline now) ≡ true
    → Meets deadline now (combined_timer (remain deadline now))
unfolding is_positive remain combined_timer
combined_timer-Meets deadline now h = ground arith

regist_custom-Meets :
    (deadline now : ℕ) (r : Registry) (id : ℕ) (timer : Option ℕ)
    → regist_custom r (timer_of (remain deadline now)) ≡ some (id, timer)
    → Meets deadline now timer ⊎ (timer ≡ none) × JustPassed deadline now
unfolding remain regist_custom
regist_custom-Meets deadline now r id none h = ground arith
regist_custom-Meets deadline now r id (some n) h = ground arith

-- A wait with a deadline that enters an event starts a timer that fires at the deadline or up to a
-- millisecond after it, unless the deadline is too far away for an `int` of milliseconds; or it starts
-- none because the clock passed the deadline, by less than a millisecond, after it was first read.
wait_deadline-timer :
    (deadline : ℕ) (world : World) (y : Yield) (during : Waiter → Waiter) (w : Waiter) (id : ℕ)
    (timer : Option ℕ)
    → (wait_deadline deadline world y during w).entered ≡ some (id, timer)
    → Meets deadline world.later timer ⊎ (timer ≡ none) × JustPassed deadline world.later
unfolding wait_deadline
wait_deadline-timer deadline world y during w id timer h =
    let fact = regist_custom-Meets deadline world.later world.registry id timer in ground arith

-- A combined wait that enters an event starts a timer that fires at the deadline or up to a millisecond
-- after it, unless the deadline is too far away for an `int` of milliseconds.
wait_combined-timer :
    (options : Combined) (world : World) (y : Yield) (during : Waiter → Waiter) (w : Waiter)
    (id : ℕ) (timer : Option ℕ)
    → (wait_combined options world y during w).entered ≡ some (id, timer)
    → Meets options.deadline world.later timer
unfolding wait_combined
wait_combined-timer options world y during w id timer h =
    let fact = combined_timer-Meets options.deadline world.later in ground arith

-- A coroutine that is not cancelled waits at an empty place, the deadline lies ahead when the clock is
-- read first and has passed by less than a millisecond when it is read again: the wait with a deadline
-- suspends on an event without a timer, where the combined wait with the same deadline returns that it
-- has timed out.
pub wait_deadline-unbounded :
    (deadline : ℕ) (options : Combined) (world : World) (y : Yield) (during : Waiter → Waiter)
    (w : Waiter)
    → options.deadline ≡ deadline
    → (options.want_readable ≡ false) × (options.want_writeable ≡ false)
    → (world.in_coroutine ≡ true) × (world.cancel_requested ≡ false)
    → (world.registry.awaits ≡ false) × (world.registry.creates ≡ true)
    → w.co_event ≡ none
    → world.now < deadline
    → JustPassed deadline world.later
    → ((wait_deadline deadline world y during w).entered ≡ some (world.registry.new_id, none))
      × ((wait_combined options world y during w).result
          ≡ Outcome.gives CombinedWaitStatus.timed_out none)
unfolding wait_deadline wait_combined regist_custom remain is_positive
wait_deadline-unbounded deadline options world y during w e v c r p b j = ground arith
