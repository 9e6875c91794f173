-- ===== src/CoWaiter/Waits.antt =====
-- The calls of CoWaiter that wait, each with its critical sections in order. What the other calls do
-- while the coroutine is suspended is `during`.
pub mod Deadlines
pub mod Places
pub mod Timers
use bbtools_coroutine.Base.{
  ℕ, zero, suc, ◌+◌, Bool, true, false, not, ◌&&◌, ◌||◌, Option, none, some, List, [], ◌∷◌, ltb,
  leb, ◌==◌, if◌then◌else◌,
}
use bbtools_coroutine.CoWaiter.{
  RunStatus, cond_free, Waiter, Ms, millis, negative, Registry, regist_custom, Yield, resumed,
  unregistered, raised, Ret, is_timeout, is_custom, is_cancelled, is_some, occupy, vacate,
  WaitStatus, CombinedWaitStatus, verdict, combined_verdict, remain, timer_of,
}

-- What a call gives: the waiter afterwards, whether the place was taken by an event with which
-- timer, and the result.
pub record Done (A : Type 0) : Type 0 where
  pub waiter : Waiter
  pub entered : Option (ℕ × Option ℕ)
  pub result : A

-- The part that the four `int` calls share. A place that is taken is refused; if no event can be had,
-- the place stays empty.
unfoldable pub wait_until :
    Option Ms → Registry → Yield → (Yield → Ret) → (Waiter → Waiter) → Waiter → Done Ret
wait_until timeout r y ret during w =
    if is_some w.co_event
    then record { waiter = w; entered = none; result = Ret.failed }
    else (elim (regist_custom r timeout) [
      | none ↦ record { waiter = w; entered = none; result = Ret.failed }
      | some (id, timer) ↦ record {
        waiter = vacate id (during (occupy id w));
        entered = some (id, timer);
        result = ret y;
      }
    ])

-- `Wait` looks away from what the suspension gave.
abbrev pub ret_wait : Yield → Ret
ret_wait raised = Ret.threw
ret_wait _ = Ret.ok

abbrev pub ret_callback : Yield → Ret
ret_callback raised = Ret.threw
ret_callback unregistered = Ret.failed
ret_callback (resumed mask) = Ret.ok

abbrev pub ret_timeout : Yield → Ret
ret_timeout raised = Ret.threw
ret_timeout unregistered = Ret.failed
ret_timeout (resumed mask) = if is_timeout mask || is_cancelled mask then Ret.timed_out else Ret.ok

pub wait : Registry → Yield → (Waiter → Waiter) → Waiter → Done Ret
wait r y during w = wait_until none r y ret_wait during w

pub wait_with_callback : Registry → Yield → (Waiter → Waiter) → Waiter → Done Ret
wait_with_callback r y during w = wait_until none r y ret_callback during w

unfoldable pub wait_with_timeout : Ms → Registry → Yield → (Waiter → Waiter) → Waiter → Done Ret
wait_with_timeout ms r y during w = wait_until (some ms) r y ret_timeout during w

pub wait_with_timeout_and_callback : Ms → Registry → Yield → (Waiter → Waiter) → Waiter → Done Ret
wait_with_timeout_and_callback ms r y during w = wait_until (some ms) r y ret_timeout during w

-- What the calls with a deadline meet: the coroutine, the two readings of the clock, and which
-- events are in a final phase.
pub record World : Type 0 where
  pub in_coroutine : Bool
  pub cancel_requested : Bool
  pub now : ℕ
  pub later : ℕ
  pub is_final : ℕ → Bool
  pub registry : Registry

-- The place is held by an event that is not final.
abbrev pub taken : World → Waiter → Bool
taken world w = elim w.co_event [ none ↦ false | some id ↦ not (world.is_final id) ]

-- An event that is final loses it.
abbrev pub evict : Waiter → Waiter
evict w = elim w.co_event [
  | none ↦ w
  | some id ↦ record w { co_event = none; run_status = cond_free }
]

-- The result with the payload: the one that came with the notification that woke the wait.
pub data Outcome (A : Type 0) : Type 0 where
  gives : A → Option ℕ → Outcome A
  throws : Outcome A

abbrev pub resolve : {A : Type 0} → (ℕ → A) → A → Yield → ℕ → Waiter → Outcome A
resolve verdict unavailable (resumed mask) id w =
    gives (verdict mask) (if is_custom mask then w.values id else none)
resolve verdict unavailable unregistered id w = gives unavailable none
resolve verdict unavailable raised id w = throws

-- `WaitWithCallback(options, on_registered, value)`. `refuse` is an early return.
unfoldable pub wait_deadline :
    ℕ → World → Yield → (Waiter → Waiter) → Waiter → Done (Outcome WaitStatus)
wait_deadline deadline world y during w =
    let refuse : Waiter → WaitStatus → Done (Outcome WaitStatus) =
      (λ v s. record { waiter = v; entered = none; result = gives s none }) in
    if not world.in_coroutine
    then refuse w WaitStatus.invalid_context
    else if world.cancel_requested
    then refuse w WaitStatus.cancelled
    else if leb deadline world.now
    then refuse w WaitStatus.timed_out
    else if taken world w
    then refuse w WaitStatus.already_waiting
    else (elim (regist_custom world.registry (timer_of (remain deadline world.later))) [
      | none ↦ refuse (evict w) WaitStatus.runtime_unavailable
      | some (id, timer) ↦
          let v = during (occupy id (evict w)) in
          record {
            waiter = vacate id v;
            entered = some (id, timer);
            result = resolve verdict WaitStatus.runtime_unavailable y id v;
          }
    ])

-- `Wait(CombinedWaitOptions, on_registered, value)`: `fd` is none if it is negative.
pub record Combined : Type 0 where
  pub deadline : ℕ
  pub fd : Option ℕ
  pub want_readable : Bool
  pub want_writeable : Bool

-- The timer that the one `InitFdEvent` call sets up.
unfoldable pub combined_timer : Ms → Option ℕ
combined_timer (millis n) = if ltb n 2147483647 then (if n == 0 then none else some n) else none
combined_timer (negative n) = none

unfoldable pub is_positive : Ms → Bool
is_positive (millis n) = ltb 0 n
is_positive (negative n) = false

-- `RegistCustom` without a timer, then `InitFdEvent` if there is anything to listen for.
unfoldable pub wait_combined :
    Combined → World → Yield → (Waiter → Waiter) → Waiter → Done (Outcome CombinedWaitStatus)
wait_combined options world y during w =
    let refuse : Waiter → CombinedWaitStatus → Done (Outcome CombinedWaitStatus) =
      (λ v s. record { waiter = v; entered = none; result = gives s none }) in
    let want_fd = options.want_readable || options.want_writeable in
    let left = remain options.deadline world.later in
    let r = world.registry in
    let v = during (occupy r.new_id (evict w)) in
    if not world.in_coroutine
    then refuse w CombinedWaitStatus.invalid_context
    else if want_fd && not (is_some options.fd)
    then refuse w CombinedWaitStatus.invalid_options
    else if world.cancel_requested
    then refuse w CombinedWaitStatus.cancelled
    else if leb options.deadline world.now
    then refuse w CombinedWaitStatus.timed_out
    else if taken world w
    then refuse w CombinedWaitStatus.already_waiting
    else if not (is_positive left)
    then refuse (evict w) CombinedWaitStatus.timed_out
    else if r.awaits
    then refuse (evict w) CombinedWaitStatus.runtime_unavailable
    else if (want_fd || is_some (timer_of left)) && not r.creates
    then refuse (record w { co_event = none; run_status = cond_free })
        CombinedWaitStatus.runtime_unavailable
    else record {
      waiter = vacate r.new_id v;
      entered = some (r.new_id, combined_timer left);
      result = resolve combined_verdict CombinedWaitStatus.runtime_unavailable y r.new_id v;
    }
