-- ===== src/CoWaiter/Tests.antt =====
-- The theorems about CoWaiter at concrete waits.
use bbtools_coroutine.Base.{ℕ, ◌≡◌, refl, true, false, none, some, List, [], ◌∷◌, arith}
use bbtools_coroutine.CoWaiter.{
  fresh, millis, regist_custom, resumed, raised, WaitStatus, CombinedWaitStatus, remain,
}
use bbtools_coroutine.CoWaiter.Waits.{
  World, Outcome, Combined, wait_until, wait_deadline, wait_combined, ret_timeout,
}
use bbtools_coroutine.CoWaiter.Waits.Deadlines.{wait_deadline-unbounded}
use bbtools_coroutine.CoWaiter.Waits.Timers.{time_alone, listened}
use bbtools_coroutine.Event.{
  times, Move, triggered, completes, proceeds, run, step, proceeded, take_at, completed,
  start_listen, put_back, complete, go_on, call_event_callback, trigger,
}
use bbtools_coroutine.CoWaiter.Waits.Places.{
  Vacates, notify_each, wait-Vacates, wait_deadline-first_payload,
}

-- A coroutine that reads the clock at 1 ms and 1 ns later.
abbrev world : World
world = record {
  in_coroutine = true;
  cancel_requested = false;
  now = 1000000;
  later = 1000001;
  is_final = λ _. false;
  registry = record { awaits = false; creates = true; new_id = 7 };
}

abbrev until : ℕ → Combined
until deadline = record {
  deadline = deadline;
  fd = none;
  want_readable = false;
  want_writeable = false;
}

wait_deadline-unbounded_example :
    ((wait_deadline 1000001 world raised (λ w. w) fresh).entered ≡ some (7, none))
    × ((wait_combined (until 1000001) world raised (λ w. w) fresh).result
        ≡ Outcome.gives CombinedWaitStatus.timed_out none)
wait_deadline-unbounded_example =
    wait_deadline-unbounded 1000001 (until 1000001) world raised (λ w. w) fresh refl (refl, refl)
      (refl, refl) (refl, refl) refl (omega arith) (omega arith, omega arith)

wait-Vacates_example :
    Vacates (wait_until (some (millis 5)) world.registry raised ret_timeout (λ w. w) fresh)
    × Vacates (wait_deadline 3000000 world raised (λ w. w) fresh)
    × Vacates (wait_combined (until 3000000) world raised (λ w. w) fresh)
wait-Vacates_example =
    wait-Vacates (some (millis 5)) world.registry ret_timeout 3000000 (until 3000000) world raised
      (λ w. w) fresh

wait_deadline-first_payload_example :
    (wait_deadline 3000000 world (resumed 8) (notify_each (some 4 ∷ some 5 ∷ [])) fresh).result
    ≡ Outcome.gives WaitStatus.completed (some 4)
unfolding wait_deadline regist_custom remain
wait_deadline-first_payload_example =
    wait_deadline-first_payload 3000000 world (some 4) (some 5 ∷ []) fresh (some 2) refl refl

-- A wait for 20 ms, whose timer comes due while its event is triggered.
abbrev due : List Move
due = triggered 4 ∷ completes 1 ∷ proceeds 0 ∷ []

due-run :
    (run time_alone due (listened 100 (some 20))).called
    ≡ record { kind = times; round = 1; fd = none } ∷ []
unfolding run step proceeded take_at completed start_listen put_back complete go_on
    call_event_callback trigger
due-run = refl
