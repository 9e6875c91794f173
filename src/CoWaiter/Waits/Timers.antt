-- ===== src/CoWaiter/Waits/Timers.antt =====
-- The event of the poller that a wait with a limit listens to: `RegistCustom` makes it for the time alone, and
-- `CoPollEvent::Regist` calls its StartListen with the limit (bbt/coroutine/detail/CoPollEvent.cc).
use bbtools_coroutine.Base.{
  ℕ, ◌+◌, ◌≤◌, ◌≡◌, true, false, ltb, ◌==◌, bit, Option, none, some, List, [], ◌∷◌, sum,
  if◌then◌else◌,
}
use bbtools_coroutine.CoWaiter.{Ms, millis, negative}
use bbtools_coroutine.Event.{
  Kind, times, Op, Handler, delivers, rewaits, closes, Interest, Event, create, start_listen, Move,
  starts, run,
}

-- Timers that are set, that a handler is about to tell of, and that the callback was told of.
abbrev timed : Kind → ℕ
timed times = 1
timed _ = 0

abbrev pub timed_op : Op → ℕ
timed_op o = timed o.kind

abbrev timed_by : Handler → ℕ
timed_by (delivers o) = timed o.kind
timed_by (rewaits o) = timed o.kind
timed_by (closes fd) = 0

abbrev timers : Event → ℕ
timers e = sum timed_op e.pending + sum timed_by e.running + sum timed_op e.called

-- Only the wait itself starts the event.
abbrev pub NoStart : Move → Type 0
NoStart (starts now timeout) = ⊥
NoStart _ = Unit

-- `EventOpt::TIMEOUT`, and the event as the wait starts it.
abbrev pub time_alone : Interest
time_alone = record { read = false; write = false; close = false; timeout = true; persist = false }

abbrev pub limit_of : Option ℕ → ℕ
limit_of none = 0
limit_of (some n) = n

abbrev pub listened : ℕ → Option ℕ → Event
listened now timer = start_listen time_alone now (limit_of timer) (create time_alone none)

-- What a limit means: the one timer, when it was set, and how often the callback may be told that it is due.
abbrev pub Limits : ℕ → List Move → Ms → Option ℕ → Type 0
Limits now ms (negative n) timer = ⊥
Limits now ms (millis n) timer =
    let e = listened now timer in
    (e.pending ≡ (if n == 0 then [] else record { kind = times; round = 1; fd = none } ∷ []))
    × (e.deadline ≡ (if n == 0 then none else some (now + n + 1)))
    × (sum timed_op (run time_alone ms e).called ≤ bit (ltb 0 n))
