-- ===== src/Coroutine/Life.antt =====
-- bbt/coroutine/detail/Coroutine.cc: a coroutine from its creation to its end, driven by a worker
-- (Processer::_Run), its own body, the triggers of its event and requests to cancel it, in any order. `Yield`,
-- which leaves the coroutine to whoever resumes it by hand, is left out.
pub mod Safety
use bbtools_coroutine.Base.{
  ℕ, ◌%◌, ◌^◌, Bool, true, false, not, Option, none, some, List, [], ◌∷◌, if◌then◌else◌,
}
use bbtools_coroutine.PollEvent.State.{Phase, inited, armed, parked, pending}
use bbtools_coroutine.Coroutine.{
  RunStatus, runnable, running, suspended, done, Disposition, manual, event_wait, ready, at_end,
  AwaitEvent, Coroutine, create, on_co_poll_event, resume, yield_and_push, yield_with_callback,
  yield_throws, yield_fails, finish, on_exception, new_event, latch, regist_await_event,
}

-- Where the coroutine is: in a queue; in its body; in a wait that is set up but not yet suspended; switched away,
-- its callback still to be run; given back to the worker, which has to commit; suspended; deleted.
pub data Place : Type 0 where
  queued in_body waits switched returned asleep deleted : Place

-- `broken` is an Assert that failed.
pub record Life : Type 0 where
  pub co : Coroutine
  pub place : Place
  pub broken : Bool

-- `begins` carries whether the event can be initialised, the descriptor and its generation; `suspends`, whether
-- the callback can be stored; `checks`, the answer of the registration; `slow`, how long the body has run.
pub data Move : Type 0 where
  resumes : ℕ → Move
  begins : Bool → Option ℕ → ℕ → Move
  suspends checks : Bool → Move
  pushes finishes throws commits cancels : Move
  triggers : ℕ → Move

abbrev pub born : Life
born = record { co = create; place = queued; broken = false }

abbrev pub can_resume : RunStatus → Bool
can_resume runnable = true
can_resume suspended = true
can_resume _ = false

abbrev pub is_running : RunStatus → Bool
is_running running = true
is_running _ = false

-- The event completes: the coroutine goes into a queue.
abbrev pub wake : ℕ → AwaitEvent → Life → Life
wake f e l = record l { co = (on_co_poll_event f e l.co).1; place = queued }

-- A trigger, by the phase that it finds.
unfoldable pub trigger_at : Phase → ℕ → AwaitEvent → Life → Life
trigger_at parked f e l = wake f e l
trigger_at p f e l = record l { co = record (l.co) { await_event = some (latch p f e) } }

unfoldable pub trigger_event : ℕ → Option AwaitEvent → Life → Life
trigger_event f none l = l
trigger_event f (some e) l = trigger_at e.phase f e l

abbrev pub trigger : ℕ → Life → Life
trigger f l = trigger_event f l.co.await_event l

-- The entry of the `YieldUntil` family.
abbrev pub has_event : Option AwaitEvent → Bool
has_event none = false
has_event (some e) = true

unfoldable pub begin_wait : Bool → Option ℕ → ℕ → Life → Life
begin_wait inits fd epoch l =
    if l.co.cancel_requested
    then l
    else if has_event l.co.await_event
    then record l { broken = true }
    else if inits
    then record l { co = record (l.co) { await_event = some (new_event fd epoch) }; place = waits }
    else l

-- `YieldWithCallback`, which may fail to store the callback.
unfoldable pub suspend : Bool → Life → Life
suspend stores l =
    if not (is_running l.co.run_status)
    then record l { broken = true }
    else if stores
    then record l { co = yield_with_callback l.co; place = switched }
    else record l { co = yield_throws l.co; place = in_body }

-- The worker runs the callback, and gives the coroutine its stack back when that fails.
unfoldable pub check : Bool → Life → Life
check registers l =
    let (ok, c) = regist_await_event registers l.co in
    if ok
    then record l { co = c; place = returned }
    else record l { co = yield_fails c; place = in_body }

-- `CommitPark` on the event.
unfoldable pub commit_phase : Phase → AwaitEvent → Life → Life
commit_phase armed e l = record l {
  co = record (l.co) { await_event = some (record e { phase = parked }) };
  place = asleep;
}
commit_phase pending e l = wake e.flags e l
commit_phase p e l = record l { place = asleep }

unfoldable pub commit_event : Option AwaitEvent → Life → Life
commit_event none l = record l { broken = true }
commit_event (some e) l = commit_phase e.phase e l

-- `CommitYield`, and what the worker does with its answer.
unfoldable pub commit_at : Disposition → Life → Life
commit_at at_end l = record l { place = deleted }
commit_at ready l = record l { place = queued }
commit_at manual l = record l { place = asleep }
commit_at event_wait l = commit_event l.co.await_event l

abbrev pub is_done : RunStatus → Bool
is_done done = true
is_done _ = false

unfoldable pub commit : Life → Life
commit l =
    if is_done l.co.run_status
    then record l { co = record (l.co) { yield_disposition = at_end }; place = deleted }
    else commit_at l.co.yield_disposition l

-- `Resume`; `us` is how long the coroutine ran the last time.
unfoldable pub resume_queued : ℕ → Life → Life
resume_queued us l =
    if can_resume l.co.run_status
    then record l { co = resume (record (l.co) { last_run_us = us }); place = in_body }
    else record l { broken = true }

unfoldable pub push : Life → Life
push l =
    if is_running l.co.run_status
    then record l { co = yield_and_push l.co; place = returned }
    else record l { broken = true }

unfoldable pub step_at : Place → Move → Life → Life
step_at queued (resumes us) l = resume_queued us l
step_at in_body (begins inits fd epoch) l = begin_wait inits fd epoch l
step_at in_body pushes l = push l
step_at in_body finishes l = record l { co = finish l.co; place = returned }
step_at in_body throws l = record l { co = on_exception l.co; place = returned }
step_at waits (suspends stores) l = suspend stores l
step_at switched (checks registers) l = check registers l
step_at returned commits l = commit l
step_at deleted m l = l
step_at p (triggers f) l = trigger f l
step_at p cancels l = trigger (2 ^ 8) (record l { co = record (l.co) { cancel_requested = true } })
step_at p m l = l

-- A move that the place does not allow does nothing.
unfoldable pub step : Move → Life → Life
step m l = step_at l.place m l

unfoldable pub run : List Move → Life → Life
run [] l = l
run (m ∷ ms) l = run ms (step m l)
