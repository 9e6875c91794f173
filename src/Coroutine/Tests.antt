-- ===== src/Coroutine/Tests.antt =====
-- The coroutine at concrete runs.
use bbtools_coroutine.Base.{ℕ, ◌≡◌, refl, Bool, true, false, none, some, List, [], ◌∷◌, arith}
use bbtools_coroutine.PollEvent.Slots.{
  fd_epoch, fd_is_closing, slot_at, Op, begins, claims, establish, run,
}
use bbtools_coroutine.Base.Map.{find}
use bbtools_coroutine.Coroutine.{
  AwaitEvent, create, new_event, on_co_poll_event, fd_wait_epoch_valid, normalize_trigger_event,
  yield_with_callback, latch, regist_at, regist_event, regist_await_event,
}
use bbtools_coroutine.Coroutine.Wakes.{fd_wait_epoch_valid-claims}
use bbtools_coroutine.Coroutine.Life
use bbtools_coroutine.Coroutine.Life.{
  asleep, queued, resumes, suspends, checks, commits, triggers, cancels, born,
}

-- A wait on the descriptor 5, which another thread closes meanwhile.
abbrev wait_on_five : AwaitEvent
wait_on_five = new_event (some 5) 0

abbrev closing_five : List ((ℕ → Bool) × Op)
closing_five = (λ i. true, begins 5) ∷ []

fd_wait_epoch_valid-claims_example :
    let d = (on_co_poll_event 2 wait_on_five create).1 in
    fd_wait_epoch_valid (run closing_five []) 5 d ≡ false
unfolding claims fd_is_closing fd_epoch establish slot_at find
fd_wait_epoch_valid-claims_example =
    fd_wait_epoch_valid-claims closing_five [] 5 5 2 wait_on_five create tt (omega arith) refl refl
      (omega arith)

-- A wait that is cancelled before its event is registered.
abbrev cancelled_early : List Life.Move
cancelled_early =
    resumes 0 ∷ Life.begins true (some 5) 0 ∷ suspends true ∷ cancels ∷ checks true ∷ commits ∷ []

cancelled_early-run :
    let l = Life.run cancelled_early born in
    (l.place ≡ queued) × (l.co.last_resume_event ≡ 256) × (l.co.await_event ≡ none)
unfolding Life.run Life.step Life.step_at Life.resume_queued Life.begin_wait Life.suspend Life.check
    Life.commit Life.commit_at Life.commit_event Life.commit_phase Life.trigger_event
    Life.trigger_at yield_with_callback latch regist_at regist_event regist_await_event
    on_co_poll_event normalize_trigger_event
cancelled_early-run = (refl, refl, refl)
