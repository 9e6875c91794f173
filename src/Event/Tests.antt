-- ===== src/Event/Tests.antt =====
-- An event that waits for reading, writing and the time of 20 ms at once; its timer and both descriptor waits come due.
use bbtools_coroutine.Base.{◌≡◌, refl, true, false, none, some, List, [], ◌∷◌, arith}
use bbtools_coroutine.Event.{
  Interest, reads, times, Move, starts, cancels, completes, proceeds, create, run, start_listen,
  take_at, step, proceeded, completed, put_back, complete, go_on, call_event_callback,
}
use bbtools_coroutine.Event.Safety.{Single}
use bbtools_coroutine.Event.Safety.Runs.{run-Single}

abbrev once : Interest
once = record { read = true; write = true; close = false; timeout = true; persist = false }

abbrev due_together : List Move
due_together = starts 100 20 ∷ completes 2 ∷ proceeds 0 ∷ completes 0 ∷ proceeds 0 ∷ []

-- A completion that was queued when the other came is still told in the same round.
tells_twice :
    (run once due_together (create once (some 5))).called
    ≡ record { kind = times; round = 1; fd = none }
      ∷ record { kind = reads; round = 1; fd = some 5 }
      ∷ []
unfolding run step proceeded take_at completed start_listen put_back complete go_on
    call_event_callback
tells_twice = refl

abbrev restarted : List Move
restarted =
    starts 100 20
    ∷ starts 110 20
    ∷ completes 5
    ∷ completes 2
    ∷ proceeds 0
    ∷ cancels true
    ∷ cancels true
    ∷ []

run-Single_example : Single once reads 2 (run once restarted (create once (some 5)))
run-Single_example = run-Single once (some 5) restarted reads 2 (omega arith)
