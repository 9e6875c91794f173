-- ===== src/PollEvent/Slots/Tests.antt =====
-- The theorems about the table of descriptors at concrete calls.
use bbtools_coroutine.Base.{ℕ, ◌≡◌, refl, Bool, true, false, none, some, List, [], ◌∷◌, arith}
use bbtools_coroutine.Base.Map.{Unique, find, put, insert, replace}
use bbtools_coroutine.PollEvent.Slots.{
  fd_key, Slots, slot_at, Waiter, track, track_fd, begin_fd_close, fd_epoch, fd_is_closing, Op,
  tracks, begins, ends, establishes, establish, claims, touch, keep, step, run,
}
use bbtools_coroutine.PollEvent.Slots.Laws.{after, step-Refines}
use bbtools_coroutine.PollEvent.Slots.Closing.{
  track-stale, begin_fd_close-exclusive, track-is_woken, Wakes,
}

abbrev live : ℕ → Bool
live x = true

-- The descriptor 3 is set up for the wait of event 5, closed, and opened again.
abbrev waiter : Waiter
waiter = record { id = 5; fd = some 3; has_event = true; wait_epoch = 0 }

abbrev closed : List ((ℕ → Bool) × Op)
closed = (live, establishes 3) ∷ (live, begins 3) ∷ (live, ends 3) ∷ []

abbrev table : Slots
table = []

track-stale_example : track live waiter (run closed table) ≡ (touch 3 (run closed table), false)
unfolding fd_epoch establish claims step begin_fd_close fd_is_closing slot_at touch find put insert
    replace
track-stale_example =
    track-stale closed live waiter 3 table tt (omega arith) refl refl refl (omega arith)
      (omega arith)

step-Refines_example :
    (slot_at 3 (step live (tracks waiter) table) ≡ after live (tracks waiter) 3 (slot_at 3 table))
    × Unique (step live (tracks waiter) table)
step-Refines_example = step-Refines live 3 table tt (tracks waiter)

abbrev between : List ((ℕ → Bool) × Op)
between = (live, establishes 3) ∷ (live, ends 4) ∷ []

begin_fd_close-exclusive_example :
    (begin_fd_close live 3 (run between (begin_fd_close live 3 table).0)).1 ≡ none
unfolding begin_fd_close slot_at find keep
begin_fd_close-exclusive_example =
    begin_fd_close-exclusive live live between 3 table [] tt refl (refl, (refl, tt))

track-is_woken_example : Wakes 5 (begin_fd_close live 3 (run between (track live waiter table).0)).1
unfolding track track_fd slot_at find
track-is_woken_example =
    track-is_woken live live between waiter 3 table tt refl refl refl refl refl (refl, (refl, tt))
