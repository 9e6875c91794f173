-- ===== src/CoMutex/Tests.antt =====
-- The theorems about the mutex at concrete runs.
use bbtools_coroutine.Base.{ℕ, true, none, some, List, [], ◌∷◌}
use bbtools_coroutine.CoRwMutex.{registers, member}
use bbtools_coroutine.CoRwMutex.Wakeups.{first_live}
use bbtools_coroutine.CoMutex.{locked, Mutex, init, on_unlocked}
use bbtools_coroutine.CoMutex.System.{
  Move, lock, unlocks, try_lock_for, expires, resumes, run, all_idle,
}
use bbtools_coroutine.CoMutex.System.Safety.{holders, Names, run-Names}
use bbtools_coroutine.CoMutex.Wakeups.{Unlocks, on_unlocked_lem}

-- One coroutine locks, one waits with a limit that passes, one waits and gets the lock.
abbrev schedule : List (ℕ × Move)
schedule =
    (0, lock registers)
    ∷ (1, try_lock_for true registers)
    ∷ (2, lock registers)
    ∷ (1, expires)
    ∷ (0, unlocks)
    ∷ (1, resumes registers)
    ∷ (2, resumes registers)
    ∷ []

run-Names_example :
    let (ts, m) = run schedule (all_idle 3) init in Names (holders 0 ts) m.status m.locked_co
run-Names_example = run-Names 3 schedule

abbrev queued : Mutex
queued = record {
  status = locked;
  locked_co = some 0;
  wait_queue = some 4 ∷ none ∷ some 5 ∷ [];
  live = 5 ∷ [];
  next_id = 6;
}

on_unlocked_lem_example : Unlocks (some 5) queued (on_unlocked queued)
unfolding first_live member
on_unlocked_lem_example = on_unlocked_lem queued
