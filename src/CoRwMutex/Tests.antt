-- ===== src/CoRwMutex/Tests.antt =====
-- Runs of the lock, and the theorems about it at concrete states.
use bbtools_coroutine.Base.{ℕ, ◌≡◌, refl, true, false, none, some, List, [], ◌∷◌, ltb, arith, sum}
use bbtools_coroutine.CoRwMutex.{
  free, rlocked, Mutex, init, member, remove, registers, notify_one, notify, wake_first, wake_all,
  notify_all, wait_read, wait_write, reader_blocked, take_read, writer_resumes, runlock,
}
use bbtools_coroutine.CoRwMutex.System.{
  Ret, idle, rlock_waits, Move, rlock, runlocks, try_wlock_for, expires, resumes, rlock_loop,
  try_wlock_timed, expire, resume, step, step_at, run, all_idle,
}
use bbtools_coroutine.CoRwMutex.System.Safety.{reads, writes, queues, Held}
use bbtools_coroutine.CoRwMutex.System.Safety.Exclusion.{run-Agrees}
use bbtools_coroutine.CoRwMutex.Wakeups.{first_live, WakesOne, notify_one_lem, runlock-turn}

-- A reader holds the lock, and a writer waits for it with a limit. The writer's timer fires, the reader
-- unlocks, another reader comes, and then the writer runs on.
abbrev schedule : List (ℕ × Move)
schedule =
    (0, rlock registers)
    ∷ (1, try_wlock_for true registers)
    ∷ (1, expires)
    ∷ (0, runlocks)
    ∷ (2, rlock registers)
    ∷ (1, resumes registers)
    ∷ []

run-Agrees_example :
    let (ts, m) = run schedule (all_idle 3) init in
    (m.rlock_hold_num ≡ sum reads ts)
    × (m.wait_wlock_num ≡ sum queues ts)
    × (m.has_wait_wlock ≡ ltb 0 (sum queues ts))
    × Held m.status (sum reads ts) (sum writes ts)
run-Agrees_example = run-Agrees 3 schedule (omega arith)

-- At its end the lock is free and the second reader waits, live, with nobody to wake it.
lost_wakeup :
    let (ts, m) = run schedule (all_idle 3) init in
    (ts ≡ idle Ret.ok ∷ idle Ret.timed_out ∷ rlock_waits 1 ∷ [])
    × (m.status ≡ free)
    × (m.has_wait_wlock ≡ false)
    × (m.live ≡ 1 ∷ [])
unfolding run all_idle step_at step rlock_loop try_wlock_timed expire resume reader_blocked
    take_read notify_all wake_all wait_read wait_write writer_resumes runlock notify_one wake_first
    notify member remove
lost_wakeup = (refl, refl, refl, refl)

-- A reader holds the lock, a writer that has given up and two readers are queued.
abbrev queued : Mutex
queued = record {
  status = rlocked;
  rlock_hold_num = 1;
  wait_wlock_num = 0;
  has_wait_wlock = false;
  write_queue = some 0 ∷ none ∷ [];
  read_queue = none ∷ some 1 ∷ some 2 ∷ [];
  live = 2 ∷ 1 ∷ [];
  next_id = 3;
}

notify_one_lem_example : WakesOne none (some 1) queued (notify_one queued)
unfolding first_live member
notify_one_lem_example = notify_one_lem queued

runlock-turn_example : member 1 (runlock queued).live ≡ false
unfolding first_live member
runlock-turn_example = runlock-turn queued 1 refl refl
