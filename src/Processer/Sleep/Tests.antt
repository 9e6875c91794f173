-- ===== src/Processer/Sleep/Tests.antt =====
-- A worker that is woken, at concrete runs.
use bbtools_coroutine.Base.{◌≡◌, refl, true, false, List, [], ◌∷◌}
use bbtools_coroutine.Processer.Sleep.{
  fresh, works, sleeps, notifies, leave, end_driver_wait, pull, check_local, decide, wake,
  wait_for_work, waits, goes_on, work, offers, proceeds, call, call_at, Move, by_worker, by_caller,
  step, run,
}
use bbtools_coroutine.Processer.Sleep.Safety.Runs.{callers}

-- The worker has looked at its queues; work comes, and is published once the worker sleeps.
abbrev overtaken : List Move
overtaken =
    by_worker (waits false)
    ∷ by_worker (goes_on 15 false)
    ∷ by_worker (goes_on 15 false)
    ∷ by_caller 0 offers
    ∷ by_caller 0 proceeds
    ∷ by_worker (goes_on 15 false)
    ∷ by_caller 0 proceeds
    ∷ []

overtaken-run :
    let (s, cs, l) = run overtaken (works, callers 1, fresh) in
    (s ≡ sleeps) × (cs ≡ notifies true ∷ []) × (l.run_cond_notify ≡ false) × (l.signalled ≡ false)
unfolding run step call_at call work wait_for_work pull check_local decide
overtaken-run = (refl, refl, refl, refl)

-- It runs on when it is notified.
abbrev overtaken_and_woken : List Move
overtaken_and_woken =
    by_worker (waits false)
    ∷ by_worker (goes_on 15 false)
    ∷ by_worker (goes_on 15 false)
    ∷ by_caller 0 offers
    ∷ by_worker (goes_on 15 false)
    ∷ by_caller 0 proceeds
    ∷ by_caller 0 proceeds
    ∷ by_worker (goes_on 15 false)
    ∷ []

overtaken_and_woken-run : (run overtaken_and_woken (works, callers 1, fresh)).0 ≡ works
unfolding run step call_at call work wait_for_work pull check_local decide wake leave
overtaken_and_woken-run = refl

-- A Wake of the driver ends the wait there; the latch stays cleared, and the next wait sets it again.
abbrev woken_in_driver : List Move
woken_in_driver =
    by_worker (waits true)
    ∷ by_worker (goes_on 15 false)
    ∷ by_worker (goes_on 15 false)
    ∷ by_worker (goes_on 15 false)
    ∷ by_caller 0 offers
    ∷ by_caller 0 proceeds
    ∷ by_caller 0 proceeds
    ∷ by_caller 0 proceeds
    ∷ by_worker (goes_on 15 false)
    ∷ []

woken_in_driver-run :
    let (s, cs, l) = run woken_in_driver (works, callers 1, fresh) in
    (s ≡ works) × (l.run_cond_notify ≡ false) × (l.executable_num ≡ 1)
unfolding run step call_at call work wait_for_work pull check_local decide end_driver_wait
woken_in_driver-run = (refl, refl, refl)
