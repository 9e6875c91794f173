-- ===== src/Processer/Tests.antt =====
-- The processer at concrete runs.
use bbtools_coroutine.Base.Bags.{take_at, count}
use bbtools_coroutine.Base.{
  ℕ, ◌+◌, ◌≡◌, refl, true, false, ◌⊎◌, All, none, some, List, [], ◌∷◌, bit, sum,
}
use bbtools_coroutine.Processer.{exited, init, activate}
use bbtools_coroutine.Processer.Admission.{
  idle, exited_at, Move, offers, retires, goes_on, rejected, enqueue_begin, release, drain_front,
  go_on, step, step_at, run, threads,
}
use bbtools_coroutine.Processer.Admission.Safety.{enqueuing, publishing, held, is_over, total}
use bbtools_coroutine.Processer.Admission.Safety.Runs.{run-conserves, run-exits}
use bbtools_coroutine.Processer.Driver
use bbtools_coroutine.Processer.Driver.{
  Frame, Status, ok, self_detach, tick, unregistered, binds, calls, unregisters, returns,
  empty_slot, is_slot, start, bind_driver, bind_slot, call_driver, lease, granted,
  unregister_checks, elect, clear_slot, driver_fail, driver_fail_at, record_failure,
}
use bbtools_coroutine.Processer.Driver.Safety.{Stands}
use bbtools_coroutine.Processer.Driver.Safety.Runs.{holding, owing, run-detaches, run-unregisters}

abbrev next : Driver.Move
next = Driver.goes_on

abbrev on : Move
on = goes_on 0 true

-- One coroutine is queued and another is between its two looks at the admission when the processer is retired:
-- the first is drained to the global queue, the second goes back to its caller.
abbrev retired : List (ℕ × Move)
retired =
    (1, offers 7)
    ∷ (1, on)
    ∷ (1, on)
    ∷ (1, on)
    ∷ (1, on)
    ∷ (2, offers 8)
    ∷ (2, on)
    ∷ (3, retires)
    ∷ (3, on)
    ∷ (3, on)
    ∷ (0, on)
    ∷ (0, on)
    ∷ (2, on)
    ∷ (2, on)
    ∷ (0, on)
    ∷ (0, on)
    ∷ (0, on)
    ∷ (0, on)
    ∷ (0, on)
    ∷ []

retired-run :
    let (ss, p) = run retired (threads 3) (activate init) in
    (p.lifecycle ≡ exited)
    × (p.global_queue ≡ 7 ∷ [])
    × (p.refused ≡ 8 ∷ [])
    × (p.coroutine_queue ≡ [])
    × (ss ≡ exited_at ∷ idle ∷ idle ∷ idle ∷ [])
unfolding run step_at step go_on enqueue_begin rejected release take_at drain_front
retired-run = (refl, refl, refl, refl, refl)

run-conserves_example :
    let (ss, p) = run retired (threads 3) (activate init) in
    total 8 p + sum (held 8) ss ≡ count 8 p.offered
run-conserves_example = run-conserves 3 8 retired

run-exits_example :
    let (ss, p) = run retired (threads 3) (activate init) in
    (p.enqueue_inflight ≡ sum enqueuing ss)
    × ((is_over p.lifecycle ≡ false)
        ⊎ (p.coroutine_queue ≡ []) × (p.admission_open ≡ false) × (sum publishing ss ≡ 0))
run-exits_example = run-exits 3 retired

-- A callback runs while one thread unregisters its driver, which it tries once more inside the last Wake, and
-- another thread joins it.
abbrev detached : List (ℕ × Driver.Move)
detached =
    (0, binds)
    ∷ (1, calls)
    ∷ (1, next)
    ∷ (2, unregisters 1)
    ∷ (3, unregisters 1)
    ∷ (2, next)
    ∷ (3, next)
    ∷ (2, next)
    ∷ (2, unregisters 1)
    ∷ (2, returns none)
    ∷ (2, next)
    ∷ (1, returns (some tick))
    ∷ (1, next)
    ∷ (2, next)
    ∷ (2, next)
    ∷ (2, next)
    ∷ (3, next)
    ∷ (0, binds)
    ∷ []

detached-run :
    let (ts, p) = Driver.run detached (Driver.all_idle 4) empty_slot in
    (p.driver_binding ≡ some 2)
    × ((p.bindings 1).wakes ≡ 1)
    × ((p.bindings 1).failure ≡ tick)
    × (ts
        ≡ ([], Driver.idle ok)
          ∷ ([], Driver.idle ok)
          ∷ ([], unregistered 1)
          ∷ ([], unregistered 1)
          ∷ [])
unfolding Driver.run Driver.step_at Driver.step Driver.go_on start bind_driver bind_slot call_driver
    lease granted unregister_checks elect clear_slot driver_fail driver_fail_at record_failure
detached-run = (refl, refl, refl, refl)

run-detaches_example :
    let (ts, p) = Driver.run detached (Driver.all_idle 4) empty_slot in
    let b = p.bindings 1 in
    (b.inflight ≡ sum (holding 1) ts)
    × (b.wakes + sum (owing 1) ts ≡ bit b.terminal_wake_reserved)
    × ((b.detached ≡ false)
        ⊎ (sum (holding 1) ts ≡ 0) × (is_slot 1 p.driver_binding ≡ false) × (b.wakes ≡ 1))
run-detaches_example = run-detaches 1 4 detached

run-unregisters_example :
    let (ts, p) = Driver.run detached (Driver.all_idle 4) empty_slot in
    All (λ t. Stands 1 t.0 t.1 p) ts
run-unregisters_example = run-unregisters 1 4 detached
