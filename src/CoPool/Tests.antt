-- ===== src/CoPool/Tests.antt =====
-- The pool at a concrete run.
use bbtools_coroutine.Base.{ℕ, ◌+◌, ◌≡◌, refl, true, false, none, List, [], ◌∷◌, All, sum, ◌⊎◌}
use bbtools_coroutine.Base.Bags.{count, take_at}
use bbtools_coroutine.CoPool.{
  create, finishes, throws, handle_exception, ended, released, Move, submit, release, goes_on,
  take_work, drain_work, enqueue_work, go_on, start_submit, step, step_at, run, workers,
  with_clients,
}
use bbtools_coroutine.CoPool.Safety.{counted, latched, held, is_past, total}
use bbtools_coroutine.CoPool.Safety.Runs.{run-accounts}

abbrev on : Move
on = goes_on 0 true finishes

abbrev fails : Move
fails = goes_on 0 true (throws false none)

-- One worker runs a work, which throws; a second one is submitted, and the pool is released before it is run.
abbrev one_of_two : List (ℕ × Move)
one_of_two =
    (0, submit 7)
    ∷ (0, on)
    ∷ (1, on)
    ∷ (1, on)
    ∷ (1, on)
    ∷ (1, on)
    ∷ (0, submit 8)
    ∷ (0, on)
    ∷ (2, on)
    ∷ (0, release)
    ∷ (0, on)
    ∷ (1, fails)
    ∷ (1, on)
    ∷ (1, on)
    ∷ (1, on)
    ∷ (2, on)
    ∷ (2, on)
    ∷ (2, on)
    ∷ (0, on)
    ∷ (0, on)
    ∷ (0, on)
    ∷ (0, on)
    ∷ []

one_of_two-run :
    let (ss, p) = run one_of_two (with_clients 1 (workers 1)) (create 1) in
    (ss ≡ released ∷ ended false ∷ ended true ∷ [])
    × (p.executed ≡ 7 ∷ [])
    × (p.discarded ≡ 8 ∷ [])
    × (p.unhandled_exception_count ≡ 1)
unfolding run step_at step start_submit go_on enqueue_work drain_work take_work handle_exception
    take_at
one_of_two-run = (refl, refl, refl, refl)

run-accounts_example :
    let (ss, p) = run one_of_two (with_clients 1 (workers 1)) (create 1) in
    (total 8 p + sum (held 8) ss ≡ count 8 p.submitted)
    × (p.running_co_num ≡ sum counted ss)
    × (p.latch ≡ sum latched ss)
    × All (λ s. (is_past s ≡ false) ⊎ (p.latch ≡ 0)) ss
run-accounts_example = run-accounts 1 1 8 one_of_two
