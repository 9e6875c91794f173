-- ===== src/Processer/Admission/Safety.antt =====
-- What every step around a processer's queue keeps.
pub mod Steps
pub mod Runs
use bbtools_coroutine.Base.Bags.{is_one, count}
use bbtools_coroutine.Base.{
  ℕ, zero, suc, ◌+◌, ◌-◌, ◌≤◌, ◌==◌, ◌≡◌, refl, ap, sym, subst, Bool, true, false, ◌&&◌, Option,
  none, some, List, [], ◌∷◌, ◌++◌, length, ◌⊎◌, inl, inr, Bool-cases, if-cases, if◌then◌else◌,
  arith,
}
use bbtools_coroutine.Processer.{
  Processer, Lifecycle, preparing, active, retiring, exited, joined, is_active,
}
use bbtools_coroutine.Processer.Admission.{
  Origin, caller, forwarder, worker, Stage, idle, enqueues, rechecks, publishes, releases, returns,
  steals, hands, working, runs, pulls, quiesces, drains, drains_item, exits, exited_at,
  retires_lifecycle, retires_requests, Move, offers, forwards, robs, polls, picks, retires, goes_on,
  after, rejected, enqueue_begin, offer, release, steal_front, drain_front, pick_front, pull_front,
  to_global, go_on, step,
}

-- The calls of `_EnqueueAdmitted` that have counted themselves, and those that will enqueue.
abbrev pub enqueuing : Stage → ℕ
enqueuing (rechecks o x) = 1
enqueuing (publishes o x) = 1
enqueuing (releases o x b) = 1
enqueuing _ = 0

abbrev pub publishing : Stage → ℕ
publishing (publishes o x) = 1
publishing _ = 0

-- How often a thread holds the coroutine `x`.
abbrev pub held : ℕ → Stage → ℕ
held x (enqueues o y) = is_one x y
held x (rechecks o y) = is_one x y
held x (publishes o y) = is_one x y
held x (releases o y false) = is_one x y
held x (returns o y) = is_one x y
held x (hands n y) = is_one x y
held x (runs y) = is_one x y
held x (drains_item y) = is_one x y
held x _ = 0

abbrev pub is_over : Lifecycle → Bool
is_over exited = true
is_over joined = true
is_over _ = false

abbrev pub total : ℕ → Processer → ℕ
total x p =
    count x p.coroutine_queue
    + count x p.global_queue
    + count x p.elsewhere
    + count x p.gone
    + count x p.refused

abbrev pub Stands : Stage → Processer → Type 0
Stands drains p = p.drained ≡ true
Stands (drains_item x) p = p.drained ≡ true
Stands exits p = p.emptied ≡ true
Stands quiesces p = p.admission_open ≡ false
Stands retires_lifecycle p = p.admission_open ≡ false
Stands retires_requests p = p.admission_open ≡ false
Stands _ p = Unit

abbrev pub Grows : Processer → Processer → Type 0
Grows p q =
    ((q.admission_open ≡ p.admission_open) ⊎ (q.admission_open ≡ false))
    × ((q.drained ≡ p.drained) ⊎ (q.drained ≡ true))
    × ((q.emptied ≡ p.emptied) ⊎ (q.emptied ≡ true))
