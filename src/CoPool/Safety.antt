-- ===== src/CoPool/Safety.antt =====
-- What every step of a pool of coroutines keeps.
pub mod Runs
use bbtools_coroutine.Base.Bags.{take_at, is_one, count, count-snoc, Front, take_at-Front}
use bbtools_coroutine.Base.{
  ℕ, zero, suc, ◌+◌, ◌-◌, ◌≤◌, ◌==◌, ◌≡◌, refl, Bool, true, false, Option, none, some, List, [],
  ◌∷◌, ◌++◌, length, ◌⊎◌, inl, inr, if-cases, if◌then◌else◌, arith,
}
use bbtools_coroutine.CoPool.{
  CoPool, Ending, finishes, throws, handle_exception, Stage, starts, loops, takes, waits, leaves,
  downs, ended, runs, runs_on, idle, submits, predrains, releases, polls, awaits_latch, drains,
  released, Move, submit, release, destroy, goes_on, take_work, drain_work, enqueue_work, go_on,
  start_submit, step,
}

-- The coroutines of the pool that count as running, and those that have a place in the latch.
abbrev pub counted : Stage → ℕ
counted (loops mon) = 1
counted (takes mon) = 1
counted (waits mon) = 1
counted (leaves mon) = 1
counted (runs x) = 1
counted (runs_on x) = 1
counted _ = 0

abbrev pub latched : Stage → ℕ
latched (starts mon) = 1
latched (downs mon) = 1
latched s = counted s

-- How often a stage holds the work `x`.
abbrev pub held : ℕ → Stage → ℕ
held x (runs y) = is_one x y
held x (submits y) = is_one x y
held x _ = 0

abbrev pub is_past : Stage → Bool
is_past drains = true
is_past released = true
is_past _ = false

abbrev pub total : ℕ → CoPool → ℕ
total x p = count x p.works_queue + count x p.executed + count x p.discarded + count x p.refused

-- The pool counts `r` running coroutines and `l` places of the latch, and `x` is held `h` times.
unfoldable pub Agrees : ℕ → ℕ → ℕ → ℕ → CoPool → Type 0
Agrees x r l h p = (p.running_co_num ≡ r) × (p.latch ≡ l) × (total x p + h ≡ count x p.submitted)

abbrev pub Stands : Stage → CoPool → Type 0
Stands s p = (is_past s ≡ false) ⊎ (p.latch ≡ 0)

abbrev pub Fine : ℕ → ℕ → ℕ → ℕ → CoPool → Stage × CoPool → Type 0
Fine x r l h p (s, d) =
    Agrees x (r + counted s) (l + latched s) (h + held x s) d × Stands s d × (d.latch ≤ p.latch)

module _ (x r l h : ℕ) (p : CoPool) where
  abbrev Before : Stage → Type 0
  Before s = Agrees x (r + counted s) (l + latched s) (h + held x s) p × Stands s p

  take-Fine :
      (o : Option (ℕ × List ℕ))
      → Front x p.works_queue o
      → Before (takes false)
      → Fine x r l h p (take_work o p)
  unfolding take_work Agrees
  take-Fine none f (a, t) = (a, inl refl, omega arith)
  take-Fine (some (y, rest)) f (a, t) = (ground (arith, f, a), inl refl, omega arith)

  predrain-Fine :
      (o : Option (ℕ × List ℕ))
      → Front x p.works_queue o
      → Before predrains
      → Fine x r l h p (drain_work predrains releases o p)
  unfolding drain_work Agrees count
  predrain-Fine none f (a, t) = (a, inl refl, omega arith)
  predrain-Fine (some (y, rest)) f (a, t) = (ground (arith, f, a), inl refl, omega arith)

  drain-Fine :
      (o : Option (ℕ × List ℕ))
      → Front x p.works_queue o
      → Before drains
      → Fine x r l h p (drain_work drains released o p)
  unfolding drain_work Agrees count
  drain-Fine none f (a, t) = (a, t, omega arith)
  drain-Fine (some (y, rest)) f (a, t) = (ground (arith, f, a), t, omega arith)

  handle-Fine :
      (e : Ending) (y : ℕ) → Before (runs_on y) → Fine x r l h p (loops false, handle_exception e p)
  unfolding handle_exception Agrees
  handle-Fine finishes y (a, t) = (a, inl refl, omega arith)
  handle-Fine (throws true c) y (a, t) = (a, inl refl, omega arith)
  handle-Fine (throws false (some false)) y (a, t) = (a, inl refl, omega arith)
  handle-Fine (throws false (some true)) y (a, t) = (a, inl refl, omega arith)
  handle-Fine (throws false none) y (a, t) = (a, inl refl, omega arith)

  enqueue-Fine : (b : Bool) (y : ℕ) → Before (submits y) → Fine x r l h p (idle, enqueue_work b y p)
  unfolding enqueue_work Agrees count
  enqueue-Fine true y (a, t) =
      (ground (arith, a, count-snoc x y p.works_queue), inl refl, omega arith)
  enqueue-Fine false y (a, t) = (ground (arith, a), inl refl, omega arith)

  submit-Fine : (y : ℕ) → Before idle → Fine x r l h p (start_submit y p)
  unfolding start_submit Agrees count
  submit-Fine y (a, t) =
      if-cases (Fine x r l h p) p.is_running _ _ (λ _. (ground (arith, a), inl refl, omega arith))
        (λ _. (ground (arith, a), inl refl, omega arith))

  stage-Fine :
      (s s' : Stage)
      → (counted s' ≡ counted s) × (latched s' ≡ latched s) × (held x s' ≡ held x s)
      → Stands s' p
      → Before s
      → Fine x r l h p (s', p)
  unfolding Agrees
  stage-Fine s s' e t' (a, t) = (ground (arith, e, a), t', omega arith)

  go_on-Fine :
      (n : ℕ) (b : Bool) (e : Ending) (s : Stage) → Before s → Fine x r l h p (go_on n b e s p)
  unfolding go_on Agrees count
  go_on-Fine n b e (starts mon) (a, t) = (ground (arith, a), inl refl, omega arith)
  go_on-Fine n b e (loops mon) h' =
      if-cases (λ (s : Stage). Fine x r l h p (s, p)) p.is_running
        (if mon then waits true else takes false) (leaves mon)
        (λ _.
          if-cases (λ (s : Stage). Fine x r l h p (s, p)) mon (waits true) (takes false)
            (λ _. stage-Fine (loops mon) (waits true) (refl, refl, refl) (inl refl) h')
            (λ _. stage-Fine (loops mon) (takes false) (refl, refl, refl) (inl refl) h'))
        (λ _. stage-Fine (loops mon) (leaves mon) (refl, refl, refl) (inl refl) h')
  go_on-Fine n b e (takes mon) h' =
      if-cases (Fine x r l h p) b _ (waits mon, p)
        (λ _. take-Fine (take_at n p.works_queue) (take_at-Front x n p.works_queue) h')
        (λ _. stage-Fine (takes mon) (waits mon) (refl, refl, refl) (inl refl) h')
  go_on-Fine n b e (waits mon) h' =
      stage-Fine (waits mon) (loops mon) (refl, refl, refl) (inl refl) h'
  go_on-Fine n b e (runs y) (a, t) = (ground (arith, a), inl refl, omega arith)
  go_on-Fine n b e (runs_on y) h' = handle-Fine e y h'
  go_on-Fine n b e (leaves mon) (a, t) = (ground (arith, a), inl refl, omega arith)
  go_on-Fine n b e (downs mon) (a, t) = (ground (arith, a), inl refl, omega arith)
  go_on-Fine n b e (submits y) h' = enqueue-Fine b y h'
  go_on-Fine n b e predrains h' =
      predrain-Fine (take_at n p.works_queue) (take_at-Front x n p.works_queue) h'
  go_on-Fine n b e releases (a, t) = (a, inl refl, omega arith)
  go_on-Fine n b e polls h' =
      if-cases (λ (s : Stage). Fine x r l h p (s, p)) (p.running_co_num == 0) awaits_latch polls
        (λ _. stage-Fine polls awaits_latch (refl, refl, refl) (inl refl) h')
        (λ _. stage-Fine polls polls (refl, refl, refl) (inl refl) h')
  go_on-Fine n b e awaits_latch h' =
      if-cases (λ (s : Stage). Fine x r l h p (s, p)) (p.latch == 0) drains awaits_latch
        (λ z. stage-Fine awaits_latch drains (refl, refl, refl) (inr (ground (arith, z))) h')
        (λ _. stage-Fine awaits_latch awaits_latch (refl, refl, refl) (inl refl) h')
  go_on-Fine n b e drains h' =
      drain-Fine (take_at n p.works_queue) (take_at-Front x n p.works_queue) h'
  go_on-Fine n b e s (a, t) = (a, t, omega arith)

  pub step-Fine : (m : Move) (s : Stage) → Before s → Fine x r l h p (step m s p)
  unfolding step Agrees
  step-Fine (submit y) idle h' = submit-Fine y h'
  step-Fine release idle (a, t) = (a, inl refl, omega arith)
  step-Fine destroy idle (a, t) = (a, inl refl, omega arith)
  step-Fine (goes_on n b e) s h' = go_on-Fine n b e s h'
  step-Fine m s (a, t) = (a, t, omega arith)
