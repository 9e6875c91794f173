-- ===== src/Processer/Driver/Safety/Runs.antt =====
-- Any number of threads on the driver's slot, in any interleaving.
use bbtools_coroutine.Base.{
  ℕ, zero, suc, ◌+◌, ◌≤◌, ◌≡◌, refl, sym, false, not, none, some, List, [], ◌∷◌, All, ◌⊎◌, inl, inr,
  if-cases, arith, sum, either_zero, bit,
}
use bbtools_coroutine.Processer.Driver.{
  Status, ok, invalid_target, Slot, is_slot, is_deferring, Frame, callback, terminal, section,
  Stage, idle, unregistered, looks, ends, elects, joins, adopts, waits, clears, detaches, Move,
  binds, calls, defers, undefers, unregisters, returns, goes_on, bind_driver, call_driver, start,
  go_on, step, step_at, run, all_idle, empty_slot,
}
use bbtools_coroutine.Processer.Driver.Safety.{
  leases, terminals, adopting, leading, refers, Sound, Stands, Keeps, Agrees, Fine, terminals-le,
}
use bbtools_coroutine.Processer.Driver.Safety.Steps.{
  Before, Keeps-self, still-Fine, look-Fine, lease-Fine, elect-Fine, check-Fine, fail-Fine,
  bind-Fine, callback-Fine, terminal-Fine,
}
use bbtools_coroutine.Processer.Driver.Safety.Detaching.{
  join-Fine, wait-Fine, adopt-Fine, clear-Fine, detach-Fine,
}

module _ (g n l a r : ℕ) (p : Slot) where
  go_on-Fine :
      (fs : List Frame) (s : Stage) → Before g n l a r fs s p → Fine g n l a r p (go_on fs s p)
  unfolding go_on
  go_on-Fine fs (looks k) h = lease-Fine g n l a r fs p k h
  go_on-Fine (callback k ∷ fs) ends h = callback-Fine g n l a r fs p k ends (refl, refl) h
  go_on-Fine fs (elects k) h = elect-Fine g n l a r fs p k h
  go_on-Fine fs (joins k) h = join-Fine g n l a r fs p k h
  go_on-Fine fs (adopts k) h = adopt-Fine g n l a r fs p k h
  go_on-Fine fs (waits k) h = wait-Fine g n l a r fs p k h
  go_on-Fine fs (clears k) h = clear-Fine g n l a r fs p k h
  go_on-Fine fs (detaches k) h = detach-Fine g n l a r fs p k h
  go_on-Fine fs s (h, u, f) = (h, u, f, inr (Keeps-self g p))

  rests :
      (fs : List Frame) (s : Stage)
      → (adopting g s ≡ 0) × (leading g s ≡ 0)
      → Before g n l a r fs s p
      → Before g n l a r fs (idle ok) p
  unfolding Agrees
  rests fs s e (h, u, f) = (ground (arith, e, h), tt, f)

  start-Fine :
      (m : Move) (fs : List Frame) (s : Stage)
      → n ≤ r
      → l ≤ r
      → a ≤ r
      → Before g n l a r fs (idle ok) p
      → Before g n l a r fs s p
      → Fine g n l a r p (start m fs s p)
  unfolding start leases terminals Sound bind_driver call_driver
  start-Fine binds fs s nr lr ar h i =
      if-cases (λ (y : Status × Slot). Fine g n l a r p (fs, idle y.0, y.1)) (not p.is_active) _ _
        (λ t.
          still-Fine g n l a r fs p (idle ok) (idle invalid_target) (refl, refl, omega arith) tt h)
        (λ t. bind-Fine g n l a r fs p ok p.driver_binding refl nr lr ar h)
  start-Fine calls fs s nr lr ar h i =
      look-Fine g n l a r fs p ok (is_deferring fs) p.driver_binding refl h
  start-Fine defers fs s nr lr ar (h, u, f) i = (h, tt, f, inr (Keeps-self g p))
  start-Fine undefers (section ∷ fs) s nr lr ar (h, u, f) i = (h, tt, f, inr (Keeps-self g p))
  start-Fine (unregisters k) fs s nr lr ar h i =
      check-Fine g n l a r fs p (idle ok) k (refl, refl) h
  start-Fine (returns none) (callback k ∷ fs) s nr lr ar h i =
      callback-Fine g n l a r fs p k (idle ok) (refl, refl) h
  start-Fine (returns (some x)) (callback k ∷ fs) s nr lr ar h i =
      fail-Fine g n l a r (callback k ∷ fs) p k x ok h
  start-Fine (returns x) (terminal k ∷ fs) s nr lr ar h i = terminal-Fine g n l a r fs p k ok h
  start-Fine m fs s nr lr ar h (i, u, f) = (i, u, f, inr (Keeps-self g p))

  step-Fine :
      (m : Move) (fs : List Frame) (s : Stage)
      → n ≤ r
      → l ≤ r
      → a ≤ r
      → Before g n l a r fs s p
      → Fine g n l a r p (step m fs s p)
  unfolding step
  step-Fine m fs (idle v) nr lr ar h =
      start-Fine m fs (idle v) nr lr ar (rests fs (idle v) (refl, refl) h) h
  step-Fine m fs (unregistered k) nr lr ar h =
      start-Fine m fs (unregistered k) nr lr ar (rests fs (unregistered k) (refl, refl) h) h
  step-Fine goes_on fs s nr lr ar h = go_on-Fine fs s h
  step-Fine m fs s nr lr ar (h, u, f) = (h, u, f, inr (Keeps-self g p))

abbrev pub Thread : Type 0
Thread = List Frame × Stage

module _ (g : ℕ) where
  -- The leases that a thread has, the last Wakes that it runs or owes, those it owes, and its references.
  abbrev pub holding : Thread → ℕ
  holding (fs, s) = leases g fs + adopting g s

  abbrev pub leaders : Thread → ℕ
  leaders (fs, s) = terminals g fs + leading g s

  abbrev pub owing : Thread → ℕ
  owing (fs, s) = adopting g s

  abbrev pub refs : Thread → ℕ
  refs (fs, s) = leases g fs + refers g s

  stage-le : (s : Stage) → (adopting g s ≤ refers g s) × (leading g s ≤ refers g s)
  stage-le s = ground arith

  thread-le : (t : Thread) → (holding t ≤ refs t) × (leaders t ≤ refs t) × (owing t ≤ refs t)
  thread-le (fs, s) =
      let (e, f) = stage-le s in
      (omega (arith, e), omega (arith, f, terminals-le g fs), omega (arith, e))

  sum-le :
      (ts : List Thread)
      → (sum holding ts ≤ sum refs ts)
        × (sum leaders ts ≤ sum refs ts)
        × (sum owing ts ≤ sum refs ts)
  unfolding sum
  sum-le [] = (omega arith, omega arith, omega arith)
  sum-le (t ∷ ts) =
      let (a, b, c) = thread-le t in
      let (d, e, f) = sum-le ts in (omega (arith, a, d), omega (arith, b, e), omega (arith, c, f))

  owing-le : (ts : List Thread) → sum owing ts ≤ sum leaders ts
  unfolding sum
  owing-le [] = omega arith
  owing-le ((fs, s) ∷ ts) = ground (arith, owing-le ts)

  Stands-Keeps :
      (fs : List Frame) (s : Stage) (p d : Slot)
      → (refs (fs, s) ≡ 0) ⊎ Keeps g p d
      → Stands g fs s p
      → Stands g fs s d
  Stands-Keeps fs (idle v) p d k u = tt
  Stands-Keeps fs ends p d k u = tt
  Stands-Keeps fs (looks i) p d k u = tt
  Stands-Keeps fs (elects i) p d k u = u
  Stands-Keeps fs (joins i) p d k u = u
  Stands-Keeps fs (adopts i) p d k u = u
  Stands-Keeps fs (waits i) p d k u = (u.0, ground (arith, u.1, k))
  Stands-Keeps fs (clears i) p d k u = (u.0, ground (arith, u.1, k))
  Stands-Keeps fs (detaches i) p d k u = (u.0, ground (arith, u.1, k))
  Stands-Keeps fs (unregistered i) p d k u = ground (arith, u, k)

  Ready : Slot → Thread → Type 0
  Ready p (fs, s) = Stands g fs s p × Sound g fs

  All-Keeps :
      (ts : List Thread) (p d : Slot)
      → (sum refs ts ≡ 0) ⊎ Keeps g p d
      → All (Ready p) ts
      → All (Ready d) ts
  unfolding sum Ready
  All-Keeps [] p d k u = tt
  All-Keeps ((fs, s) ∷ ts) p d k ((u, f), us) =
      let (mine, rest) = either_zero (refs (fs, s)) (sum refs ts) k in
      ((Stands-Keeps fs s p d mine u, f), All-Keeps ts p d rest us)

  -- The binding, beside threads that are elsewhere.
  Counted : ℕ → ℕ → ℕ → ℕ → List Thread × Slot → Type 0
  Counted n l a r (ts, p) =
      Agrees g (n + sum holding ts) (l + sum leaders ts) (a + sum owing ts) (r + sum refs ts) p
      × All (Ready p) ts

  cast :
      {n n' l l' a a' r r' : ℕ} (p : Slot)
      → n ≡ n'
      → l ≡ l'
      → a ≡ a'
      → r ≡ r'
      → Agrees g n l a r p
      → Agrees g n' l' a' r' p
  cast p en el ea er h = rw (sym en, sym el, sym ea, sym er) h

  step_at-Counted :
      (i : ℕ) (m : Move) (ts : List Thread) (p : Slot) (n l a r : ℕ)
      → (n ≤ r) × (l ≤ r) × (a ≤ r)
      → Counted n l a r (ts, p)
      → Counted n l a r (step_at i m ts p) × ((r ≡ 0) ⊎ Keeps g p (step_at i m ts p).1)
  unfolding step_at sum Counted Ready
  step_at-Counted i m [] p n l a r le h = (h, inr (Keeps-self g p))
  step_at-Counted zero m ((fs, s) ∷ ts) p n l a r le (h, ((u, f), us)) =
      let (b, c, d) = sum-le ts in
      let (kept, u', f', keeps) =
        step-Fine g (n + sum holding ts) (l + sum leaders ts) (a + sum owing ts) (r + sum refs ts) p
          m fs s (omega (arith, le.0, b)) (omega (arith, le.1, c)) (omega (arith, le.2, d))
          (cast p (omega arith) (omega arith) (omega arith) (omega arith) h, u, f) in
      let (fs', s', q) = step m fs s p in
      let (mine, rest) = either_zero r (sum refs ts) keeps in
      (
        (
          cast q (omega arith) (omega arith) (omega arith) (omega arith) kept,
          ((u', f'), All-Keeps ts p q rest us),
        ),
        mine,
      )
  step_at-Counted (suc i) m ((fs, s) ∷ ts) p n l a r le (h, ((u, f), us)) =
      let (b, c, d) = thread-le (fs, s) in
      let ((kept, us'), keeps) =
        step_at-Counted i m ts p (n + holding (fs, s)) (l + leaders (fs, s)) (a + owing (fs, s))
          (r + refs (fs, s))
          (omega (arith, le.0, b), omega (arith, le.1, c), omega (arith, le.2, d))
          (cast p (omega arith) (omega arith) (omega arith) (omega arith) h, us) in
      let (ts', q) = step_at i m ts p in
      let (mine, rest) = either_zero r (refs (fs, s)) keeps in
      (
        (
          cast q (omega arith) (omega arith) (omega arith) (omega arith) kept,
          ((Stands-Keeps fs s p q rest u, f), us'),
        ),
        mine,
      )

  run-Counted :
      (ms : List (ℕ × Move)) (ts : List Thread) (p : Slot)
      → Counted 0 0 0 0 (ts, p)
      → Counted 0 0 0 0 (run ms ts p)
  unfolding run
  run-Counted [] ts p h = h
  run-Counted ((i, m) ∷ ms) ts p h =
      let (ts', q) = step_at i m ts p in
      run-Counted ms ts' q
        (step_at-Counted i m ts p 0 0 0 0 (omega arith, omega arith, omega arith) h).0

  all_idle-Counted : (c : ℕ) → Counted 0 0 0 0 (all_idle c, empty_slot)
  unfolding sum Counted Ready Agrees leases terminals Sound
  all_idle-Counted zero = ((refl, refl, refl, inl refl, inl refl, inr (refl, refl)), tt)
  all_idle-Counted (suc c) = let (h, us) = all_idle-Counted c in (ground (arith, h), ((tt, tt), us))

  All-Stands : (ts : List Thread) (p : Slot) → All (Ready p) ts → All (λ t. Stands g t.0 t.1 p) ts
  unfolding Ready
  All-Stands [] p us = tt
  All-Stands (t ∷ ts) p (u, us) = (u.0, All-Stands ts p us)

  module _ (c : ℕ) (ms : List (ℕ × Move)) where
    at_end : Counted 0 0 0 0 (run ms (all_idle c) empty_slot)
    at_end = run-Counted ms (all_idle c) empty_slot (all_idle-Counted c)

    -- Any number of threads bind drivers to a processer's slot, call them, nest such calls, defer
    -- wakes, let callbacks fail and unregister drivers, with any tokens and in any interleaving. For
    -- each generation, the count of the leases is that of the callbacks that run and of the last Wakes
    -- that run or are owed; the last Wake has been called or is owed exactly once if an Unregister
    -- passed its checks and was elected, and else never; and whenever the generation is detached, none
    -- of its callbacks runs, it is not in the slot, and its last Wake has been called once.
    pub run-detaches :
        let (ts, p) = run ms (all_idle c) empty_slot in
        let b = p.bindings g in
        (b.inflight ≡ sum holding ts)
        × (b.wakes + sum owing ts ≡ bit b.terminal_wake_reserved)
        × ((b.detached ≡ false)
            ⊎ (sum holding ts ≡ 0) × (is_slot g p.driver_binding ≡ false) × (b.wakes ≡ 1))
    unfolding Counted Agrees
    run-detaches =
        let (ts, p) = run ms (all_idle c) empty_slot in
        let (h, us) = at_end in ground (arith, h, owing-le ts)

    -- Any number of threads bind drivers to a processer's slot, call them, nest such calls, let
    -- callbacks fail and unregister drivers, in any interleaving. A thread whose Unregister of a
    -- generation has just returned Ok finds that generation detached; a thread that waits for the end
    -- of the generation's leases, or for another thread that does so, holds none of them itself, so
    -- that none waits for itself; and a thread that clears the slot finds no lease left.
    pub run-unregisters :
        let (ts, p) = run ms (all_idle c) empty_slot in All (λ t. Stands g t.0 t.1 p) ts
    unfolding Counted
    run-unregisters = let (ts, p) = run ms (all_idle c) empty_slot in All-Stands ts p at_end.1
