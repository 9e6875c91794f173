-- ===== src/Processer/Driver/Safety/Detaching.antt =====
-- The steps of _UnregisterDriver, beside other threads.
use bbtools_coroutine.Base.{
  ℕ, ◌+◌, ◌≡◌, ◌==◌, refl, true, false, List, ◌∷◌, ◌⊎◌, inl, inr, if-cases, if◌then◌else◌, arith,
}
use bbtools_coroutine.Processer.Driver.{
  ok, Slot, set, is_slot, Frame, terminal, Stage, idle, unregistered, joins, adopts, waits, clears,
  detaches, clear_slot,
}
use bbtools_coroutine.Processer.Driver.Safety.{
  same-cases, leases, terminals, Sound, Stands, Agrees, Fine,
}
use bbtools_coroutine.Processer.Driver.Safety.Steps.{Before, still-Fine}

module _ (g n l a r : ℕ) (fs : List Frame) (p : Slot) where
  pub join-Fine :
      (k : ℕ)
      → Before g n l a r fs (joins k) p
      → Fine g n l a r p (fs, if (p.bindings k).detached then unregistered k else joins k, p)
  unfolding Agrees
  join-Fine k (h, u, f) =
      if-cases (λ (y : Stage). Fine g n l a r p (fs, y, p)) (p.bindings k).detached (unregistered k)
        (joins k)
        (λ t.
          still-Fine g n l a r fs p (joins k) (unregistered k) (refl, refl, omega arith)
            (same-cases
              (λ k.
                (p.bindings k).detached ≡ true
                → ((k == g) ≡ false) ⊎ ((p.bindings g).detached ≡ true))
              k g (λ t. inr t) (λ ne t. inl ne) t)
            (h, u, f))
        (λ t. still-Fine g n l a r fs p (joins k) (joins k) (refl, refl, omega arith) u (h, u, f))

  pub wait-Fine :
      (k : ℕ)
      → Before g n l a r fs (waits k) p
      → Fine g n l a r p (fs, if (p.bindings k).inflight == 0 then clears k else waits k, p)
  wait-Fine k (h, u, f) =
      if-cases (λ (y : Stage). Fine g n l a r p (fs, y, p)) ((p.bindings k).inflight == 0)
        (clears k) (waits k)
        (λ t.
          still-Fine g n l a r fs p (waits k) (clears k) (refl, refl, omega arith)
            (same-cases
              (λ k.
                ((p.bindings k).inflight == 0) ≡ true
                → Stands g fs (waits k) p
                → Stands g fs (clears k) p)
              k g (λ t w. ground (arith, t, w)) (λ ne t w. (w.0, inl ne)) t u)
            (h, u, f))
        (λ t. still-Fine g n l a r fs p (waits k) (waits k) (refl, refl, omega arith) u (h, u, f))

  pub adopt-Fine :
      (k : ℕ)
      → Before g n l a r fs (adopts k) p
      → Fine g n l a r p (
        terminal k ∷ fs,
        idle ok,
        set k (record (p.bindings k) { wakes = (p.bindings k).wakes + 1 }) p,
      )
  unfolding Agrees leases terminals Sound
  adopt-Fine k h =
      same-cases
        (λ k.
          Before g n l a r fs (adopts k) p
          → Fine g n l a r p (
            terminal k ∷ fs,
            idle ok,
            set k (record (p.bindings k) { wakes = (p.bindings k).wakes + 1 }) p,
          ))
        k g (λ (h, u, f). (ground (arith, h), tt, (u, f), ground (arith, h)))
        (λ ne (h, u, f). (ground (arith, ne, h), tt, (u, f), ground (arith, ne))) h

  pub clear-Fine :
      (k : ℕ) → Before g n l a r fs (clears k) p → Fine g n l a r p (fs, detaches k, clear_slot k p)
  unfolding clear_slot Agrees
  clear-Fine k h =
      same-cases
        (λ k. Before g n l a r fs (clears k) p → Fine g n l a r p (fs, detaches k, clear_slot k p))
        k g
        (λ (h, u, f).
          if-cases (λ (d : Slot). Fine g n l a r p (fs, detaches g, d)) (is_slot g p.driver_binding)
            _ p (λ t. (ground (arith, h), ground (arith, h, u), f, ground (arith, h)))
            (λ t. (ground (arith, h), ground (arith, t, h, u), f, ground (arith, h))))
        (λ ne (h, u, f).
          if-cases (λ (d : Slot). Fine g n l a r p (fs, detaches k, d)) (is_slot k p.driver_binding)
            _ p (λ t. (ground (arith, ne, h), (u.0, inl ne), f, ground (arith, ne, h)))
            (λ t. (ground (arith, ne, h), (u.0, inl ne), f, ground (arith, ne, h))))
        h

  pub detach-Fine :
      (k : ℕ)
      → Before g n l a r fs (detaches k) p
      → Fine g n l a r p (fs, unregistered k, set k (record (p.bindings k) { detached = true }) p)
  unfolding Agrees
  detach-Fine k h =
      same-cases
        (λ k.
          Before g n l a r fs (detaches k) p
          → Fine g n l a r p
              (fs, unregistered k, set k (record (p.bindings k) { detached = true }) p))
        k g (λ (h, u, f). (ground (arith, h, u), ground arith, f, ground (arith, h)))
        (λ ne (h, u, f). (ground (arith, ne, h), inl ne, f, ground (arith, ne))) h
