-- ===== src/Processer/Driver/Safety/Steps.antt =====
-- Each step on the driver's slot, beside other threads.
use bbtools_coroutine.Base.{
  ℕ, ◌+◌, ◌-◌, ◌^◌, ◌≤◌, ◌≡◌, ◌==◌, refl, ap, sym, Bool, true, false, not, ◌&&◌, ◌||◌, Option, none,
  some, List, ◌∷◌, ◌⊎◌, inl, inr, Bool-cases, if-cases, if◌then◌else◌, arith,
}
use bbtools_coroutine.Processer.Driver.{
  Status, ok, stale_token, self_detach, DriverState, bound, failed, detaching, Failure, Binding,
  Slot, is_detaching, is_slot, is_deferring, Frame, callback, terminal, holds, Stage, idle, looks,
  ends, elects, joins, waits, granted, lease, unlease, driver_fail_at, driver_fail, bind_slot,
  unregister_checks, elect,
}
use bbtools_coroutine.Processer.Driver.Safety.{
  same-cases, leases, terminals, adopting, leading, refers, Sound, Stands, Keeps, Agrees, Fine,
  terminals-le,
}

-- The counts of a thread, and what its stage says, beside the others.
abbrev pub Before : ℕ → ℕ → ℕ → ℕ → ℕ → List Frame → Stage → Slot → Type 0
Before g n l a r fs s p =
    Agrees g (n + leases g fs + adopting g s) (l + terminals g fs + leading g s) (a + adopting g s)
      (r + leases g fs + refers g s) p
    × Stands g fs s p
    × Sound g fs

pub Keeps-self : (g : ℕ) (p : Slot) → Keeps g p p
Keeps-self g p = (inl refl, inl refl, ground arith, omega arith, ground arith)

driver_fail_at_same :
    (q : DriverState) (x : Failure) (b : Binding)
    → b.state ≡ q
    → let c = driver_fail_at q x b in
      (c.inflight ≡ b.inflight)
      × (c.detached ≡ b.detached)
      × (c.terminal_wake_reserved ≡ b.terminal_wake_reserved)
      × (c.wakes ≡ b.wakes)
      × (is_detaching c.state ≡ is_detaching b.state)
unfolding driver_fail_at
driver_fail_at_same bound x b e = (refl, refl, refl, refl, sym (ap is_detaching e))
driver_fail_at_same failed x b e = (refl, refl, refl, refl, refl)
driver_fail_at_same detaching x b e = (refl, refl, refl, refl, refl)

not-false : (b : Bool) → not b ≡ false → b ≡ true
not-false b h = ground arith

module _ (g n l a r : ℕ) (fs : List Frame) (p : Slot) where
  slot_le :
      (k : ℕ)
      → is_slot k p.driver_binding ≡ true
      → ((k == g) ≡ false) ⊎ (is_slot g p.driver_binding ≡ true)
  slot_le k t =
      same-cases
        (λ k.
          is_slot k p.driver_binding ≡ true
          → ((k == g) ≡ false) ⊎ (is_slot g p.driver_binding ≡ true))
        k g (λ t. inr t) (λ ne t. inl ne) t

  unheld : (k : ℕ) → is_deferring fs || holds k fs ≡ false → ((k == g) && holds g fs) ≡ false
  unheld k t =
      same-cases (λ k. is_deferring fs || holds k fs ≡ false → ((k == g) && holds g fs) ≡ false) k g
        (λ t. ground (arith, t)) (λ ne t. ground (arith, ne)) t

  -- A call that changes nothing shared.
  pub still-Fine :
      (s s' : Stage)
      → (adopting g s' ≡ adopting g s) × (leading g s' ≡ leading g s) × (refers g s' ≤ refers g s)
      → Stands g fs s' p
      → Before g n l a r fs s p
      → Fine g n l a r p (fs, s', p)
  unfolding Agrees
  still-Fine s s' e t (h, u, f) = (ground (arith, e, h), t, f, inr (Keeps-self g p))

  pub look-Fine :
      (v : Status) (b : Bool) (o : Option ℕ)
      → p.driver_binding ≡ o
      → Before g n l a r fs (idle v) p
      → Fine g n l a r p
          (fs, if b then idle ok else elim o [ none ↦ idle ok | some k ↦ looks k ], p)
  unfolding Agrees
  look-Fine v true o e h = still-Fine (idle v) (idle ok) (refl, refl, omega arith) tt h
  look-Fine v false none e h = still-Fine (idle v) (idle ok) (refl, refl, omega arith) tt h
  look-Fine v false (some k) e (h, u, f) =
      let at_slot : is_slot g p.driver_binding ≡ (k == g) = ap (is_slot g) e in
      (ground (arith, h, at_slot), tt, f, inr (Keeps-self g p))

  pub lease-Fine : (k : ℕ) → Before g n l a r fs (looks k) p → Fine g n l a r p (lease k fs p)
  unfolding lease granted leases terminals Sound Agrees
  lease-Fine k h =
      same-cases (λ k. Before g n l a r fs (looks k) p → Fine g n l a r p (lease k fs p)) k g
        (λ (h, u, f).
          if-cases (Fine g n l a r p) (granted false (p.bindings g)) _ _
            (λ t. (ground (arith, t, h), tt, f, ground (arith, t, h)))
            (λ t. still-Fine (looks g) (idle ok) (refl, refl, omega arith) tt (h, u, f)))
        (λ ne (h, u, f).
          if-cases (Fine g n l a r p) (granted false (p.bindings k)) _ _
            (λ t. (ground (arith, ne, h), tt, f, ground (arith, ne)))
            (λ t. still-Fine (looks k) (idle ok) (refl, refl, omega arith) tt (h, u, f)))
        h

  pub elect-Fine :
      (k : ℕ)
      → Before g n l a r fs (elects k) p
      → Fine g n l a r p (fs, (elect k p).0, (elect k p).1)
  unfolding elect Agrees
  elect-Fine k h =
      same-cases
        (λ k.
          Before g n l a r fs (elects k) p → Fine g n l a r p (fs, (elect k p).0, (elect k p).1))
        k g
        (λ (h, u, f).
          if-cases (λ (y : Stage × Slot). Fine g n l a r p (fs, y.0, y.1))
            (not (p.bindings g).terminal_wake_reserved) _ _
            (λ t. (ground (arith, t, h), u, f, ground (arith, t, h)))
            (λ t. still-Fine (elects g) (joins g) (refl, refl, omega arith) u (h, u, f)))
        (λ ne (h, u, f).
          if-cases (λ (y : Stage × Slot). Fine g n l a r p (fs, y.0, y.1))
            (not (p.bindings k).terminal_wake_reserved) _ _
            (λ t. (ground (arith, ne, h), u, f, ground (arith, ne)))
            (λ t. still-Fine (elects k) (joins k) (refl, refl, omega arith) u (h, u, f)))
        h

  pub check-Fine :
      (s : Stage) (k : ℕ)
      → (adopting g s ≡ 0) × (leading g s ≡ 0)
      → Before g n l a r fs s p
      → Fine g n l a r p (fs, unregister_checks k fs p, p)
  unfolding unregister_checks Agrees
  check-Fine s k e (h, u, f) =
      let at_rest : Fine g n l a r p (fs, idle stale_token, p) =
        (ground (arith, e, h), tt, f, inr (Keeps-self g p)) in
      if-cases (λ (y : Stage). Fine g n l a r p (fs, y, p)) (not (is_slot k p.driver_binding))
        (idle stale_token) _ (λ t. at_rest)
        (λ t.
          if-cases (λ (y : Stage). Fine g n l a r p (fs, y, p)) (is_deferring fs || holds k fs)
            (idle self_detach) (elects k) (λ t'. at_rest)
            (λ t'. (
              ground (arith, e, h, slot_le k (not-false (is_slot k p.driver_binding) t)),
              unheld k t',
              f,
              inr (Keeps-self g p),
            )))

  pub fail-Fine :
      (k : ℕ) (x : Failure) (v : Status)
      → Before g n l a r fs (idle v) p
      → Fine g n l a r p (fs, ends, driver_fail k x p)
  unfolding driver_fail driver_fail_at Agrees
  fail-Fine k x v h =
      same-cases
        (λ k. Before g n l a r fs (idle v) p → Fine g n l a r p (fs, ends, driver_fail k x p)) k g
        (λ (h, u, f).
          let same = driver_fail_at_same (p.bindings g).state x (p.bindings g) refl in
          (ground (arith, h, same), tt, f, ground (arith, h, same)))
        (λ ne (h, u, f). (ground (arith, ne, h), tt, f, ground (arith, ne, h))) h

  pub bind-Fine :
      (v : Status) (o : Option ℕ)
      → p.driver_binding ≡ o
      → n ≤ r
      → l ≤ r
      → a ≤ r
      → Before g n l a r fs (idle v) p
      → Fine g n l a r p (fs, idle (bind_slot o p).0, (bind_slot o p).1)
  unfolding bind_slot Agrees
  bind-Fine v (some k) e nr lr ar (h, u, f) = (ground (arith, h), tt, f, inr (Keeps-self g p))
  bind-Fine v none e nr lr ar (h, u, f) =
      let k = p.next_generation + 1 in
      let vacant : is_slot g p.driver_binding ≡ false = ap (is_slot g) e in
      if-cases (λ (y : Status × Slot). Fine g n l a r p (fs, idle y.0, y.1))
        (p.next_generation == 2 ^ 64 - 1) _ _
        (λ t. (ground (arith, h), tt, f, inr (Keeps-self g p)))
        (λ t. elim (Bool-cases (p.next_generation + 1 == g)) [
          | inl at_g ↦ (
            ground (arith, at_g, h, nr, lr, ar, terminals-le g fs),
            tt,
            f,
            ground (arith, at_g, h),
          )
          | inr ne ↦ (ground (arith, ne, h, vacant), tt, f, ground (arith, ne, h, vacant))
        ])

module _ (g n l a r : ℕ) (fs : List Frame) (p : Slot) where
  pub callback-Fine :
      (k : ℕ) (v : Stage)
      → (adopting g v ≡ 0) × (leading g v ≡ 0)
      → Before g n l a r (callback k ∷ fs) v p
      → Fine g n l a r p (fs, idle ok, unlease k p)
  unfolding leases terminals Sound Agrees
  callback-Fine k v e h =
      same-cases
        (λ k. Before g n l a r (callback k ∷ fs) v p → Fine g n l a r p (fs, idle ok, unlease k p))
        k g (λ (h, u, f). (ground (arith, e, h), tt, f, ground (arith, h)))
        (λ ne (h, u, f). (ground (arith, ne, e, h), tt, f, ground (arith, ne, h))) h

  pub terminal-Fine :
      (k : ℕ) (v : Status)
      → Before g n l a r (terminal k ∷ fs) (idle v) p
      → Fine g n l a r p (fs, waits k, unlease k p)
  unfolding leases terminals Sound Agrees
  terminal-Fine k v h =
      same-cases
        (λ k.
          Before g n l a r (terminal k ∷ fs) (idle v) p
          → Fine g n l a r p (fs, waits k, unlease k p))
        k g (λ (h, u, f). (ground (arith, h), ground (arith, h, f), f.1, ground (arith, h)))
        (λ ne (h, u, f).
          (ground (arith, ne, h), ground (arith, ne, h, f), f.1, ground (arith, ne, h)))
        h
