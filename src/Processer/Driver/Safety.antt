-- ===== src/Processer/Driver/Safety.antt =====
-- What every step on the driver's slot keeps.
pub mod Steps
pub mod Detaching
pub mod Runs
use bbtools_coroutine.Base.{
  ℕ, zero, suc, ◌+◌, ◌≤◌, ◌<◌, ◌≡◌, ◌==◌, ==_iff, refl, sym, subst, Bool, true, false, ◌&&◌, List,
  [], ◌∷◌, ◌⊎◌, inl, inr, Bool-cases, if◌then◌else◌, arith, bit,
}
use bbtools_coroutine.Processer.Driver.{
  Binding, Slot, is_detaching, is_slot, Frame, callback, terminal, section, holds, Stage, idle,
  unregistered, looks, ends, elects, joins, adopts, waits, clears, detaches,
}

-- The two ways in which a generation can stand to the one that is looked at.
pub same-cases {κ} : (P : ℕ → Type κ) (k g : ℕ) → P g → ((k == g) ≡ false → P k) → P k
same-cases P k g h n = elim (Bool-cases (k == g)) [
  | inl t ↦ subst P (sym ((==_iff k g).0 t)) h
  | inr f ↦ n f
]

module _ (g : ℕ) where
  unfoldable pub leases : List Frame → ℕ
  leases [] = 0
  leases (callback k ∷ fs) = bit (k == g) + leases fs
  leases (terminal k ∷ fs) = bit (k == g) + leases fs
  leases (section ∷ fs) = leases fs

  unfoldable pub terminals : List Frame → ℕ
  terminals [] = 0
  terminals (terminal k ∷ fs) = bit (k == g) + terminals fs
  terminals (_ ∷ fs) = terminals fs

  abbrev pub adopting : Stage → ℕ
  adopting (adopts k) = bit (k == g)
  adopting _ = 0

  abbrev pub leading : Stage → ℕ
  leading (adopts k) = bit (k == g)
  leading (waits k) = bit (k == g)
  leading (clears k) = bit (k == g)
  leading (detaches k) = bit (k == g)
  leading _ = 0

  -- Whether the innermost call refers to the generation.
  abbrev pub refers : Stage → ℕ
  refers (idle r) = 0
  refers ends = 0
  refers (unregistered k) = bit (k == g)
  refers (looks k) = bit (k == g)
  refers (elects k) = bit (k == g)
  refers (joins k) = bit (k == g)
  refers (adopts k) = bit (k == g)
  refers (waits k) = bit (k == g)
  refers (clears k) = bit (k == g)
  refers (detaches k) = bit (k == g)

  -- Below the last Wake of the generation there is no lease of it.
  unfoldable pub Sound : List Frame → Type 0
  Sound [] = Unit
  Sound (terminal k ∷ fs) = (((k == g) && holds g fs) ≡ false) × Sound fs
  Sound (_ ∷ fs) = Sound fs

  abbrev pub Settled : Binding → Type 0
  Settled b = (b.terminal_wake_reserved ≡ true) × (b.inflight ≡ 0)

  abbrev pub Stands : List Frame → Stage → Slot → Type 0
  Stands fs (elects k) p = ((k == g) && holds g fs) ≡ false
  Stands fs (joins k) p = ((k == g) && holds g fs) ≡ false
  Stands fs (adopts k) p = ((k == g) && holds g fs) ≡ false
  Stands fs (waits k) p =
      (((k == g) && holds g fs) ≡ false)
      × (((k == g) ≡ false) ⊎ ((p.bindings g).terminal_wake_reserved ≡ true))
  Stands fs (clears k) p =
      (((k == g) && holds g fs) ≡ false) × (((k == g) ≡ false) ⊎ Settled (p.bindings g))
  Stands fs (detaches k) p =
      (((k == g) && holds g fs) ≡ false)
      × (((k == g) ≡ false)
          ⊎ Settled (p.bindings g) × (is_slot g p.driver_binding ≡ false) × (g ≤ p.next_generation))
  Stands fs (unregistered k) p = ((k == g) ≡ false) ⊎ ((p.bindings g).detached ≡ true)
  Stands fs _ p = Unit

  -- What a step may do to the binding while others refer to it.
  abbrev pub Keeps : Slot → Slot → Type 0
  Keeps p d =
      (((d.bindings g).detached ≡ (p.bindings g).detached) ⊎ ((d.bindings g).detached ≡ true))
      × (((d.bindings g).terminal_wake_reserved ≡ (p.bindings g).terminal_wake_reserved)
          ⊎ ((d.bindings g).terminal_wake_reserved ≡ true))
      × (((p.bindings g).terminal_wake_reserved ≡ false)
          ⊎ ((d.bindings g).inflight ≤ (p.bindings g).inflight))
      × (p.next_generation ≤ d.next_generation)
      × ((is_slot g d.driver_binding ≡ false)
          ⊎ (is_slot g p.driver_binding ≡ true)
          ⊎ (p.next_generation < g))

  -- The binding has `n` leases, `l` leaders of which `a` have not called the last Wake, and `r` references.
  unfoldable pub Agrees : ℕ → ℕ → ℕ → ℕ → Slot → Type 0
  Agrees n l a r p =
      let b = p.bindings g in
      (b.inflight ≡ n)
      × (l + bit b.detached ≡ bit b.terminal_wake_reserved)
      × (b.wakes + a ≡ bit b.terminal_wake_reserved)
      × ((b.terminal_wake_reserved ≡ false) ⊎ (is_detaching b.state ≡ true))
      × ((b.detached ≡ false) ⊎ (n ≡ 0) × (is_slot g p.driver_binding ≡ false))
      × ((g ≤ p.next_generation) ⊎ (r ≡ 0) × (is_slot g p.driver_binding ≡ false))

  abbrev pub Fine : ℕ → ℕ → ℕ → ℕ → Slot → List Frame × Stage × Slot → Type 0
  Fine n l a r p (fs, s, d) =
      Agrees (n + leases fs + adopting s) (l + terminals fs + leading s) (a + adopting s)
        (r + leases fs + refers s) d
      × Stands fs s d
      × Sound fs
      × ((r ≡ 0) ⊎ Keeps p d)

  pub terminals-le : (fs : List Frame) → terminals fs ≤ leases fs
  unfolding terminals leases
  terminals-le [] = omega arith
  terminals-le (callback k ∷ fs) = omega (arith, terminals-le fs)
  terminals-le (terminal k ∷ fs) = omega (arith, terminals-le fs)
  terminals-le (section ∷ fs) = terminals-le fs

  pub leases-holds : (fs : List Frame) → (leases fs ≡ 0) ⊎ (holds g fs ≡ true)
  unfolding leases
  leases-holds [] = inl refl
  leases-holds (callback k ∷ fs) = ground (arith, leases-holds fs)
  leases-holds (terminal k ∷ fs) = ground (arith, leases-holds fs)
  leases-holds (section ∷ fs) = leases-holds fs
