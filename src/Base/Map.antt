-- ===== src/Base/Map.antt =====
-- Maps as association lists in the order of their keys, as `std::map` iterates over them. An
-- `std::unordered_map` is read through `find` alone, so that its order does not show.
use Prim.Native.Nat.{ℕ, ◌+◌, ◌≤◌}
use mathlib.Core.Path.{◌≡◌, refl, subst}
use mathlib.Core.Logic.{◌↔◌, inl, inr}
use mathlib.Core.Bool.{Bool, true, false}
use mathlib.Core.Option.{Option, none, some}
use mathlib.Core.List.{List, [], ◌∷◌}
use native.Mathlib.Omega.{arith}
use bbtools_coroutine.Base.Tests.{if◌then◌else◌, Bool-cases, Option-cases}

pub record Key {ℓ} (K : Type ℓ) : Type ℓ where
  pub eqb : K → K → Bool
  pub before : K → K → Bool
  pub eqb_iff : (a b : K) → (eqb a b ≡ true) ↔ (a ≡ b)

abbrev pub Map {ℓ κ} : Type ℓ → Type κ → Type (ℓ ⊔ κ)
Map K V = List (K × V)

abbrev pub weight {ℓ} : {V : Type ℓ} → (V → ℕ) → Option V → ℕ
weight f none = 0
weight f (some v) = f v

module _ {ℓ} {K : Type ℓ} ⦃o : Key K⦄ where
  pub eqb_refl : (k : K) → o.eqb k k ≡ true
  eqb_refl k = (o.eqb_iff k k).1 refl

module _ {ℓ κ} {K : Type ℓ} {V : Type κ} ⦃o : Key K⦄ where
  open o use {eqb, before, eqb_iff}

  unfoldable pub find : K → Map K V → Option V
  find k [] = none
  find k ((j, v) ∷ m) = if eqb j k then some v else find k m

  -- A new key goes to its place in the order.
  unfoldable pub insert : K → V → Map K V → Map K V
  insert k v [] = (k, v) ∷ []
  insert k v ((j, w) ∷ m) = if before k j then (k, v) ∷ (j, w) ∷ m else (j, w) ∷ insert k v m

  unfoldable pub replace : K → V → Map K V → Map K V
  replace k v [] = []
  replace k v ((j, w) ∷ m) = if eqb j k then (k, v) ∷ m else (j, w) ∷ replace k v m

  -- The value at a key, written anew.
  unfoldable pub put : K → V → Map K V → Map K V
  unfolding find insert replace
  put k v m = elim (find k m) [ none ↦ insert k v m | some _ ↦ replace k v m ]

  unfoldable pub erase : K → Map K V → Map K V
  erase k [] = []
  erase k ((j, w) ∷ m) = if eqb j k then m else (j, w) ∷ erase k m

  -- Keys stand once each.
  abbrev pub Unique : Map K V → Type κ
  Unique [] = Unit
  Unique ((k, v) ∷ m) = (find k m ≡ none) × Unique m

  find-insert :
      (j k : K) (v : V) (m : Map K V)
      → find k m ≡ none
      → find j (insert k v m) ≡ (if eqb k j then some v else find j m)
  unfolding find insert
  find-insert j k v [] h = refl
  find-insert j k v ((i, w) ∷ m) h =
      ground (arith, eqb_iff k j, eqb_iff i k, eqb_iff i j, find-insert j k v m)

  find-replace_ne :
      (j k : K) (v : V) (m : Map K V) → eqb k j ≡ false → find j (replace k v m) ≡ find j m
  unfolding find replace
  find-replace_ne j k v [] h = refl
  find-replace_ne j k v ((i, w) ∷ m) h =
      ground (arith, eqb_iff k j, eqb_iff i k, eqb_iff i j, find-replace_ne j k v m)

  find-replace_self :
      (k : K) (v : V) (m : Map K V) (w : V) → find k m ≡ some w → find k (replace k v m) ≡ some v
  unfolding find replace
  find-replace_self k v [] w h = cc
  find-replace_self k v ((i, u) ∷ m) w h =
      ground (arith, eqb_iff i k, eqb_refl k, find-replace_self k v m w)

  pub find-put :
      (j k : K) (v : V) (m : Map K V) → find j (put k v m) ≡ (if eqb k j then some v else find j m)
  unfolding put
  find-put j k v m = elim (Option-cases (find k m)) [
    | inl e ↦ rw (e, put) (find-insert j k v m e)
    | inr (w, e) ↦
        rw (e, put)
          (elim (Bool-cases (eqb k j)) [
            | inl t ↦ rw t (
                subst (λ x. find x (replace k v m) ≡ some v) ((eqb_iff k j).0 t)
                  (find-replace_self k v m w e))
            | inr f ↦ rw f (find-replace_ne j k v m f)
          ])
  ]

  pub find-put_self : (k : K) (v : V) (m : Map K V) → find k (put k v m) ≡ some v
  find-put_self k v m = ground (arith, find-put k k v m, eqb_refl k)

  pub put-cons_ne :
      (j k : K) (v w : V) (m : Map K V) {u : V}
      → eqb j k ≡ false
      → find k m ≡ some u
      → put k v ((j, w) ∷ m) ≡ (j, w) ∷ put k v m
  unfolding find put replace
  put-cons_ne j k v w m n e = rw (n, put) (rw (e, put) (rw n))

  pub put-cons_self : (k : K) (v w : V) (m : Map K V) → put k v ((k, w) ∷ m) ≡ (k, v) ∷ m
  unfolding find put replace
  put-cons_self k v w m = ground (arith, eqb_refl k)

  insert-Unique : (k : K) (v : V) (m : Map K V) → find k m ≡ none → Unique m → Unique (insert k v m)
  unfolding find insert
  insert-Unique k v [] h u = (refl, tt)
  insert-Unique k v ((i, w) ∷ m) h u =
      ground (arith, eqb_iff i k, eqb_iff k i, find-insert i k v m, insert-Unique k v m)

  replace-Unique : (k : K) (v : V) (m : Map K V) → Unique m → Unique (replace k v m)
  unfolding find replace
  replace-Unique k v [] u = tt
  replace-Unique k v ((i, w) ∷ m) u =
      ground (arith, eqb_iff i k, eqb_iff k i, find-replace_ne i k v m, replace-Unique k v m)

  pub put-Unique : (k : K) (v : V) (m : Map K V) → Unique m → Unique (put k v m)
  unfolding put
  put-Unique k v m u = elim (Option-cases (find k m)) [
    | inl e ↦ rw (e, put) (insert-Unique k v m e u)
    | inr (w, e) ↦ rw (e, put) (replace-Unique k v m u)
  ]

  pub find-erase :
      (j k : K) (m : Map K V) → Unique m → find j (erase k m) ≡ (if eqb k j then none else find j m)
  unfolding find erase
  find-erase j k [] u = ground arith
  find-erase j k ((i, w) ∷ m) u =
      ground (arith, eqb_iff k j, eqb_iff i k, eqb_iff i j, find-erase j k m)

  pub erase-Unique : (k : K) (m : Map K V) → Unique m → Unique (erase k m)
  unfolding erase
  erase-Unique k [] u = tt
  erase-Unique k ((i, w) ∷ m) u = ground (arith, find-erase i k m, erase-Unique k m)

  -- A sum over the values.
  module _ (f : V → ℕ) where
    unfoldable pub total : Map K V → ℕ
    total [] = 0
    total ((k, v) ∷ m) = f v + total m

    total-insert : (k : K) (v : V) (m : Map K V) → total (insert k v m) ≡ total m + f v
    unfolding total insert
    total-insert k v [] = omega arith
    total-insert k v ((i, w) ∷ m) = ground (arith, total-insert k v m)

    total-replace :
        (k : K) (v : V) (m : Map K V) (w : V)
        → find k m ≡ some w
        → total (replace k v m) + f w ≡ total m + f v
    unfolding total find replace
    total-replace k v [] w h = cc
    total-replace k v ((i, u) ∷ m) w h = ground (arith, total-replace k v m w)

    pub total-put :
        (k : K) (v : V) (m : Map K V) → total (put k v m) + weight f (find k m) ≡ total m + f v
    unfolding put
    total-put k v m = elim (Option-cases (find k m)) [
      | inl e ↦ rw (e, put) (omega (arith, total-insert k v m))
      | inr (w, e) ↦ rw (e, put) (total-replace k v m w e)
    ]

    pub total-erase : (k : K) (m : Map K V) → total (erase k m) + weight f (find k m) ≡ total m
    unfolding total find erase
    total-erase k [] = omega arith
    total-erase k ((i, w) ∷ m) = ground (arith, total-erase k m)

    pub weight-le-total : (k : K) (m : Map K V) → weight f (find k m) ≤ total m
    unfolding total find
    weight-le-total k [] = omega arith
    weight-le-total k ((i, w) ∷ m) = ground (arith, weight-le-total k m)
