-- ===== src/Base/Lists.antt =====
-- Lists measured by native numbers, sums and predicates over them.
use Prim.Native.Nat.{ℕ, suc, ◌+◌}
use mathlib.Core.Path.{◌≡◌}
use mathlib.Core.List.{List, [], ◌∷◌, ◌++◌}
use native.Mathlib.Omega.{arith}

module _ {ℓ} {A : Type ℓ} where
  abbrev pub length : List A → ℕ
  length [] = 0
  length (x ∷ xs) = suc (length xs)

  pub length-append : (xs ys : List A) → length (xs ++ ys) ≡ length xs + length ys
  length-append [] ys = omega arith
  length-append (x ∷ xs) ys = omega (arith, length-append xs ys)

unfoldable pub sum {ℓ} : {A : Type ℓ} → (A → ℕ) → List A → ℕ
sum f [] = 0
sum f (x ∷ xs) = f x + sum f xs

-- A predicate on every element, by recursion: it computes to tuples.
abbrev pub All {ℓ κ} : {A : Type ℓ} → (A → Type κ) → List A → Type κ
All P [] = Unit
All P (x ∷ xs) = P x × All P xs

pub All-append {ℓ κ} :
    {A : Type ℓ} (P : A → Type κ) (xs ys : List A) → All P xs → All P ys → All P (xs ++ ys)
All-append P [] ys hx hy = hy
All-append P (x ∷ xs) ys hx hy = (hx.0, All-append P xs ys hx.1 hy)

-- The second list is the first with one occurrence of `x` taken out.
pub data Remove {ℓ} {A : Type ℓ} (x : A) : List A → List A → Type ℓ where
  here : {l : List A} → Remove x (x ∷ l) l
  there : {y : A} {l m : List A} → Remove x l m → Remove x (y ∷ l) (y ∷ m)

pub length-Remove {ℓ} : {A : Type ℓ} {x : A} {l m : List A} → Remove x l m → length l ≡ length m + 1
length-Remove here = omega arith
length-Remove (there r) = omega (arith, length-Remove r)
