-- ===== src/Base/Bags.antt =====
-- How often a number stands in a list, and the taking of any one element out of it.
use bbtools_coroutine.Base.{
  ℕ, zero, suc, ◌+◌, ◌-◌, ◌==◌, ◌≡◌, refl, ap, Option, none, some, List, [], ◌∷◌, ◌++◌, length,
  if◌then◌else◌, arith,
}

abbrev pub is_one : ℕ → ℕ → ℕ
is_one x y = if y == x then 1 else 0

unfoldable pub count : ℕ → List ℕ → ℕ
count x [] = 0
count x (y ∷ ys) = is_one x y + count x ys

-- Any one of a queue; `none` for an empty one.
unfoldable pub take_at : ℕ → List ℕ → Option (ℕ × List ℕ)
take_at n [] = none
take_at n (x ∷ []) = some (x, [])
take_at zero (x ∷ y ∷ ys) = some (x, y ∷ ys)
take_at (suc n) (x ∷ y ∷ ys) = elim (take_at n (y ∷ ys)) [
  | none ↦ none
  | some (z, zs) ↦ some (z, x ∷ zs)
]

count-append : (x : ℕ) (l m : List ℕ) → count x (l ++ m) ≡ count x l + count x m
unfolding count
count-append x [] m = omega arith
count-append x (y ∷ l) m = omega (arith, count-append x l m)

pub count-snoc : (x y : ℕ) (l : List ℕ) → count x (l ++ y ∷ []) ≡ count x l + is_one x y
unfolding count
count-snoc x y l = omega (arith, count-append x l (y ∷ []))

-- What `take_at` gives: nothing from an empty queue only.
abbrev pub Front : ℕ → List ℕ → Option (ℕ × List ℕ) → Type 0
Front x l none = l ≡ []
Front x l (some (y, rest)) =
    (count x l ≡ count x rest + is_one x y) × (length l ≡ suc (length rest))

Front-cons :
    (x y : ℕ) (l : List ℕ) (o : Option (ℕ × List ℕ))
    → Front x l o
    → length l ≡ suc (length l - 1)
    → Front x (y ∷ l) (elim o [ none ↦ none | some (z, zs) ↦ some (z, y ∷ zs) ])
unfolding count
Front-cons x y l none f h = absurd (omega (arith, ap length f, h))
Front-cons x y l (some (z, zs)) f h = (omega (arith, f.0), omega (arith, f.1))

pub take_at-Front : (x n : ℕ) (l : List ℕ) → Front x l (take_at n l)
unfolding take_at count
take_at-Front x n [] = refl
take_at-Front x zero (y ∷ []) = (omega arith, refl)
take_at-Front x (suc n) (y ∷ []) = (omega arith, refl)
take_at-Front x zero (y ∷ z ∷ zs) = (omega arith, refl)
take_at-Front x (suc n) (y ∷ z ∷ zs) =
    Front-cons x y (z ∷ zs) (take_at n (z ∷ zs)) (take_at-Front x n (z ∷ zs)) (omega arith)
