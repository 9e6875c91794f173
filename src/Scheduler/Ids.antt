-- ===== src/Scheduler/Ids.antt =====
-- Lists of ids that rise, as the registry of processers keeps them, and what is left of one when some are taken out.
use bbtools_coroutine.Base.{
  ℕ, suc, ◌+◌, ◌≤◌, ◌<◌, ◌≡◌, refl, false, List, [], ◌∷◌, ◌++◌, length, All, arith,
}
use bbtools_coroutine.Scheduler.Resize.{contains, without}

abbrev pub Rises : ℕ → List ℕ → Type 0
Rises lo [] = Unit
Rises lo (x ∷ xs) = (lo ≤ x) × Rises (suc x) xs

pub Rises-weaken : {lo lo' : ℕ} (xs : List ℕ) → lo' ≤ lo → Rises lo xs → Rises lo' xs
Rises-weaken [] h r = tt
Rises-weaken (x ∷ xs) h (le, r) = (omega arith, r)

pub Rises-append :
    (lo n : ℕ) (xs ys : List ℕ)
    → lo ≤ n
    → All (λ x. x < n) xs
    → Rises lo xs
    → Rises n ys
    → Rises lo (xs ++ ys)
Rises-append lo n [] ys h b r r' = Rises-weaken ys h r'
Rises-append lo n (x ∷ xs) ys h (lt, b) (le, r) r' = (le, Rises-append (suc x) n xs ys lt b r r')

pub contains-Rises : (lo y : ℕ) (xs : List ℕ) → Rises lo xs → y < lo → contains xs y ≡ false
contains-Rises lo y [] r h = refl
contains-Rises lo y (x ∷ xs) (le, r) h = ground (arith, contains-Rises (suc x) y xs r)

-- The ids that stand in a list, in its order.
pub data Sub : List ℕ → List ℕ → Type 0 where
  none_left : Sub [] []
  skip : {xs ys : List ℕ} (y : ℕ) → Sub xs ys → Sub xs (y ∷ ys)
  both : {xs ys : List ℕ} (y : ℕ) → Sub xs ys → Sub (y ∷ xs) (y ∷ ys)

pub Sub-nil : (ys : List ℕ) → Sub [] ys
Sub-nil [] = none_left
Sub-nil (y ∷ ys) = skip y (Sub-nil ys)

pub Sub-trans : {xs ys zs : List ℕ} → Sub xs ys → Sub ys zs → Sub xs zs
Sub-trans a none_left = a
Sub-trans a (skip y b) = skip y (Sub-trans a b)
Sub-trans (skip _ a) (both y b) = skip y (Sub-trans a b)
Sub-trans (both _ a) (both y b) = both y (Sub-trans a b)

pub Rises-Sub : {xs ys : List ℕ} (lo : ℕ) → Sub xs ys → Rises lo ys → Rises lo xs
Rises-Sub lo none_left r = tt
Rises-Sub {xs = xs} lo (skip y s) (le, r) = Rises-weaken xs (omega arith) (Rises-Sub (suc y) s r)
Rises-Sub lo (both y s) (le, r) = (le, Rises-Sub (suc y) s r)

pub without-past :
    (x : ℕ) (sel ys : List ℕ) → Rises (suc x) ys → without (x ∷ sel) ys ≡ without sel ys
unfolding without
without-past x sel [] r = refl
without-past x sel (y ∷ ys) (le, r) =
    ground (arith, without-past x sel ys (Rises-weaken ys (omega arith) r))

-- A selection that is taken out of a list that rises shortens it by its own length.
pub length-without :
    {sel ys : List ℕ} (lo : ℕ)
    → Sub sel ys
    → Rises lo ys
    → length (without sel ys) + length sel ≡ length ys
unfolding without
length-without lo none_left r = refl
length-without {sel = sel} lo (skip y s) (le, r) =
    ground (arith, length-without (suc y) s r, contains-Rises (suc y) y sel (Rises-Sub (suc y) s r))
length-without lo (both {xs = xs} {ys = ys} y s) (le, r) =
    ground (arith, length-without (suc y) s r, without-past y xs ys r)
