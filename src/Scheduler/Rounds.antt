-- ===== src/Scheduler/Rounds.antt =====
-- Which worker gets a new coroutine, and from which worker an idle one steals: both go once round the snapshot, from
-- a place that a counter gives.
pub mod Finds
use bbtools_coroutine.Base.{
  ℕ, zero, suc, ◌+◌, ◌-◌, ◌*◌, ◌/◌, ◌%◌, ◌≤◌, ◌<◌, ◌≡◌, refl, sym, ap, ◌∙◌, subst, ◌==◌, ltb, leb,
  Bool, true, false, not, ◌&&◌, ◌||◌, ◌⊎◌, inl, inr, ◌≢◌, ==_iff, Bool-cases, Option-cases, Option,
  none, some, List, [], ◌∷◌, length, All, if◌then◌else◌, arith,
}
use native.Mathlib.Nat.{add-mul-mod_self_left, mod-eq_of_lt, mod-lt, div-add-mod}
use bbtools_coroutine.Scheduler.Resize.{contains}

abbrev pub get_elem? : List ℕ → ℕ → Option ℕ
get_elem? [] i = none
get_elem? (x ∷ xs) zero = some x
get_elem? (x ∷ xs) (suc i) = get_elem? xs i

-- The counter is a uint32_t; indices have 64 bits.
abbrev pub index_at : ℕ → ℕ → List ℕ → ℕ
index_at start i xs = (start % 4294967296 + i) % length xs

-- From the `i`th turn on, `n` turns being left.
abbrev pub asked : (ℕ → Option ℕ) → Option ℕ → Option ℕ
asked ask none = none
asked ask (some x) = ask x

unfoldable pub first_of : (ℕ → Option ℕ) → ℕ → ℕ → ℕ → List ℕ → Option ℕ
first_of ask start i zero xs = none
first_of ask start i (suc n) xs =
    let rest = first_of ask start (suc i) n xs in
    elim (asked ask (get_elem? xs (index_at start i xs))) [ some r ↦ some r | none ↦ rest ]

-- `_LoadBlance2Proc`: the first processer that takes the coroutine.
abbrev pub takes_it : (ℕ → Bool) → ℕ → Option ℕ
takes_it admits x = if admits x then some x else none

unfoldable pub load_balance : (ℕ → Bool) → ℕ → List ℕ → Option ℕ
load_balance admits start xs = first_of (takes_it admits) start 0 (length xs) xs

-- `TryWorkSteal` by an active thief: what it got, from the first other active processer that gave it something.
abbrev pub stolen_from : ℕ → (ℕ → Bool) → (ℕ → ℕ) → ℕ → Option ℕ
stolen_from thief is_active steal x =
    if x == thief
    then none
    else if not (is_active x)
    then none
    else if ltb 0 (steal x)
    then some (steal x)
    else none

abbrev pub or_zero : Option ℕ → ℕ
or_zero none = 0
or_zero (some n) = n

unfoldable pub try_work_steal : ℕ → (ℕ → Bool) → (ℕ → ℕ) → ℕ → List ℕ → ℕ
try_work_steal thief is_active steal start xs =
    if not (is_active thief)
    then 0
    else if ltb 1 (length xs)
    then or_zero (first_of (stolen_from thief is_active steal) start 0 (length xs) xs)
    else 0
