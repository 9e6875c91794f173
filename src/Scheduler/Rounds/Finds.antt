-- ===== src/Scheduler/Rounds/Finds.antt =====
-- Going once round the snapshot finds what is there.
use bbtools_coroutine.Base.{
  ℕ, zero, suc, ◌+◌, ◌-◌, ◌*◌, ◌/◌, ◌%◌, ◌≤◌, ◌<◌, ◌≡◌, refl, sym, ap, ◌∙◌, subst, ◌==◌, leb, Bool,
  true, false, ◌⊎◌, inl, inr, ◌≢◌, ==_iff, Bool-cases, Option-cases, Option, none, some, List, [],
  ◌∷◌, length, All, arith,
}
use native.Mathlib.Nat.{add-mul-mod_self_left, mod-eq_of_lt, mod-lt, div-add-mod}
use bbtools_coroutine.Scheduler.Resize.{contains}
use bbtools_coroutine.Scheduler.Rounds.{
  get_elem?, index_at, asked, first_of, takes_it, load_balance, stolen_from, or_zero,
  try_work_steal,
}

-- Every place of the list is looked at in some turn.
turn_of : (s j c : ℕ) → j < c → (i : ℕ) × (i < c) × ((s + i) % c ≡ j)
turn_of s j c h =
    let r : ℕ = s % c in
    let q : ℕ = s / c in
    let lt : r < c = mod-lt s (omega arith) in
    let e : s ≡ c * q + r = sym (div-add-mod s c) in
    let back : (k : ℕ) → (j + c * k) % c ≡ j = λ k. add-mul-mod_self_left j c k ∙ mod-eq_of_lt h in
    elim (Bool-cases (leb r j)) [
      | inl le ↦ (j - r, ground arith, ap (λ n. n % c) (ground (arith, e)) ∙ back q)
      | inr gt ↦ (j + c - r, ground arith, ap (λ n. n % c) (ground (arith, e)) ∙ back (suc q))
    ]

get_elem?-contains : (xs : List ℕ) (i x : ℕ) → get_elem? xs i ≡ some x → contains xs x ≡ true
get_elem?-contains [] i x h = absurd (cc)
get_elem?-contains (y ∷ xs) zero x h = ground arith
get_elem?-contains (y ∷ xs) (suc i) x h = ground (arith, get_elem?-contains xs i x h)

get_elem?-All :
    (P : ℕ → Type 0) (xs : List ℕ)
    → ((i x : ℕ) → i < length xs → get_elem? xs i ≡ some x → P x)
    → All P xs
get_elem?-All P [] h = tt
get_elem?-All P (x ∷ xs) h =
    (h 0 x (omega arith) refl, get_elem?-All P xs (λ i y lt e. h (suc i) y (omega arith) e))

module _ (ask : ℕ → Option ℕ) (start : ℕ) (xs : List ℕ) where
  asked-some :
      (r i : ℕ)
      → asked ask (get_elem? xs i) ≡ some r
      → (x : ℕ) × (contains xs x ≡ true) × (ask x ≡ some r)
  asked-some r i h = elim (Option-cases (get_elem? xs i)) [
    | inl e ↦ absurd (ground (arith, e))
    | inr (x, e) ↦ (x, get_elem?-contains xs i x e, ap (asked ask) (sym e) ∙ h)
  ]

  first_of-some :
      (n i r : ℕ)
      → first_of ask start i n xs ≡ some r
      → (x : ℕ) × (contains xs x ≡ true) × (ask x ≡ some r)
  unfolding first_of
  first_of-some zero i r h = absurd (cc)
  first_of-some (suc n) i r h =
      elim (Option-cases (asked ask (get_elem? xs (index_at start i xs)))) [
        | inl e ↦ first_of-some n (suc i) r (ground (arith, e))
        | inr (x, e) ↦ asked-some r (index_at start i xs) (ground (arith, e))
      ]

  first_of-none :
      (n i k : ℕ)
      → first_of ask start i n xs ≡ none
      → i ≤ k
      → k < i + n
      → asked ask (get_elem? xs (index_at start k xs)) ≡ none
  unfolding first_of
  first_of-none zero i k h le lt = absurd (omega arith)
  first_of-none (suc n) i k h le lt =
      elim (Option-cases (asked ask (get_elem? xs (index_at start i xs)))) [
        | inl e ↦ elim (Bool-cases (i == k)) [
          | inl t ↦
              ap (λ m. asked ask (get_elem? xs (index_at start m xs))) (sym ((==_iff i k).0 t)) ∙ e
          | inr t ↦ first_of-none n (suc i) k (ground (arith, e)) (ground (arith, t)) (omega arith)
        ]
        | inr (x, e) ↦ absurd (ground (arith, e))
      ]

  -- Going once round finds what is there.
  round-none : first_of ask start 0 (length xs) xs ≡ none → All (λ x. ask x ≡ none) xs
  round-none h =
      get_elem?-All (λ x. ask x ≡ none) xs
        (λ j x lt e.
          let (i, le, there) = turn_of (start % 4294967296) j (length xs) lt in
          ap (asked ask) (sym e)
          ∙ ap (λ m. asked ask (get_elem? xs m)) (sym there)
          ∙ first_of-none (length xs) 0 i h (omega arith) (omega arith))

All-map : (P Q : ℕ → Type 0) (xs : List ℕ) → ((x : ℕ) → P x → Q x) → All P xs → All Q xs
All-map P Q [] h t = tt
All-map P Q (x ∷ xs) h (p, t) = (h x p, All-map P Q xs h t)

module _ (is_active : ℕ → Bool) (steal : ℕ → ℕ) (thief start : ℕ) (xs : List ℕ) where
  abbrev ask : ℕ → Option ℕ
  ask = stolen_from thief is_active steal

  abbrev Gives : ℕ → ℕ → Type 0
  Gives n x = (contains xs x ≡ true) × (x ≢ thief) × (is_active x ≡ true) × (n ≡ steal x)

  stolen-Gives : (r x : ℕ) → contains xs x ≡ true → ask x ≡ some r → Gives r x × (0 < r)
  stolen-Gives r x c e = (
    (c, (λ t. absurd (ground (arith, e, t))), ground (arith, e), ground (arith, e)),
    ground (arith, e),
  )

  abbrev found : Option ℕ
  found = first_of ask start 0 (length xs) xs

  steal-found :
      is_active thief ≡ true
      → 1 < length xs
      → try_work_steal thief is_active steal start xs ≡ or_zero found
  unfolding try_work_steal
  steal-found act many = ground arith

  found-Finds :
      (0 < or_zero found → (x : ℕ) × Gives (or_zero found) x)
      × (or_zero found ≡ 0 → All (λ x. (x ≡ thief) ⊎ (is_active x ≡ false) ⊎ (steal x ≡ 0)) xs)
  found-Finds = elim (Option-cases found) [
    | inl e ↦ (
      (λ h. absurd (ground (arith, e))),
      λ h. All-map (λ x. ask x ≡ none) _ xs (λ x t. ground (arith, t)) (round-none ask start xs e),
    )
    | inr (r, e) ↦
        let (x, c, t) = first_of-some ask start xs (length xs) 0 r e in
        let (g, pos) = stolen-Gives r x c t in
        let n : or_zero found ≡ r = ap or_zero e in
        ((λ h. (x, rw n g)), λ h. absurd (omega (arith, n)))
  ]

  -- What the thief got, from one of the others; or why it got nothing.
  abbrev pub Steals : ℕ → Type 0
  Steals n =
      (0 < n → (x : ℕ) × Gives n x × (is_active thief ≡ true) × (1 < length xs))
      × (n ≡ 0
          → (is_active thief ≡ false)
            ⊎ (length xs ≤ 1)
            ⊎ All (λ x. (x ≡ thief) ⊎ (is_active x ≡ false) ⊎ (steal x ≡ 0)) xs)

  try_work_steal-Steals : Steals (try_work_steal thief is_active steal start xs)
  unfolding try_work_steal
  try_work_steal-Steals = elim (Bool-cases (is_active thief)) [
    | inr idle ↦ ((λ h. absurd (ground (arith, idle, h))), λ h. inl idle)
    | inl act ↦ elim (Bool-cases (leb (length xs) 1)) [
      | inl few ↦
          ((λ h. absurd (ground (arith, act, few, h))), λ h. inr (inl (ground (arith, few))))
      | inr more ↦
          let many : 1 < length xs = ground (arith, more) in
          rw (steal-found act many) (
            (λ h. let (x, g) = found-Finds.0 h in (x, g, act, many)),
            λ h. inr (inr (found-Finds.1 h)),
          )
    ]
  ]

-- Whatever the counter is: a new coroutine goes to a processer of the snapshot that admits it, and is refused only if
-- none does. A thief that gets something is active, sees others, and gets from one of them, which is active, what that one
-- gives; one that gets nothing is not active, or sees at most one processer, or no other active one gives anything.
pub rounds-Find :
    (admits is_active : ℕ → Bool) (steal : ℕ → ℕ) (thief start : ℕ) (xs : List ℕ)
    → ((p : ℕ) → load_balance admits start xs ≡ some p → (contains xs p ≡ true) × (admits p ≡ true))
      × (load_balance admits start xs ≡ none → All (λ x. admits x ≡ false) xs)
      × Steals is_active steal thief start xs (try_work_steal thief is_active steal start xs)
unfolding load_balance
rounds-Find admits is_active steal thief start xs = (
  λ p h.
      let (x, c, e) = first_of-some (takes_it admits) start xs (length xs) 0 p h in
      let same : x ≡ p = ground (arith, e) in
      (subst (λ y. contains xs y ≡ true) same c, ground (arith, e, same)),
  λ h. All-map _ _ xs (λ x e. ground (arith, e)) (round-none (takes_it admits) start xs h),
  try_work_steal-Steals is_active steal thief start xs,
)
