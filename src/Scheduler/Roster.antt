-- ===== src/Scheduler/Roster.antt =====
-- The records of the workers: which are active, which may retire, and what a change of one record leaves alone.
pub mod Changes
use bbtools_coroutine.Base.{
  ℕ, zero, suc, ◌+◌, ◌≤◌, ◌<◌, ◌≡◌, refl, sym, ap, ◌∙◌, ◌==◌, ==_iff, Bool, true, false, not, ◌&&◌,
  ◌||◌, ◌⊎◌, inl, inr, Bool-cases, Option, none, some, List, [], ◌∷◌, ◌++◌, map, length, sum, bit,
  All, if◌then◌else◌, arith,
}
use bbtools_coroutine.Processer.{Lifecycle, active, retiring, is_active}
use bbtools_coroutine.Scheduler.{Worker}
use bbtools_coroutine.Scheduler.Resize.{
  fresh, fresh_from, ids, find_worker, may_retire, candidates, is_self, select, is_outstanding,
  count_outstanding, contains, without, begin_retire,
}
use bbtools_coroutine.Scheduler.Ids.{
  Rises, Sub, none_left, skip, both, Sub-nil, Sub-trans, Rises-Sub, contains-Rises, length-without,
}

unfoldable pub active_ids : List Worker → List ℕ
active_ids [] = []
active_ids (w ∷ ws) =
    let rest = active_ids ws in if is_active w.lifecycle then w.id ∷ rest else rest

abbrev pub Pinned : Worker → Type 0
Pinned w = w.owned ≡ true → is_active w.lifecycle ≡ true

pub active_ids-Sub : (ws : List Worker) → Sub (active_ids ws) (ids ws)
unfolding active_ids
active_ids-Sub [] = none_left
active_ids-Sub (w ∷ ws) = elim (Bool-cases (is_active w.lifecycle)) [
  | inl e ↦ rw e (both w.id (active_ids-Sub ws))
  | inr e ↦ rw e (skip w.id (active_ids-Sub ws))
]

-- New workers are active.
pub active_ids-append :
    (vs ws : List Worker) → active_ids (vs ++ ws) ≡ active_ids vs ++ active_ids ws
unfolding active_ids
active_ids-append [] ws = refl
active_ids-append (v ∷ vs) ws = ground (arith, active_ids-append vs ws)

pub active_ids-fresh_from : (n k : ℕ) → active_ids (fresh_from n k) ≡ ids (fresh_from n k)
unfolding active_ids
active_ids-fresh_from n zero = refl
active_ids-fresh_from n (suc k) = ap (λ (l : List ℕ). n ∷ l) (active_ids-fresh_from (suc n) k)

pub ids-append : (vs ws : List Worker) → ids (vs ++ ws) ≡ ids vs ++ ids ws
ids-append [] ws = refl
ids-append (v ∷ vs) ws = ap (λ (l : List ℕ). v.id ∷ l) (ids-append vs ws)

pub fresh_from-Rises :
    (n k : ℕ)
    → Rises n (ids (fresh_from n k))
      × All (λ (x : ℕ). x < n + k) (ids (fresh_from n k))
      × (length (ids (fresh_from n k)) ≡ k)
      × (count_outstanding (fresh_from n k) ≡ 0)
      × All Pinned (fresh_from n k)
unfolding count_outstanding
fresh_from-Rises n zero = (tt, tt, refl, refl, tt)
fresh_from-Rises n (suc k) =
    let (r, b, l, o, p) = fresh_from-Rises (suc n) k in
    (
      (omega arith, r),
      (omega arith, below (ids (fresh_from (suc n) k)) b),
      omega (arith, l),
      omega (arith, o),
      (λ h. refl, p),
    )
  where
    below : (xs : List ℕ) → All (λ (x : ℕ). x < suc n + k) xs → All (λ (x : ℕ). x < n + suc k) xs
    below [] t = tt
    below (x ∷ xs) (h, t) = (omega arith, below xs t)

pub count_outstanding-append :
    (vs ws : List Worker)
    → count_outstanding (vs ++ ws) ≡ count_outstanding vs + count_outstanding ws
unfolding count_outstanding
count_outstanding-append [] ws = omega arith
count_outstanding-append (v ∷ vs) ws = omega (arith, count_outstanding-append vs ws)

-- A worker is found by its id.
find_worker-Rises :
    (lo : ℕ) (ws : List Worker)
    → Rises lo (ids ws)
    → All (λ (w : Worker). (lo ≤ w.id) × (find_worker w.id ws ≡ some w)) ws
unfolding find_worker
find_worker-Rises lo [] r = tt
find_worker-Rises lo (v ∷ ws) (le, r) =
    ((le, ground arith), rest ws (find_worker-Rises (suc v.id) ws r))
  where
    rest :
        (us : List Worker)
        → All (λ (w : Worker). (suc v.id ≤ w.id) × (find_worker w.id ws ≡ some w)) us
        → All (λ (w : Worker). (lo ≤ w.id) × (find_worker w.id (v ∷ ws) ≡ some w)) us
    rest [] t = tt
    rest (u ∷ us) ((h, e), t) = ((omega arith, ground arith), rest us t)

-- What is selected to retire.
candidates-Sub : (ws : List Worker) (l : List ℕ) → Sub (candidates ws l) l
unfolding candidates
candidates-Sub ws [] = none_left
candidates-Sub ws (x ∷ xs) = elim (Bool-cases (may_retire (find_worker x ws))) [
  | inl e ↦ rw e (both x (candidates-Sub ws xs))
  | inr e ↦ rw e (skip x (candidates-Sub ws xs))
]

select-Sub :
    (self : Option ℕ) (k : ℕ) (l : List ℕ)
    → Sub (select self k l) l × (length (select self k l) ≤ k)
unfolding select
select-Sub self zero l = (Sub-nil l, omega arith)
select-Sub self (suc k) [] = (none_left, omega arith)
select-Sub self (suc k) (x ∷ xs) = elim (Bool-cases (is_self self x)) [
  | inl e ↦ let (s, h) = select-Sub self (suc k) xs in rw (e, select) (skip x s, h)
  | inr e ↦ let (s, h) = select-Sub self k xs in rw (e, select) (both x s, omega arith)
]

pub selected-Sub :
    (self : Option ℕ) (k : ℕ) (ws : List Worker) (l : List ℕ)
    → Sub (select self k (candidates ws l)) l
selected-Sub self k ws l = Sub-trans (select-Sub self k (candidates ws l)).0 (candidates-Sub ws l)

pub length-select-le : (self : Option ℕ) (k : ℕ) (l : List ℕ) → length (select self k l) ≤ k
length-select-le self k l = (select-Sub self k l).1

candidates-All :
    (ws : List Worker) (l : List ℕ)
    → All (λ x. may_retire (find_worker x ws) ≡ true) (candidates ws l)
unfolding candidates
candidates-All ws [] = tt
candidates-All ws (x ∷ xs) = elim (Bool-cases (may_retire (find_worker x ws))) [
  | inl e ↦ rw e (e, candidates-All ws xs)
  | inr e ↦ rw e (candidates-All ws xs)
]

All-Sub : (P : ℕ → Type 0) {xs ys : List ℕ} → Sub xs ys → All P ys → All P xs
All-Sub P none_left a = tt
All-Sub P (skip y s) (h, a) = All-Sub P s a
All-Sub P (both y s) (h, a) = (h, All-Sub P s a)

All-contains : (P : ℕ → Type 0) (x : ℕ) (l : List ℕ) → All P l → contains l x ≡ true → P x
All-contains P x [] a h = absurd (cc)
All-contains P x (y ∷ l) (p, a) h = elim (Bool-cases (x == y)) [
  | inl e ↦ rw ((==_iff x y).0 e) p
  | inr e ↦ All-contains P x l a (ground arith)
]

-- None of the selected workers has a driver.
pub selected-free :
    (self : Option ℕ) (k : ℕ) (ws : List Worker) (l : List ℕ)
    → Rises 0 (ids ws)
    → All
        (λ (w : Worker). contains (select self k (candidates ws l)) w.id ≡ true → w.owned ≡ false)
        ws
selected-free self k ws l r = go ws (find_worker-Rises 0 ws r)
  where
    free : All (λ x. may_retire (find_worker x ws) ≡ true) (select self k (candidates ws l))
    free = All-Sub _ (select-Sub self k (candidates ws l)).0 (candidates-All ws l)

    go :
        (us : List Worker)
        → All (λ (w : Worker). (0 ≤ w.id) × (find_worker w.id ws ≡ some w)) us
        → All
            (λ (w : Worker).
              contains (select self k (candidates ws l)) w.id ≡ true → w.owned ≡ false)
            us
    go [] t = tt
    go (u ∷ us) ((_, e), t) = (
      (λ h.
          let m = All-contains _ u.id (select self k (candidates ws l)) free h in
          ground (arith, m, e)),
      go us t,
    )
