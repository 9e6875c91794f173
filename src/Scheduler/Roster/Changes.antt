-- ===== src/Scheduler/Roster/Changes.antt =====
-- What a change of the workers' records leaves alone.
use bbtools_coroutine.Base.{
  ℕ, suc, ◌+◌, ◌≤◌, ◌≡◌, refl, ◌==◌, true, false, inl, inr, Bool-cases, List, [], ◌∷◌, map, length,
  bit, All, arith,
}
use bbtools_coroutine.Processer.{is_active}
use bbtools_coroutine.Scheduler.{Worker}
use bbtools_coroutine.Scheduler.Resize.{
  ids, is_outstanding, count_outstanding, contains, without, begin_retire,
}
use bbtools_coroutine.Scheduler.Scaling.{erase_worker}
use bbtools_coroutine.Scheduler.Ids.{
  Rises, Rises-weaken, Rises-Sub, Sub, contains-Rises, length-without,
}
use bbtools_coroutine.Scheduler.Roster.{active_ids, active_ids-Sub, Pinned}

-- A change that keeps who is active, and owes no more retirements.
abbrev pub Keeps : (Worker → Worker) → Worker → Type 0
Keeps f w =
    ((f w).id ≡ w.id)
    × (is_active (f w).lifecycle ≡ is_active w.lifecycle)
    × (bit (is_outstanding (f w).lifecycle) ≤ bit (is_outstanding w.lifecycle))
    × (Pinned w → Pinned (f w))

pub map-Keeps :
    (f : Worker → Worker) (ws : List Worker)
    → All (Keeps f) ws
    → (ids (map f ws) ≡ ids ws)
      × (active_ids (map f ws) ≡ active_ids ws)
      × (count_outstanding (map f ws) ≤ count_outstanding ws)
      × (All Pinned ws → All Pinned (map f ws))
unfolding active_ids count_outstanding
map-Keeps f [] k = (refl, refl, omega arith, λ p. tt)
map-Keeps f (w ∷ ws) ((e, a, o, p), k) =
    let (es, as', os, ps) = map-Keeps f ws k in
    (
      ground (arith, e, es),
      ground (arith, e, a, as'),
      omega (arith, o, os),
      λ (q, qs). (p q, ps qs),
    )

pub All-lift :
    (P Q : Worker → Type 0) (ws : List Worker) → ((w : Worker) → P w → Q w) → All P ws → All Q ws
All-lift P Q [] h a = tt
All-lift P Q (w ∷ ws) h (p, a) = (h w p, All-lift P Q ws h a)

pub All-All : (Q : Worker → Type 0) (ws : List Worker) → ((w : Worker) → Q w) → All Q ws
All-All Q [] h = tt
All-All Q (w ∷ ws) h = (h w, All-All Q ws h)

-- A selection of active workers retires.
pub map-retire :
    (sel : List ℕ) (ws : List Worker)
    → All (λ (w : Worker). contains sel w.id ≡ true → w.owned ≡ false) ws
    → All Pinned ws
    → (ids (map (begin_retire sel) ws) ≡ ids ws)
      × (active_ids (map (begin_retire sel) ws) ≡ without sel (active_ids ws))
      × (count_outstanding (map (begin_retire sel) ws) + length (without sel (ids ws))
          ≤ count_outstanding ws + length ws)
      × All Pinned (map (begin_retire sel) ws)
unfolding active_ids without count_outstanding
map-retire sel [] free p = (refl, refl, omega arith, tt)
map-retire sel (w ∷ ws) (f, free) (p, ps) =
    let (e, a, o, q) = map-retire sel ws free ps in
    (ground (arith, e), ground (arith, a), ground (arith, o), (ground (arith, f, p), q))

pub length-ids : (ws : List Worker) → length (ids ws) ≡ length ws
length-ids [] = refl
length-ids (w ∷ ws) = omega (arith, length-ids ws)

pub outstanding-retire :
    (sel : List ℕ) (ws : List Worker)
    → All (λ (w : Worker). contains sel w.id ≡ true → w.owned ≡ false) ws
    → All Pinned ws
    → Sub sel (ids ws)
    → Rises 0 (ids ws)
    → count_outstanding (map (begin_retire sel) ws) ≤ count_outstanding ws + length sel
outstanding-retire sel ws free p s r =
    omega (arith, (map-retire sel ws free p).2, length-without 0 s r, length-ids ws)

-- The record of a worker that is not active is taken out.
abbrev pub Inactive : ℕ → Worker → Type 0
Inactive x w = w.id ≡ x → is_active w.lifecycle ≡ false

pub erase_worker-keeps :
    (x : ℕ) (ws : List Worker)
    → All (Inactive x) ws
    → (active_ids (erase_worker x ws) ≡ active_ids ws)
      × (count_outstanding (erase_worker x ws) ≤ count_outstanding ws)
unfolding erase_worker active_ids count_outstanding
erase_worker-keeps x [] i = (refl, omega arith)
erase_worker-keeps x (w ∷ ws) (i, is) =
    let (a, o) = erase_worker-keeps x ws is in (ground (arith, a, i), ground (arith, o))

pub erase_worker-All :
    (P : Worker → Type 0) (x : ℕ) (ws : List Worker) → All P ws → All P (erase_worker x ws)
unfolding erase_worker
erase_worker-All P x [] a = tt
erase_worker-All P x (w ∷ ws) (p, a) = elim (Bool-cases (w.id == x)) [
  | inl e ↦ rw e a
  | inr e ↦ rw e (p, erase_worker-All P x ws a)
]

pub erase_worker-Rises :
    (x lo : ℕ) (ws : List Worker) → Rises lo (ids ws) → Rises lo (ids (erase_worker x ws))
unfolding erase_worker
erase_worker-Rises x lo [] r = tt
erase_worker-Rises x lo (w ∷ ws) (le, r) = elim (Bool-cases (w.id == x)) [
  | inl e ↦ rw e (Rises-weaken (ids ws) (omega arith) r)
  | inr e ↦ rw e (le, erase_worker-Rises x (suc w.id) ws r)
]

Rises-All : (lo : ℕ) (ws : List Worker) → Rises lo (ids ws) → All (λ (w : Worker). lo ≤ w.id) ws
Rises-All lo [] r = tt
Rises-All lo (w ∷ ws) (le, r) =
    (le, All-lift (λ u. suc w.id ≤ u.id) _ ws (λ u h. omega arith) (Rises-All (suc w.id) ws r))

-- A processer of the registry is active.
pub contains-active_ids :
    (x lo : ℕ) (ws : List Worker)
    → Rises lo (ids ws)
    → contains (active_ids ws) x ≡ true
    → All (λ (w : Worker). w.id ≡ x → is_active w.lifecycle ≡ true) ws
unfolding active_ids
contains-active_ids x lo [] r h = tt
contains-active_ids x lo (w ∷ ws) (le, r) h = elim (Bool-cases (contains (active_ids ws) x)) [
  | inl e ↦ (
    (λ same.
        let past : Rises (suc w.id) (active_ids ws) = Rises-Sub _ (active_ids-Sub ws) r in
        absurd (ground (arith, contains-Rises (suc w.id) x (active_ids ws) past))),
    contains-active_ids x (suc w.id) ws r e,
  )
  | inr e ↦ (
    (λ same. ground arith),
    All-lift (λ u. suc w.id ≤ u.id) _ ws (λ u le' same. absurd (ground arith))
        (Rises-All (suc w.id) ws r),
  )
]
