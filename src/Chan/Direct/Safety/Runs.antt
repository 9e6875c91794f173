-- ===== src/Chan/Direct/Safety/Runs.antt =====
-- Any number of coroutines on one channel without a buffer, in any interleaving.
use bbtools_coroutine.Base.{
  ℕ, zero, suc, ◌+◌, ◌^◌, ◌≤◌, ◌<◌, ◌≡◌, refl, List, [], ◌∷◌, ◌++◌, length, All, ◌⊎◌, inl, inr,
  arith, sum, either_zero, bit,
}
use bbtools_coroutine.Chan.Direct.{
  Direct, new_direct, Stage, read_parked, broken, Move, step, step_at, run, all_idle,
}
use bbtools_coroutine.Chan.Direct.Safety.{claims, Waits, Stalls, Kept, step-Fine}

module _ {A : Type 0} where
  Waits-Stalls :
      (s : Stage A) (d e : Direct A) → (claims s ≡ 0) ⊎ Stalls d e → Waits s d → Waits s e
  Waits-Stalls read_parked d e (inl z) w = absurd (omega (arith, z))
  Waits-Stalls read_parked d e (inr h) w = ground (arith, h, w)
  Waits-Stalls broken d e h w = w
  Waits-Stalls _ d e h w = tt

  All-Stalls :
      (ss : List (Stage A)) (d e : Direct A)
      → (sum claims ss ≡ 0) ⊎ Stalls d e
      → All (λ s. Waits s d) ss
      → All (λ s. Waits s e) ss
  unfolding sum
  All-Stalls [] d e h w = tt
  All-Stalls (s ∷ ss) d e h (w, ws) =
      let (mine, rest) = either_zero (claims s) (sum claims ss) h in
      (Waits-Stalls s d e mine w, All-Stalls ss d e rest ws)

  -- The channel, beside `r` claims of the reading side that are elsewhere.
  Counted : ℕ → List (Stage A) × Direct A → Type 0
  Counted r (ss, d) = Kept d × (r + sum claims ss ≡ bit d.base.is_reading) × All (λ s. Waits s d) ss

  step_at-Counted :
      (i : ℕ) (m : Move A) (ss : List (Stage A)) (d : Direct A) (r : ℕ)
      → length d.sent + 1 < 2 ^ 64
      → Counted r (ss, d)
      → Counted r (step_at i m ss d)
        × (length (step_at i m ss d).1.sent ≤ length d.sent + 1)
        × ((r ≡ 0) ⊎ Stalls d (step_at i m ss d).1)
  unfolding step_at sum Counted
  step_at-Counted i m [] d r room a = (a, omega arith, inr (inr (inr (refl, refl))))
  step_at-Counted zero m (s ∷ ss) d r room (k, e, (w, ws)) =
      let (kept, e', w', size, stalls) =
        step-Fine (r + sum claims ss) d k m s room (omega (arith, e)) w in
      let (s', f) = step m s d in
      let (mine, rest) = either_zero r (sum claims ss) stalls in
      ((kept, omega (arith, e'), (w', All-Stalls ss d f rest ws)), size, mine)
  step_at-Counted (suc i) m (s ∷ ss) d r room (k, e, (w, ws)) =
      let ((kept, e', ws'), size, stalls) =
        step_at-Counted i m ss d (r + claims s) room (k, omega (arith, e), ws) in
      let (ss', f) = step_at i m ss d in
      let (mine, rest) = either_zero r (claims s) stalls in
      ((kept, omega (arith, e'), (Waits-Stalls s d f rest w, ws')), size, mine)

  run-Counted :
      (ms : List (ℕ × Move A)) (ss : List (Stage A)) (d : Direct A)
      → length d.sent + length ms < 2 ^ 64
      → Counted 0 (ss, d)
      → Counted 0 (run ms ss d)
  unfolding run
  run-Counted [] ss d room a = a
  run-Counted ((i, m) ∷ ms) ss d room a =
      let (ss', e) = step_at i m ss d in
      let (kept, size, stalls) = step_at-Counted i m ss d 0 (omega (arith, room)) a in
      run-Counted ms ss' e (omega (arith, room, size)) kept

all_idle-Counted : (A : Type 0) (n : ℕ) → Counted {A = A} 0 (all_idle n, new_direct)
unfolding sum Counted Kept
all_idle-Counted A zero = ((refl, refl, refl), refl, tt)
all_idle-Counted A (suc n) = let (k, e, w) = all_idle-Counted A n in (k, omega (arith, e), (tt, w))

-- Any number of coroutines write to, read from and close a channel without a buffer, in any
-- interleaving of fewer than 2^64 steps. What has been read, followed by what is queued, is at every point what was
-- written, in that order; the two indices, which the code compares in place of the queue's size, are the numbers of
-- the items read and written; at most one coroutine holds the reading side, just while its flag is set; no
-- read takes the front of an empty queue; and a reader that is suspended and has not been woken waits for an
-- open channel with nothing to read.
pub run-direct :
    (A : Type 0) (n : ℕ) (ms : List (ℕ × Move A))
    → length ms < 2 ^ 64
    → let (ss, d) = run ms (all_idle n) new_direct in
      ((d.received ++ d.item_cache_ref ≡ d.sent)
        × (d.read_idx ≡ length d.received)
        × (d.write_idx ≡ length d.sent))
      × (sum claims ss ≡ bit d.base.is_reading)
      × All (λ s. Waits s d) ss
unfolding Counted Kept
run-direct A n ms room =
    let (k, e, w) =
      run-Counted ms (all_idle n) new_direct (omega (arith, room)) (all_idle-Counted A n) in
    (k, omega (arith, e), w)
