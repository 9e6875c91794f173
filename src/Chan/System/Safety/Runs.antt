-- ===== src/Chan/System/Safety/Runs.antt =====
-- Any number of coroutines on one channel with a buffer, in any interleaving.
use bbtools_coroutine.Base.{
  ℕ, zero, suc, ◌+◌, ◌≤◌, ◌≡◌, refl, Bool, ◌&&◌, List, [], ◌∷◌, ◌++◌, length, All, ◌⊎◌, inl, inr,
  if-cases, arith, sum, either_zero, bit,
}
use bbtools_coroutine.CoRwMutex.{member}
use bbtools_coroutine.Chan.{
  Chan, fresh, is_empty, add_read_watcher, add_write_watcher, remove_read_watcher,
  remove_write_watcher, register_write,
}
use bbtools_coroutine.Chan.System.{
  closed, failed, timed_out, Stage, idle, write_locks, write_unlocked, write_registered,
  write_parked, write_expired, write_woken, write_relocks, read_checks, read_locks, read_unlocked,
  read_registered, read_parked, try_read_locks, read_gives_up, releases, Move, writes, try_writes,
  reads, try_reads, closes, watches_read, watches_write, leaves_read, leaves_write, expires,
  goes_on, read_loop, try_read, go_on, step, step_at, run, all_idle,
}
use bbtools_coroutine.Chan.System.Safety.{
  claims, Waits, Stalls, Kept, Fine, same-Fine, close-Fine, enqueue-Fine,
}
use bbtools_coroutine.Chan.System.Safety.Loops.{
  write_loop-Fine, write_locked-Fine, try_write-Fine, read_front-Fine, try_read_front-Fine,
  read_begin-Fine, try_read_begin-Fine, expire-Fine, recheck-Fine,
}

module _ {A : Type 0} (max : ℕ) where
  module _ (r : ℕ) (c : Chan A) (k : Kept max c) where
    go_on-Fine :
        (late registers : Bool) (s : Stage A)
        → r + claims s ≡ bit c.is_reading
        → Waits s c
        → Fine max r c (go_on max late registers s c)
    unfolding go_on read_loop try_read register_write
    go_on-Fine late registers (write_locks timed x) e w = write_locked-Fine max r c k late timed x e
    go_on-Fine late registers (write_unlocked timed x) e w =
        if-cases (Fine max r c) registers _ _ (λ _. (k, e, tt, inr (inr (refl, refl, refl))))
          (λ _. same-Fine max r c k (idle failed) e tt)
    go_on-Fine late registers (write_registered timed x id) e w =
        enqueue-Fine max r c k timed x id e
    go_on-Fine late registers (write_parked timed x id) e w =
        if-cases (λ (s : Stage A). Fine max r c (s, c)) (member id c.live) (write_parked timed x id)
          (write_woken timed x) (λ _. same-Fine max r c k (write_parked timed x id) e tt)
          (λ _. same-Fine max r c k (write_woken timed x) e tt)
    go_on-Fine late registers (write_woken timed x) e w =
        if-cases (λ (s : Stage A). Fine max r c (s, c)) c.is_closed (idle closed)
          (write_relocks timed x) (λ _. same-Fine max r c k (idle closed) e tt)
          (λ _. same-Fine max r c k (write_relocks timed x) e tt)
    go_on-Fine late registers (write_relocks timed x) e w = write_loop-Fine max r c k late timed x e
    go_on-Fine late registers write_expired e w = same-Fine max r c k (idle timed_out) e tt
    go_on-Fine late registers (read_checks kind) e w =
        if-cases (λ (s : Stage A). Fine max r c (s, c)) (c.is_closed && is_empty c.item_queue)
          (releases closed) (read_locks kind) (λ _. same-Fine max r c k (releases closed) e tt)
          (λ _. same-Fine max r c k (read_locks kind) e tt)
    go_on-Fine late registers (read_locks kind) e w =
        read_front-Fine max r c k late kind c.item_queue refl e
    go_on-Fine late registers (read_unlocked kind) e w =
        if-cases (Fine max r c) registers _ _ (λ _. (k, e, tt, inl (ground (arith, e))))
          (λ _. same-Fine max r c k read_gives_up e tt)
    go_on-Fine late registers (read_registered kind) e w = recheck-Fine max r c k kind e
    go_on-Fine late registers (read_parked kind) e w =
        if-cases (λ (s : Stage A). Fine max r c (s, c)) c.read_live (read_parked kind)
          (read_locks kind) (λ _. same-Fine max r c k (read_parked kind) e w)
          (λ _. same-Fine max r c k (read_locks kind) e tt)
    go_on-Fine late registers try_read_locks e w = try_read_front-Fine max r c k c.item_queue refl e
    go_on-Fine late registers read_gives_up e w = same-Fine max r c k (releases failed) e tt
    go_on-Fine late registers (releases v) e w = (k, ground (arith, e), tt, inl (ground (arith, e)))
    go_on-Fine late registers (idle v) e w = same-Fine max r c k (idle v) e tt

    step-Fine :
        (m : Move A) (s : Stage A)
        → r + claims s ≡ bit c.is_reading
        → Waits s c
        → Fine max r c (step max m s c)
    unfolding step add_read_watcher add_write_watcher remove_read_watcher remove_write_watcher
    step-Fine (writes timed x) (idle v) e w =
        if-cases (λ (s : Stage A). Fine max r c (s, c)) c.is_closed (idle closed)
          (write_locks timed x) (λ _. same-Fine max r c k (idle closed) e tt)
          (λ _. same-Fine max r c k (write_locks timed x) e tt)
    step-Fine (try_writes x) (idle v) e w = try_write-Fine max r c k x e
    step-Fine (reads kind) (idle v) e w = read_begin-Fine max r c k kind e
    step-Fine try_reads (idle v) e w = try_read_begin-Fine max r c k e
    step-Fine closes (idle v) e w = close-Fine max r c k e
    step-Fine (watches_read i) (idle v) e w = (k, e, tt, inr (inr (refl, refl, refl)))
    step-Fine (watches_write i) (idle v) e w = (k, e, tt, inr (inr (refl, refl, refl)))
    step-Fine (leaves_read i) (idle v) e w = (k, e, tt, inr (inr (refl, refl, refl)))
    step-Fine (leaves_write i) (idle v) e w = (k, e, tt, inr (inr (refl, refl, refl)))
    step-Fine expires s e w = expire-Fine max r c k s e w
    step-Fine (goes_on late registers) s e w = go_on-Fine late registers s e w
    step-Fine _ s e w = same-Fine max r c k s e w

module _ {A : Type 0} where
  Waits-Stalls : (s : Stage A) (c d : Chan A) → (claims s ≡ 0) ⊎ Stalls c d → Waits s c → Waits s d
  Waits-Stalls (read_parked kind) c d (inl z) w = absurd (omega (arith, z))
  Waits-Stalls (read_parked kind) c d (inr (inl f)) w = ground (arith, f)
  Waits-Stalls (read_parked kind) c d (inr (inr (l, q, f))) w = rw (l, q, f) w
  Waits-Stalls _ c d h w = tt

  All-Stalls :
      (ss : List (Stage A)) (c d : Chan A)
      → (sum claims ss ≡ 0) ⊎ Stalls c d
      → All (λ s. Waits s c) ss
      → All (λ s. Waits s d) ss
  unfolding sum
  All-Stalls [] c d h w = tt
  All-Stalls (s ∷ ss) c d (inl z) (w, ws) =
      (Waits-Stalls s c d (inl (omega (arith, z))) w, All-Stalls ss c d (inl (omega (arith, z))) ws)
  All-Stalls (s ∷ ss) c d (inr h) (w, ws) =
      (Waits-Stalls s c d (inr h) w, All-Stalls ss c d (inr h) ws)

module _ {A : Type 0} (max : ℕ) where
  -- The channel, beside `r` claims of the reading side that are elsewhere.
  Counted : ℕ → List (Stage A) × Chan A → Type 0
  Counted r (ss, c) = Kept max c × (r + sum claims ss ≡ bit c.is_reading) × All (λ s. Waits s c) ss

  step_at-Counted :
      (i : ℕ) (m : Move A) (ss : List (Stage A)) (c : Chan A) (r : ℕ)
      → Counted r (ss, c)
      → Counted r (step_at max i m ss c) × ((r ≡ 0) ⊎ Stalls c (step_at max i m ss c).1)
  unfolding step_at sum Counted
  step_at-Counted i m [] c r a = (a, inr (inr (refl, refl, refl)))
  step_at-Counted zero m (s ∷ ss) c r (k, e, (w, ws)) =
      let (kept, e', w', stalls) = step-Fine max (r + sum claims ss) c k m s (omega (arith, e)) w in
      let (s', d) = step max m s c in
      let (mine, rest) = either_zero r (sum claims ss) stalls in
      ((kept, omega (arith, e'), (w', All-Stalls ss c d rest ws)), mine)
  step_at-Counted (suc i) m (s ∷ ss) c r (k, e, (w, ws)) =
      let ((kept, e', ws'), stalls) =
        step_at-Counted i m ss c (r + claims s) (k, omega (arith, e), ws) in
      let (ss', d) = step_at max i m ss c in
      let (mine, rest) = either_zero r (claims s) stalls in
      ((kept, omega (arith, e'), (Waits-Stalls s c d rest w, ws')), mine)

  run-Counted :
      (ms : List (ℕ × Move A)) (ss : List (Stage A)) (c : Chan A)
      → Counted 0 (ss, c)
      → Counted 0 (run max ms ss c)
  unfolding run
  run-Counted [] ss c a = a
  run-Counted ((i, m) ∷ ms) ss c a =
      let (ss', d) = step_at max i m ss c in run-Counted ms ss' d (step_at-Counted i m ss c 0 a).0

all_idle-Counted : (A : Type 0) (max n : ℕ) → Counted {A = A} max 0 (all_idle n, fresh)
unfolding sum Counted
all_idle-Counted A max zero = ((refl, omega arith), refl, tt)
all_idle-Counted A max (suc n) =
    let (k, e, w) = all_idle-Counted A max n in (k, omega (arith, e), (tt, w))

module _ {A : Type 0} (max n : ℕ) (ms : List (ℕ × Move A)) where
  at_end : Counted max 0 (run max ms (all_idle n) fresh)
  at_end = run-Counted max ms (all_idle n) fresh (all_idle-Counted A max n)

  -- Any number of coroutines write to, read from, watch and close a fresh channel that holds `max` items,
  -- by any of its calls and in any interleaving. What has been taken out of it, followed by what it holds,
  -- is at every point what was put into it, in the order in which that was done; and it never holds more
  -- than `max` items.
  pub run-fifo :
      let (ss, c) = run max ms (all_idle n) fresh in
      (c.received ++ c.item_queue ≡ c.sent) × (length c.item_queue ≤ max)
  unfolding Counted
  run-fifo = at_end.0

  -- Any number of coroutines write to, read from, watch and close a fresh channel with a buffer, by
  -- any of its calls and in any interleaving, waits that fail, time out or are cancelled among them.
  -- At every point the flag of the reading side is set exactly while one coroutine is between its
  -- claim and its release, and never are there two; and a reader that is suspended and has not been
  -- woken waits for a channel that is open and empty: no item and no Close goes by unnoticed.
  pub run-wakes :
      let (ss, c) = run max ms (all_idle n) fresh in
      (sum claims ss ≡ bit c.is_reading) × All (λ s. Waits s c) ss
  unfolding Counted
  run-wakes = let (k, e, w) = at_end in (omega (arith, e), w)
