-- ===== src/Chan/System/Safety/Loops.antt =====
-- What the loops of a channel's writes and reads keep.
use bbtools_coroutine.Base.{
  ℕ, ◌+◌, ◌≡◌, refl, Bool, true, ◌&&◌, List, [], ◌∷◌, inl, inr, if-cases, if◌then◌else◌, arith, bit,
}
use bbtools_coroutine.CoRwMutex.{member, remove}
use bbtools_coroutine.Chan.{Chan, is_full, on_enable_write, pop, pop_all, recheck_read}
use bbtools_coroutine.Chan.System.{
  ok, closed, failed, timed_out, Kind, read_one, read_all, read_timed, Stage, idle, write_unlocked,
  write_parked, write_expired, read_checks, read_locks, read_unlocked, read_parked, try_read_locks,
  releases, taken, read_front, try_read_front, is_timed, write_loop, write_locked, try_write,
  read_begin, try_read_begin, expire,
}
use bbtools_coroutine.Chan.System.Safety.{
  claims, readable, Waits, Kept, Fine, same-Fine, push-Fine, pop-Fine,
}

module _ {A : Type 0} (max : ℕ) where
  pop_all-Kept :
      (l : List A) (r : ℕ) (c : Chan A)
      → c.item_queue ≡ l
      → Kept max c
      → r + 1 ≡ bit c.is_reading
      → Kept max (pop_all l c) × (r + 1 ≡ bit (pop_all l c).is_reading)
  unfolding pop_all pop on_enable_write
  pop_all-Kept [] r c q k e = (k, e)
  pop_all-Kept (x ∷ xs) r c q k e =
      let (kept, fine) = pop-Fine max r c k x xs q e in pop_all-Kept xs r (pop x xs c) refl kept e

  taken-Fine :
      (kind : Kind) (r : ℕ) (c : Chan A) (x : A) (rest : List A)
      → Kept max c
      → c.item_queue ≡ x ∷ rest
      → r + 1 ≡ bit c.is_reading
      → Fine max r c (releases ok, taken kind x rest c)
  taken-Fine read_all r c x rest k q e =
      let (kept, held) = pop_all-Kept (x ∷ rest) r c q k e in
      (kept, held, tt, inl (ground (arith, e)))
  taken-Fine read_one r c x rest k q e = (pop-Fine max r c k x rest q e).1
  taken-Fine read_timed r c x rest k q e = (pop-Fine max r c k x rest q e).1

  module _ (r : ℕ) (c : Chan A) (k : Kept max c) where
    pub write_loop-Fine :
        (late timed : Bool) (x : A)
        → r + 0 ≡ bit c.is_reading
        → Fine max r c (write_loop max late timed x c)
    unfolding write_loop
    write_loop-Fine late timed x e =
        if-cases (Fine max r c) (is_full max c) _ _
          (λ t.
            if-cases (λ (s : Stage A). Fine max r c (s, c)) (timed && late) (idle timed_out)
              (write_unlocked timed x) (λ _. same-Fine max r c k (idle timed_out) e tt)
              (λ _. same-Fine max r c k (write_unlocked timed x) e tt))
          (λ f. push-Fine max r c k x f e)

    pub write_locked-Fine :
        (late timed : Bool) (x : A)
        → r + 0 ≡ bit c.is_reading
        → Fine max r c (write_locked max late timed x c)
    unfolding write_locked
    write_locked-Fine late timed x e =
        if-cases (Fine max r c) c.is_closed _ _ (λ _. same-Fine max r c k (idle closed) e tt)
          (λ _. write_loop-Fine late timed x e)

    pub try_write-Fine : (x : A) → r + 0 ≡ bit c.is_reading → Fine max r c (try_write max x c)
    unfolding try_write
    try_write-Fine x e =
        if-cases (Fine max r c) c.is_closed _ _ (λ _. same-Fine max r c k (idle closed) e tt)
          (λ _.
            if-cases (Fine max r c) (is_full max c) _ _
              (λ _. same-Fine max r c k (idle failed) e tt) (λ f. push-Fine max r c k x f e))

    pub read_front-Fine :
        (late : Bool) (kind : Kind) (l : List A)
        → c.item_queue ≡ l
        → r + 1 ≡ bit c.is_reading
        → Fine max r c (read_front late kind l c)
    unfolding read_front
    read_front-Fine late kind (x ∷ rest) q e = taken-Fine kind r c x rest k q e
    read_front-Fine late kind [] q e =
        if-cases (Fine max r c) c.is_closed _ _ (λ _. same-Fine max r c k (releases closed) e tt)
          (λ _.
            if-cases (λ (s : Stage A). Fine max r c (s, c)) (is_timed kind && late)
              (releases timed_out) (read_unlocked kind)
              (λ _. same-Fine max r c k (releases timed_out) e tt)
              (λ _. same-Fine max r c k (read_unlocked kind) e tt))

    pub try_read_front-Fine :
        (l : List A)
        → c.item_queue ≡ l
        → r + 1 ≡ bit c.is_reading
        → Fine max r c (try_read_front l c)
    unfolding try_read_front
    try_read_front-Fine (x ∷ rest) q e = (pop-Fine max r c k x rest q e).1
    try_read_front-Fine [] q e = same-Fine max r c k (releases failed) e tt

    claim-Fine :
        (s : Stage A)
        → claims s ≡ 1
        → Waits s (record c { is_reading = true })
        → r + 0 ≡ bit c.is_reading
        → Fine max r c
            (if c.is_reading then (idle failed, c) else (s, record c { is_reading = true }))
    claim-Fine s one w e =
        if-cases (Fine max r c) c.is_reading _ _ (λ _. same-Fine max r c k (idle failed) e tt)
          (λ f. (k, ground (arith, f, e, one), w, inl (ground (arith, f, e))))

    pub read_begin-Fine :
        (kind : Kind) → r + 0 ≡ bit c.is_reading → Fine max r c (read_begin kind c)
    unfolding read_begin
    read_begin-Fine read_one e = claim-Fine (read_checks read_one) refl tt e
    read_begin-Fine read_all e = claim-Fine (read_locks read_all) refl tt e
    read_begin-Fine read_timed e =
        if-cases (Fine max r c) c.is_closed _ _ (λ _. same-Fine max r c k (idle closed) e tt)
          (λ _. claim-Fine (read_locks read_timed) refl tt e)

    pub try_read_begin-Fine : r + 0 ≡ bit c.is_reading → Fine max r c (try_read_begin c)
    unfolding try_read_begin
    try_read_begin-Fine e =
        if-cases (Fine max r c) c.is_closed _ _ (λ _. same-Fine max r c k (idle closed) e tt)
          (λ _. claim-Fine try_read_locks refl tt e)

    pub expire-Fine :
        (s : Stage A) → r + claims s ≡ bit c.is_reading → Waits s c → Fine max r c (expire s c)
    unfolding expire
    expire-Fine (write_parked timed x id) e w =
        if-cases (Fine max r c) (member id c.live) _ _
          (λ _.
            if-cases (λ (s : Stage A). Fine max r c (s, record c { live = remove id c.live })) timed
              write_expired (write_parked timed x id)
              (λ _. (k, e, tt, inr (inr (refl, refl, refl))))
              (λ _. (k, e, tt, inr (inr (refl, refl, refl)))))
          (λ _. same-Fine max r c k (write_parked timed x id) e tt)
    expire-Fine (read_parked kind) e w = (k, e, refl, inr (inl refl))
    expire-Fine s e w = same-Fine max r c k s e w

    pub recheck-Fine :
        (kind : Kind) → r + 1 ≡ bit c.is_reading → Fine max r c (read_parked kind, recheck_read c)
    unfolding recheck_read
    recheck-Fine kind e =
        if-cases (λ (d : Chan A). Fine max r c (read_parked kind, d)) (readable c) _ c
          (λ _. (k, e, refl, inr (inl refl)))
          (λ f. same-Fine max r c k (read_parked kind) e (ground (arith, f)))
