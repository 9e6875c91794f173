-- ===== src/Chan/Direct/Safety.antt =====
-- What the calls on a channel without a buffer keep, in any interleaving.
pub mod Runs
use mathlib.Core.List.{append_assoc}
use bbtools_coroutine.Base.{
  ℕ, zero, suc, ◌+◌, ◌%◌, ◌^◌, ◌≤◌, ◌<◌, ◌≡◌, refl, ap, sym, subst, ◌∙◌, Bool, true, false, not,
  ◌&&◌, ◌||◌, List, [], ◌∷◌, ◌++◌, length, length-append, leb, ltb, ltb→lt, ◌==◌, All, ◌⊎◌, inl,
  inr, if-cases, if◌then◌else◌, arith, bit,
}
use bbtools_coroutine.CoRwMutex.{member}
use bbtools_coroutine.Chan.{Chan, on_enable_read, on_enable_write, register_write, notify_each}
use bbtools_coroutine.Chan.Direct.{
  Direct, new_direct, unread, Ret, ok, closed, failed, Stage, idle, write_locks, write_unlocked,
  write_registered, write_parked, read_checks, read_locks, read_unlocked, read_registered,
  read_parked, read_gives_up, releases, broken, Move, writes, reads, closes, expires, goes_on,
  enqueue, enqueue_write, take_front, read_loop, close, recheck_read, go_on, expire, step, step_at,
  run, all_idle,
}

module _ {A : Type 0} where
  abbrev pub claims : Stage A → ℕ
  claims read_checks = 1
  claims read_locks = 1
  claims read_unlocked = 1
  claims read_registered = 1
  claims read_parked = 1
  claims read_gives_up = 1
  claims (releases r) = 1
  claims _ = 0

  abbrev pub ready : Direct A → Bool
  ready d = unread d || d.base.is_closed

  abbrev pub Waits : Stage A → Direct A → Type 0
  Waits read_parked d = (d.base.read_live && ready d) ≡ false
  Waits broken d = true ≡ false
  Waits _ d = Unit

  -- What a coroutine may do to the channel while another one holds the reading side.
  abbrev pub Stalls : Direct A → Direct A → Type 0
  Stalls d e =
      (e.base.read_live ≡ false)
      ⊎ (d.base.read_live ≡ false) × (e.base.read_live ≡ false)
      ⊎ (e.base.read_live ≡ d.base.read_live) × (ready e ≡ ready d)

  unfoldable pub Kept : Direct A → Type 0
  Kept d =
      (d.received ++ d.item_cache_ref ≡ d.sent)
      × (d.read_idx ≡ length d.received)
      × (d.write_idx ≡ length d.sent)

  abbrev pub Fine : ℕ → Direct A → Stage A × Direct A → Type 0
  Fine r d (s, e) =
      Kept e
      × (r + claims s ≡ bit e.base.is_reading)
      × Waits s e
      × (length e.sent ≤ length d.sent + 1)
      × ((r ≡ 0) ⊎ Stalls d e)

  Kept-length :
      (d : Direct A) → Kept d → length d.received + length d.item_cache_ref ≡ length d.sent
  unfolding Kept
  Kept-length d k = sym (length-append d.received d.item_cache_ref) ∙ ap length k.0

  module _ (r : ℕ) (d : Direct A) (k : Kept d) where
    same-Fine : (s : Stage A) → r + claims s ≡ bit d.base.is_reading → Waits s d → Fine r d (s, d)
    same-Fine s e w = (k, e, w, omega arith, inr (inr (inr (refl, refl))))

    enqueue-Fine :
        (x : A)
        → length d.sent + 1 < 2 ^ 64
        → r + 0 ≡ bit d.base.is_reading
        → Fine r d (enqueue x d)
    unfolding enqueue on_enable_read Kept
    enqueue-Fine x room e =
        let kept : (d.received ++ (d.item_cache_ref ++ x ∷ []) ≡ d.sent ++ x ∷ []) =
          sym (append_assoc d.received d.item_cache_ref (x ∷ [])) ∙ ap (λ l. l ++ x ∷ []) k.0 in
        let size = length-append d.sent (x ∷ []) in
        let sizes = Kept-length d k in
        let idx : ((d.write_idx + 1) % 2 ^ 64 ≡ d.write_idx + 1) = omega (arith, k.2, room) in
        if-cases (Fine r d) (d.base.is_reading && d.write_idx == d.read_idx) _ _
          (λ t. (
            (kept, k.1, omega (arith, idx, size, k.2)),
            e,
            tt,
            omega (arith, size),
            inr (inl refl),
          ))
          (λ f. (
            (kept, k.1, omega (arith, idx, size, k.2)),
            e,
            tt,
            omega (arith, size),
            ground (arith, f, e, idx, size, k.1, k.2, sizes),
          ))

    take-Fine :
        (l : List A)
        → d.item_cache_ref ≡ l
        → unread d ≡ true
        → length d.sent < 2 ^ 64
        → r + 1 ≡ bit d.base.is_reading
        → Fine r d (take_front l d)
    unfolding take_front on_enable_write Kept
    take-Fine [] q u room e = absurd (ground (arith, Kept-length d k, ap length q, u, k.1, k.2))
    take-Fine (x ∷ rest) q u room e =
        let whole : d.received ++ (x ∷ rest) ≡ d.sent =
          subst (λ l. d.received ++ l ≡ d.sent) q k.0 in
        let sizes = Kept-length d k in
        let size = length-append d.received (x ∷ []) in
        let idx : ((d.read_idx + 1) % 2 ^ 64 ≡ d.read_idx + 1) =
          omega (arith, k.1, k.2, room, sizes, ltb→lt d.read_idx d.write_idx u) in
        (
          (append_assoc d.received (x ∷ []) rest ∙ whole, omega (arith, idx, size, k.1), k.2),
          e,
          tt,
          omega arith,
          inl (ground (arith, e)),
        )

    read_loop-Fine : length d.sent < 2 ^ 64 → r + 1 ≡ bit d.base.is_reading → Fine r d (read_loop d)
    unfolding read_loop
    read_loop-Fine room e =
        if-cases (Fine r d) (unread d) _ _ (λ u. take-Fine d.item_cache_ref refl u room e)
          (λ u.
            if-cases (λ (s : Stage A). Fine r d (s, d)) d.base.is_closed (releases closed)
              read_unlocked (λ _. same-Fine (releases closed) e tt)
              (λ _. same-Fine read_unlocked e tt))

    enqueue_write-Fine :
        (i id : ℕ)
        → r + 0 ≡ bit d.base.is_reading
        → Fine r d (write_parked i id, enqueue_write i id d)
    unfolding enqueue_write Kept
    enqueue_write-Fine i id e =
        if-cases (λ (f : Direct A). Fine r d (write_parked i id, f))
          (not d.base.is_closed && leb d.read_idx i) _ _
          (λ _. (k, e, tt, omega arith, inr (inr (inr (refl, refl)))))
          (λ _. (k, e, tt, omega arith, inr (inr (inr (refl, refl)))))

    close-Fine : r + 0 ≡ bit d.base.is_reading → Fine r d (idle ok, close d)
    unfolding close on_enable_read Kept
    close-Fine e =
        let c : Chan A = record (d.base) { is_closed = true } in
        if-cases (λ (f : Direct A). Fine r d (idle ok, f)) d.base.is_closed d _
          (λ _. same-Fine (idle ok) e tt)
          (λ _.
            if-cases
              (λ (b : Chan A). Fine r d (
                idle ok,
                record d {
                  base = record b {
                    write_conds = [];
                    live = notify_each d.base.write_conds d.base.live;
                  };
                },
              ))
              c.is_reading _ c (λ _. (k, e, tt, omega arith, inr (inl refl)))
              (λ f. (k, e, tt, omega arith, inl (ground (arith, f, e)))))

    recheck-Fine : r + 1 ≡ bit d.base.is_reading → Fine r d (read_parked, recheck_read d)
    unfolding recheck_read Kept
    recheck-Fine e =
        if-cases (λ (f : Direct A). Fine r d (read_parked, f)) (ready d) _ d
          (λ _. (k, e, refl, omega arith, inr (inl refl)))
          (λ f. same-Fine read_parked e (ground (arith, f)))

    go_on-Fine :
        (b : Bool) (s : Stage A)
        → length d.sent + 1 < 2 ^ 64
        → r + claims s ≡ bit d.base.is_reading
        → Waits s d
        → Fine r d (go_on b s d)
    unfolding go_on register_write Kept
    go_on-Fine b (write_locks x) room e w = enqueue-Fine x room e
    go_on-Fine b (write_unlocked i) room e w =
        if-cases (Fine r d) b _ _ (λ _. (k, e, tt, omega arith, inr (inr (inr (refl, refl)))))
          (λ _. same-Fine (idle failed) e tt)
    go_on-Fine b (write_registered i id) room e w = enqueue_write-Fine i id e
    go_on-Fine b (write_parked i id) room e w =
        if-cases (λ (s : Stage A). Fine r d (s, d)) (member id d.base.live) (write_parked i id)
          (idle ok) (λ _. same-Fine (write_parked i id) e tt) (λ _. same-Fine (idle ok) e tt)
    go_on-Fine b read_checks room e w =
        if-cases (λ (s : Stage A). Fine r d (s, d)) (d.base.is_closed && not (unread d))
          (releases closed) read_locks (λ _. same-Fine (releases closed) e tt)
          (λ _. same-Fine read_locks e tt)
    go_on-Fine b read_locks room e w = read_loop-Fine (omega (arith, room)) e
    go_on-Fine b read_unlocked room e w =
        if-cases (Fine r d) b _ _ (λ _. (k, e, tt, omega arith, inl (ground (arith, e))))
          (λ _. same-Fine read_gives_up e tt)
    go_on-Fine b read_registered room e w = recheck-Fine e
    go_on-Fine b read_parked room e w =
        if-cases (λ (s : Stage A). Fine r d (s, d)) d.base.read_live read_parked read_locks
          (λ _. same-Fine read_parked e w) (λ _. same-Fine read_locks e tt)
    go_on-Fine b read_gives_up room e w = same-Fine (releases failed) e tt
    go_on-Fine b (releases v) room e w =
        (k, ground (arith, e), tt, omega arith, inl (ground (arith, e)))
    go_on-Fine b s room e w = same-Fine s e w

    expire-Fine :
        (s : Stage A) → r + claims s ≡ bit d.base.is_reading → Waits s d → Fine r d (expire s d)
    unfolding expire Kept
    expire-Fine (write_parked i id) e w = (k, e, tt, omega arith, inr (inr (inr (refl, refl))))
    expire-Fine read_parked e w = (k, e, refl, omega arith, inr (inl refl))
    expire-Fine s e w = same-Fine s e w

    pub step-Fine :
        (m : Move A) (s : Stage A)
        → length d.sent + 1 < 2 ^ 64
        → r + claims s ≡ bit d.base.is_reading
        → Waits s d
        → Fine r d (step m s d)
    unfolding step Kept
    step-Fine (writes x) (idle v) room e w =
        if-cases (λ (s : Stage A). Fine r d (s, d)) d.base.is_closed (idle closed) (write_locks x)
          (λ _. same-Fine (idle closed) e tt) (λ _. same-Fine (write_locks x) e tt)
    step-Fine reads (idle v) room e w =
        if-cases (Fine r d) d.base.is_reading _ _ (λ _. same-Fine (idle failed) e tt)
          (λ f. (k, ground (arith, f, e), tt, omega arith, inl (ground (arith, f, e))))
    step-Fine closes (idle v) room e w = close-Fine e
    step-Fine expires s room e w = expire-Fine s e w
    step-Fine (goes_on b) s room e w = go_on-Fine b s room e w
    step-Fine m s room e w = same-Fine s e w
