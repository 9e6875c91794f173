-- ===== src/Chan/System/Safety.antt =====
-- What the calls on a channel with a buffer keep, in any interleaving.
pub mod Runs
pub mod Loops
use bbtools_coroutine.Base.{
  ℕ, zero, suc, ◌+◌, ◌≤◌, ◌≡◌, refl, ap, sym, subst, ◌∙◌, Bool, true, false, not, ◌&&◌, ◌||◌, List,
  [], ◌∷◌, ◌++◌, length, length-append, leb, All, ◌⊎◌, inl, inr, Bool-cases, if-cases,
  if◌then◌else◌, arith, bit,
}
use mathlib.Core.List.{append_assoc}
use bbtools_coroutine.CoRwMutex.{member, remove}
use bbtools_coroutine.Chan.{
  Chan, fresh, is_empty, is_full, none_watch, on_enable_read, on_enable_write, push, pop, pop_all,
  close, notify_each, enqueue_write, recheck_read,
}
use bbtools_coroutine.Chan.System.{
  Ret, ok, closed, failed, timed_out, Kind, read_one, read_all, read_timed, Stage, idle,
  write_locks, write_unlocked, write_registered, write_parked, write_expired, write_woken,
  write_relocks, read_checks, read_locks, read_unlocked, read_registered, read_parked,
  try_read_locks, read_gives_up, releases, Move, writes, try_writes, reads, try_reads, closes,
  watches_read, watches_write, leaves_read, leaves_write, expires, goes_on, taken, read_front,
  try_read_front, is_timed, write_loop, write_locked, try_write, read_loop, try_read, read_begin,
  try_read_begin, expire, go_on, step, step_at, run, all_idle,
}

module _ {A : Type 0} where
  -- The coroutines between the claim of the reading side and its release.
  abbrev pub claims : Stage A → ℕ
  claims (read_checks kind) = 1
  claims (read_locks kind) = 1
  claims (read_unlocked kind) = 1
  claims (read_registered kind) = 1
  claims (read_parked kind) = 1
  claims try_read_locks = 1
  claims read_gives_up = 1
  claims (releases r) = 1
  claims _ = 0

  -- Something to read, or nothing to come.
  abbrev pub readable : Chan A → Bool
  readable c = not (is_empty c.item_queue) || c.is_closed

  abbrev pub Waits : Stage A → Chan A → Type 0
  Waits (read_parked kind) c = (c.read_live && readable c) ≡ false
  Waits _ c = Unit

  -- What a coroutine may do to the channel while another one holds the reading side.
  abbrev pub Stalls : Chan A → Chan A → Type 0
  Stalls c d =
      (d.read_live ≡ false)
      ⊎ (d.read_live ≡ c.read_live) × (d.item_queue ≡ c.item_queue) × (d.is_closed ≡ c.is_closed)

module _ {A : Type 0} (max : ℕ) where
  abbrev pub Kept : Chan A → Type 0
  Kept c = (c.received ++ c.item_queue ≡ c.sent) × (length c.item_queue ≤ max)

  abbrev pub Fine : ℕ → Chan A → Stage A × Chan A → Type 0
  Fine r c (s, d) = Kept d × (r + claims s ≡ bit d.is_reading) × Waits s d × ((r ≡ 0) ⊎ Stalls c d)

  module _ (r : ℕ) (c : Chan A) (k : Kept c) where
    pub same-Fine : (s : Stage A) → r + claims s ≡ bit c.is_reading → Waits s c → Fine r c (s, c)
    same-Fine s e w = (k, e, w, inr (inr (refl, refl, refl)))

    pushed-Kept :
        (x : A)
        → leb max (length c.item_queue) ≡ false
        → (c.received ++ (c.item_queue ++ x ∷ []) ≡ c.sent ++ x ∷ [])
          × (length (c.item_queue ++ x ∷ []) ≤ max)
    pushed-Kept x f = (
      sym (append_assoc c.received c.item_queue (x ∷ [])) ∙ ap (λ l. l ++ x ∷ []) k.0,
      ground (arith, length-append c.item_queue (x ∷ [])),
    )

    pub push-Fine :
        (x : A)
        → leb max (length c.item_queue) ≡ false
        → r + 0 ≡ bit c.is_reading
        → Fine r c (idle ok, push x c)
    unfolding push on_enable_read
    push-Fine x f e =
        let d : Chan A = record c {
          item_queue = c.item_queue ++ x ∷ [];
          sent = c.sent ++ x ∷ [];
        } in
        let kept = pushed-Kept x f in
        if-cases (λ (d' : Chan A). Fine r c (idle ok, d'))
          (d.is_reading || not (none_watch d.read_watchers)) (on_enable_read d) d
          (λ t. (kept, e, tt, inr (inl refl))) (λ t. (kept, e, tt, inl (ground (arith, t, e))))

    pub pop-Fine :
        (x : A) (rest : List A)
        → c.item_queue ≡ x ∷ rest
        → r + 1 ≡ bit c.is_reading
        → Kept (pop x rest c) × Fine r c (releases ok, pop x rest c)
    unfolding pop on_enable_write
    pop-Fine x rest q e =
        let kept : (c.received ++ (x ∷ rest) ≡ c.sent) × (suc (length rest) ≤ max) =
          subst (λ l. (c.received ++ l ≡ c.sent) × (length l ≤ max)) q k in
        let kept' : (c.received ++ x ∷ [] ++ rest ≡ c.sent) × (length rest ≤ max) =
          (append_assoc c.received (x ∷ []) rest ∙ kept.0, omega (arith, kept.1)) in
        (kept', (kept', e, tt, inl (ground (arith, e))))

    close-Fine : r + 0 ≡ bit c.is_reading → Fine r c (idle ok, close c)
    unfolding close on_enable_read
    close-Fine e =
        let d : Chan A = record c { is_closed = true } in
        if-cases (λ (d' : Chan A). Fine r c (idle ok, d')) c.is_closed c _
          (λ t. same-Fine (idle ok) e tt)
          (λ f.
            if-cases
              (λ (d' : Chan A). Fine r c (
                idle ok,
                record d' {
                  write_conds = [];
                  live = notify_each c.write_conds c.live;
                  watching = notify_each c.write_watchers (notify_each c.read_watchers d'.watching);
                },
              ))
              d.is_reading (on_enable_read d) d (λ t. (k, e, tt, inr (inl refl)))
              (λ g. (k, e, tt, inl (ground (arith, g, e)))))

    -- The caller itself holds the reading side, and changes only who else waits.
    reader-Fine :
        (s : Stage A) → claims s ≡ 1 → r + 1 ≡ bit c.is_reading → Waits s c → Fine r c (s, c)
    reader-Fine s one e w = same-Fine s (omega (arith, one, e)) w

    enqueue-Fine :
        (timed : Bool) (x : A) (id : ℕ)
        → r + 0 ≡ bit c.is_reading
        → Fine r c (write_parked timed x id, enqueue_write max id c)
    unfolding enqueue_write
    enqueue-Fine timed x id e =
        if-cases (λ (d : Chan A). Fine r c (write_parked timed x id, d))
          (not c.is_closed && is_full max c) _ _ (λ t. (k, e, tt, inr (inr (refl, refl, refl))))
          (λ f. (k, e, tt, inr (inr (refl, refl, refl))))
