-- ===== src/PollEvent/Slots/Laws.antt =====
-- The table of descriptors through any sequence of calls.
use bbtools_coroutine.Base.{
  ℕ, ◌≡◌, refl, ap, Bool, true, false, not, ◌&&◌, ◌||◌, Option, none, some, List, [], ◌∷◌, ◌++◌,
  length, ltb, ◌==◌, ==_iff, if◌then◌else◌, arith, inl, inr, Bool-cases, Option-cases,
}
use bbtools_coroutine.Base.Size.{inc}
use bbtools_coroutine.Base.Map.{
  Unique, find, put, erase, find-put, find-erase, put-Unique, erase-Unique,
}
use bbtools_coroutine.PollEvent.Slots.{
  fd_key, Slot, no_slot, Slots, touch, slot_at, keep, erasable, Waiter, track_fd, track, untrack_fd,
  untrack, fd_epoch, fd_is_closing, begin_fd_close, end_fd_close, establish, Op, tracks, untracks,
  begins, ends, establishes, step,
}

touch-Unique : (fd : ℕ) (m : Slots) → Unique m → Unique (touch fd m)
unfolding touch
touch-Unique fd m u = elim (Option-cases (find fd m)) [
  | inl e ↦ rw (e, touch) (put-Unique fd no_slot m u)
  | inr (s, e) ↦ rw (e, touch) u
]

pub slot_at-touch : (fd j : ℕ) (m : Slots) → slot_at j (touch fd m) ≡ slot_at j m
unfolding touch slot_at
slot_at-touch fd j m = ground (arith, find-put j fd no_slot m, ==_iff fd j)

slot_at-put :
    (fd j : ℕ) (s : Slot) (m : Slots)
    → slot_at j (put fd s m) ≡ (if fd == j then s else slot_at j m)
unfolding slot_at
slot_at-put fd j s m = ground (arith, find-put j fd s m)

slot_at-erase :
    (fd j : ℕ) (m : Slots)
    → Unique m
    → slot_at j (erase fd m) ≡ (if fd == j then no_slot else slot_at j m)
unfolding slot_at
slot_at-erase fd j m u = ground (arith, find-erase j fd m u)

slot_at-none : (fd : ℕ) (m : Slots) → find fd m ≡ none → slot_at fd m ≡ no_slot
unfolding slot_at
slot_at-none fd m e = rw e

slot_at-some : (fd : ℕ) (m : Slots) {s : Slot} → find fd m ≡ some s → slot_at fd m ≡ s
unfolding slot_at
slot_at-some fd m e = rw e

keep-nil : (p : ℕ → Bool) → keep p [] ≡ []
unfolding keep
keep-nil p = refl

pub fd_epoch-slot : (fd : ℕ) (m : Slots) → fd_epoch fd m ≡ (slot_at fd m).epoch
unfolding fd_epoch slot_at
fd_epoch-slot fd m = ground arith

pub fd_is_closing-slot : (fd : ℕ) (m : Slots) → fd_is_closing fd m ≡ (slot_at fd m).closing
unfolding fd_is_closing slot_at
fd_is_closing-slot fd m = ground arith

-- The table seen as a slot for every descriptor, one that is not in it being the first slot: what a
-- call does to the slot of `j`.
abbrev tracked : (ℕ → Bool) → Waiter → Slot → Slot
tracked alive w s =
    let all = s.waiters ++ w.id ∷ [] in
    if s.closing || not (s.epoch == w.wait_epoch)
    then s
    else record s { waiters = (if ltb 16 (length all) then keep alive all else all) }

unfoldable pub after : (ℕ → Bool) → Op → ℕ → Slot → Slot
after alive (tracks w) j s = elim w.fd [
  | none ↦ s
  | some fd ↦ if w.has_event && fd == j then tracked alive w s else s
]
after alive (untracks w) j s = elim w.fd [
  | none ↦ s
  | some fd ↦
      if fd == j then record s { waiters = keep (λ x. not (x == w.id) && alive x) s.waiters } else s
]
after alive (begins fd) j s =
    if fd == j && not s.closing
    then record { epoch = inc s.epoch; closing = true; waiters = [] }
    else s
after alive (ends fd) j s = if fd == j then record s { closing = false } else s
after alive (establishes fd) j s = s

erasable-eq : (s : Slot) → erasable s ≡ true → s ≡ no_slot
erasable-eq s e = waiters-eq s.waiters refl
  where
    waiters-eq : (xs : List ℕ) → s.waiters ≡ xs → s ≡ no_slot
    waiters-eq [] q = ground arith
    waiters-eq (x ∷ xs) q = ground arith

module _ (alive : ℕ → Bool) (j : ℕ) (m : Slots) (u : Unique m) where
  -- A slot that is written, or dropped because it is the first slot, reads as it was meant.
  settle :
      (fd : ℕ) (s : Slot)
      → (slot_at j (if erasable s then erase fd m else put fd s m)
          ≡ (if fd == j then s else slot_at j m))
        × Unique (if erasable s then erase fd m else put fd s m)
  settle fd s = elim (Bool-cases (erasable s)) [
    | inl t ↦ rw t (ground (arith, erasable-eq s t, slot_at-erase fd j m u), erase-Unique fd m u)
    | inr f ↦ rw f (slot_at-put fd j s m, put-Unique fd s m u)
  ]

  abbrev Refines : Slots → Slot → Type 0
  Refines n s = (slot_at j n ≡ s) × Unique n

  touch-Refines : (fd : ℕ) → Refines (touch fd m) (slot_at j m)
  touch-Refines fd = (slot_at-touch fd j m, touch-Unique fd m u)

  track_fd-Refines :
      (w : Waiter) (fd : ℕ)
      → Refines
          (track_fd alive w fd m).0
          (if fd == j then tracked alive w (slot_at j m) else slot_at j m)
  unfolding track_fd
  track_fd-Refines w fd =
      let s = slot_at fd m in
      let all = s.waiters ++ w.id ∷ [] in
      elim (Bool-cases (s.closing || not (s.epoch == w.wait_epoch))) [
        | inl t ↦ rw t (ground (arith, touch-Refines fd, ==_iff fd j), touch-Unique fd m u)
        | inr f ↦ rw f (elim (Bool-cases (ltb 16 (length all))) [
          | inl t ↦ rw t (
            ground (arith, (settle fd (record s { waiters = keep alive all })).0, ==_iff fd j),
            (settle fd (record s { waiters = keep alive all })).1,
          )
          | inr g ↦ rw g (
            ground (arith, slot_at-put fd j (record s { waiters = all }) m, ==_iff fd j),
            put-Unique fd (record s { waiters = all }) m u,
          )
        ])
      ]

  untrack_fd-Refines :
      (id fd : ℕ)
      → Refines (untrack_fd alive id fd m) (
          if fd == j
          then record (slot_at j m) {
            waiters = keep (λ x. not (x == id) && alive x) (slot_at j m).waiters;
          }
          else slot_at j m)
  unfolding untrack_fd
  untrack_fd-Refines id fd = elim (Option-cases (find fd m)) [
    | inl n ↦
        rw (n, untrack_fd)
          (
            ground
                (arith, slot_at-none fd m n, ==_iff fd j, keep-nil (λ x. not (x == id) && alive x)),
            u,
          )
    | inr (s, h) ↦
        let t : Slot = record s { waiters = keep (λ x. not (x == id) && alive x) s.waiters } in
        rw (h, untrack_fd)
          (ground (arith, (settle fd t).0, slot_at-some fd m h, ==_iff fd j), (settle fd t).1)
  ]

  end-Refines :
      (fd : ℕ)
      → Refines
          (end_fd_close fd m)
          (if fd == j then record (slot_at j m) { closing = false } else slot_at j m)
  unfolding end_fd_close
  end-Refines fd = elim (Option-cases (find fd m)) [
    | inl n ↦ rw (n, end_fd_close) (ground (arith, slot_at-none fd m n, ==_iff fd j), u)
    | inr (s, h) ↦
        let t : Slot = record s { closing = false } in
        rw (h, end_fd_close)
          (ground (arith, (settle fd t).0, slot_at-some fd m h, ==_iff fd j), (settle fd t).1)
  ]

  begin-Refines :
      (fd : ℕ) → Refines (begin_fd_close alive fd m).0 (after alive (begins fd) j (slot_at j m))
  unfolding begin_fd_close after
  begin-Refines fd =
      let s = slot_at fd m in
      let claimed : Slot = record { epoch = inc s.epoch; closing = true; waiters = [] } in
      elim (Bool-cases s.closing) [
        | inl t ↦ rw t (ground (arith, touch-Refines fd, ==_iff fd j), touch-Unique fd m u)
        | inr f ↦
            rw f
              (ground (arith, slot_at-put fd j claimed m, ==_iff fd j), put-Unique fd claimed m u)
      ]

  track-some :
      (w : Waiter) (fd : ℕ)
      → w.fd ≡ some fd
      → (track alive w m ≡ (if w.has_event then track_fd alive w fd m else (m, true)))
        × (after alive (tracks w) j (slot_at j m)
            ≡ (if w.has_event && fd == j then tracked alive w (slot_at j m) else slot_at j m))
  unfolding track after
  track-some w fd e = (
    ap
        (λ o. elim o [
          | none ↦ (m, true)
          | some fd ↦ if w.has_event then track_fd alive w fd m else (m, true)
        ])
        e,
    ap
        (λ o. elim o [
          | none ↦ slot_at j m
          | some fd ↦ if w.has_event && fd == j then tracked alive w (slot_at j m) else slot_at j m
        ])
        e,
  )

  untrack-some :
      (w : Waiter) (fd : ℕ)
      → w.fd ≡ some fd
      → (untrack alive w m ≡ untrack_fd alive w.id fd m)
        × (after alive (untracks w) j (slot_at j m) ≡ (
            if fd == j
            then record (slot_at j m) {
              waiters = keep (λ x. not (x == w.id) && alive x) (slot_at j m).waiters;
            }
            else slot_at j m))
  unfolding untrack after
  untrack-some w fd e = ground arith

  track-Refines :
      (w : Waiter) (fd? : Option ℕ)
      → w.fd ≡ fd?
      → Refines (track alive w m).0 (after alive (tracks w) j (slot_at j m))
  unfolding track after track_fd
  track-Refines w none e = rw (e, track, after) (refl, u)
  track-Refines w (some fd) e =
      let (same, meant) = track-some w fd e in
      rw (same, meant)
        (elim (Bool-cases w.has_event) [
          | inl t ↦ rw t (track_fd-Refines w fd)
          | inr f ↦ rw f (refl, u)
        ])

  untrack-Refines :
      (w : Waiter) (fd? : Option ℕ)
      → w.fd ≡ fd?
      → Refines (untrack alive w m) (after alive (untracks w) j (slot_at j m))
  unfolding untrack after
  untrack-Refines w none e = rw (e, untrack, after) (refl, u)
  untrack-Refines w (some fd) e =
      let (same, meant) = untrack-some w fd e in rw (same, meant) (untrack_fd-Refines w.id fd)

  -- Each call does to every descriptor's slot what the slot-wise description says, whether or not
  -- slots are kept in the table, and the descriptors stand in the table once each.
  pub step-Refines :
      (o : Op)
      → (slot_at j (step alive o m) ≡ after alive o j (slot_at j m)) × Unique (step alive o m)
  unfolding step after establish
  step-Refines (tracks w) = track-Refines w w.fd refl
  step-Refines (untracks w) = untrack-Refines w w.fd refl
  step-Refines (begins fd) = begin-Refines fd
  step-Refines (ends fd) = end-Refines fd
  step-Refines (establishes fd) = touch-Refines fd
