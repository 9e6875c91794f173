-- ===== src/Coroutine/Wakes.antt =====
-- What a coroutine learns from the event that wakes it.
use bbtools_coroutine.Base.{
  ℕ, ◌%◌, ◌^◌, ◌<◌, ◌≡◌, sym, subst, Bool, not, ◌&&◌, ◌||◌, some, List, ◌==◌, ==_iff, Bool-cases,
  inl, inr, arith,
}
use bbtools_coroutine.Base.Size.{word}
use bbtools_coroutine.Base.Map.{Unique}
use bbtools_coroutine.PollEvent.Slots.{fd_key, Slots, Op, fd_epoch, establish, run, claims}
use bbtools_coroutine.PollEvent.Slots.Laws.{fd_epoch-slot}
use bbtools_coroutine.PollEvent.Slots.Closing.{fd_epoch-run}
use bbtools_coroutine.CoWaiter.{
  has_bit, is_timeout, is_writeable, is_readable, is_custom, is_cancelled,
}
use bbtools_coroutine.Coroutine.{
  AwaitEvent, Coroutine, mask_of, normalize_trigger_event, is_closed, on_co_poll_event,
  epoch_valid_at, fd_wait_epoch_valid,
}

-- Six bits and the places where they stand.
abbrev pub Reads : ℕ → Bool → Bool → Bool → Bool → Bool → Bool → Type 0
Reads m timeout writeable readable custom cancel closed =
    (is_timeout m ≡ timeout)
    × (is_writeable m ≡ writeable)
    × (is_readable m ≡ readable)
    × (is_custom m ≡ custom)
    × (is_cancelled m ≡ cancel)
    × (is_closed m ≡ closed)

mask_of-Reads : (t w r u c d : Bool) → Reads (mask_of t w r u c d) t w r u c d
mask_of-Reads t w r u c d =
    (ground arith, ground arith, ground arith, ground arith, ground arith, ground arith)

-- The mask that a coroutine keeps of its wake-up has the bits of the mask that the event delivers, with those for
-- readable and writeable exchanged, and no others.
on_co_poll_event-Reads :
    (event : ℕ) (ev : AwaitEvent) (c : Coroutine)
    → let m = event % 2 ^ 16 in
      let kept = (on_co_poll_event event ev c).1.last_resume_event in
      Reads kept (has_bit 0 m) (has_bit 2 m) (has_bit 1 m) (has_bit 3 m) (has_bit 8 m) (has_bit 9 m)
      × (kept < 2 ^ 10)
unfolding on_co_poll_event normalize_trigger_event
on_co_poll_event-Reads event ev c =
    let m = event % 2 ^ 16 in
    (
      mask_of-Reads (has_bit 0 m) (has_bit 2 m) (has_bit 1 m) (has_bit 3 m) (has_bit 8 m)
          (has_bit 9 m),
      ground arith,
    )

epoch_valid_at-claims :
    (os : List ((ℕ → Bool) × Op)) (m : Slots) (k fd : ℕ) (d : Coroutine)
    → Unique m
    → fd_epoch k m < word
    → d.last_wait_epoch ≡ (establish k m).1
    → claims os k m < word
    → epoch_valid_at (some k) (run os m) fd d ≡ (not (k == fd) || claims os k m == 0)
unfolding establish epoch_valid_at
epoch_valid_at-claims os m k fd d u b e lo =
    let n = run os m in
    let now = fd_epoch-run os k m u b in
    let here = fd_epoch-slot k m in
    elim (Bool-cases (k == fd)) [
      | inl t ↦
          subst (λ i. epoch_valid_at (some k) n i d ≡ (not (k == i) || claims os k m == 0))
            ((==_iff k fd).0 t) (ground (arith, now, here, e, b, lo))
      | inr t ↦ ground (arith, t)
    ]

-- A coroutine waits on a descriptor, whose generation was sampled when the wait was set up. Any calls on the table
-- of descriptors run before the coroutine comes to try its system call again, in which the descriptor is claimed
-- for closing fewer than 2^64 times. Then the try is allowed exactly if there was no such claim and the event does
-- not itself say that the descriptor was closed; for another descriptor, exactly if the event does not say so.
pub fd_wait_epoch_valid-claims :
    (os : List ((ℕ → Bool) × Op)) (m : Slots) (k fd event : ℕ) (ev : AwaitEvent) (c : Coroutine)
    → Unique m
    → fd_epoch k m < word
    → ev.fd ≡ some k
    → ev.wait_epoch ≡ (establish k m).1
    → claims os k m < word
    → let d = (on_co_poll_event event ev c).1 in
      fd_wait_epoch_valid (run os m) fd d
      ≡ (not (has_bit 9 (event % 2 ^ 16)) && (not (k == fd) || claims os k m == 0))
unfolding on_co_poll_event fd_wait_epoch_valid
fd_wait_epoch_valid-claims os m k fd event ev c u b f e lo =
    let n = event % 2 ^ 16 in
    let d = (on_co_poll_event event ev c).1 in
    let told : is_closed d.last_resume_event ≡ has_bit 9 n =
      (on_co_poll_event-Reads event ev c).0.5 in
    let fresh : epoch_valid_at ev.fd (run os m) fd d ≡ (not (k == fd) || claims os k m == 0) =
      subst (λ o. epoch_valid_at o (run os m) fd d ≡ (not (k == fd) || claims os k m == 0)) (sym f)
        (epoch_valid_at-claims os m k fd d u b e lo) in
    ground (arith, told, fresh)
