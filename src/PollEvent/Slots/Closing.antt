-- ===== src/PollEvent/Slots/Closing.antt =====
-- What closing a descriptor does to the waits on it, through any sequence of calls on the table.
use bbtools_coroutine.Base.{
  ℕ, ◌+◌, ◌%◌, ◌≡◌, refl, ap, sym, Bool, true, false, not, ◌&&◌, ◌||◌, Option, none, some, List, [],
  ◌∷◌, ◌++◌, All, ◌==◌, ==_iff, if◌then◌else◌, arith, ◌≢◌, ◌<◌,
}
use bbtools_coroutine.Base.Size.{word}
use bbtools_coroutine.Base.Map.{Unique}
use bbtools_coroutine.PollEvent.Slots.{
  fd_key, Slot, Slots, touch, slot_at, keep, Waiter, track_fd, track, fd_epoch, begin_fd_close,
  establish, Op, tracks, untracks, begins, ends, establishes, step, run, claim, claims,
}
use bbtools_coroutine.PollEvent.Slots.Laws.{after, step-Refines, fd_epoch-slot, fd_is_closing-slot}

after-epoch :
    (alive : ℕ → Bool) (o : Op) (j : ℕ) (m : Slots)
    → (slot_at j m).epoch < word
    → ((after alive o j (slot_at j m)).epoch ≡ ((slot_at j m).epoch + claim o j m) % word)
      × ((after alive o j (slot_at j m)).epoch < word)
unfolding after
after-epoch alive (tracks w) j m h = ground arith
after-epoch alive (untracks w) j m h = ground arith
after-epoch alive (begins fd) j m h = ground (arith, fd_is_closing-slot j m, ==_iff fd j)
after-epoch alive (ends fd) j m h = ground arith
after-epoch alive (establishes fd) j m h = ground arith

slot-epoch :
    (os : List ((ℕ → Bool) × Op)) (j : ℕ) (m : Slots)
    → Unique m
    → (slot_at j m).epoch < word
    → (slot_at j (run os m)).epoch ≡ ((slot_at j m).epoch + claims os j m) % word
unfolding run claims
slot-epoch [] j m u h = omega arith
slot-epoch ((alive, o) ∷ os) j m u h =
    let (read, unique) = step-Refines alive j m u o in
    let (next, bound) = after-epoch alive o j m h in
    let same : (slot_at j (step alive o m)).epoch ≡ (after alive o j (slot_at j m)).epoch =
      ap (λ s. s.epoch) read in
    let rest = slot-epoch os j (step alive o m) unique (rw same bound) in
    omega (arith, same, next, rest)

-- The generation of a descriptor counts, modulo 2^64, how often the descriptor was claimed for
-- closing, whatever other calls run in between and whether or not its slot is kept.
pub fd_epoch-run :
    (os : List ((ℕ → Bool) × Op)) (j : ℕ) (m : Slots)
    → Unique m
    → fd_epoch j m < word
    → fd_epoch j (run os m) ≡ (fd_epoch j m + claims os j m) % word
fd_epoch-run os j m u h = omega (
  arith,
  fd_epoch-slot j m,
  fd_epoch-slot j (run os m),
  slot-epoch os j m u (rw (sym (fd_epoch-slot j m)) h),
)

-- A wait samples the generation of its descriptor when it is set up. Any calls on the table follow,
-- and among them the descriptor is claimed for closing, fewer than 2^64 times. Then the wait is refused
-- when it comes to be registered, and every slot keeps its contents.
pub track-stale :
    (os : List ((ℕ → Bool) × Op)) (alive : ℕ → Bool) (w : Waiter) (fd : ℕ) (m : Slots)
    → Unique m
    → fd_epoch fd m < word
    → w.fd ≡ some fd
    → w.has_event ≡ true
    → w.wait_epoch ≡ (establish fd m).1
    → 0 < claims os fd m
    → claims os fd m < word
    → track alive w (run os m) ≡ (touch fd (run os m), false)
unfolding track track_fd establish
track-stale os alive w fd m u b f e s lo hi =
    let n = run os m in
    let now : (slot_at fd n).epoch ≡ ((slot_at fd m).epoch + claims os fd m) % word =
      omega (arith, fd_epoch-slot fd m, fd_epoch-slot fd n, fd_epoch-run os fd m u b) in
    let moved : (slot_at fd n).epoch ≢ w.wait_epoch =
      (λ q. omega (arith, now, b, fd_epoch-slot fd m, s, lo, hi, q)) in
    ground arith

abbrev pub ends_it : ℕ → Op → Bool
ends_it fd (ends j) = j == fd
ends_it fd _ = false

closing-after :
    (alive : ℕ → Bool) (o : Op) (fd : ℕ) (s : Slot)
    → ends_it fd o ≡ false
    → s.closing ≡ true
    → (after alive o fd s).closing ≡ true
unfolding after
closing-after alive (tracks w) fd s n c = ground arith
closing-after alive (untracks w) fd s n c = ground arith
closing-after alive (begins j) fd s n c = ground arith
closing-after alive (ends j) fd s n c = ground arith
closing-after alive (establishes j) fd s n c = c

run-closing :
    (os : List ((ℕ → Bool) × Op)) (fd : ℕ) (m : Slots)
    → Unique m
    → All (λ x. ends_it fd x.1 ≡ false) os
    → (slot_at fd m).closing ≡ true
    → (slot_at fd (run os m)).closing ≡ true
unfolding run
run-closing [] fd m u h c = c
run-closing ((alive, o) ∷ os) fd m u (h, hs) c =
    let (read, unique) = step-Refines alive fd m u o in
    run-closing os fd (step alive o m) unique hs
      (rw read (closing-after alive o fd (slot_at fd m) h c))

begin-claims :
    (alive : ℕ → Bool) (fd : ℕ) (m : Slots)
    → (begin_fd_close alive fd m).1
      ≡ (if (slot_at fd m).closing then none else some (keep alive (slot_at fd m).waiters))
unfolding begin_fd_close
begin-claims alive fd m = ground arith

-- Once a call has claimed a descriptor for closing, no second one can until the close has ended,
-- whatever other calls run in between.
pub begin_fd_close-exclusive :
    (alive alive' : ℕ → Bool) (os : List ((ℕ → Bool) × Op)) (fd : ℕ) (m : Slots) (woken : List ℕ)
    → Unique m
    → (begin_fd_close alive fd m).1 ≡ some woken
    → All (λ x. ends_it fd x.1 ≡ false) os
    → (begin_fd_close alive' fd (run os (begin_fd_close alive fd m).0)).1 ≡ none
unfolding step after
begin_fd_close-exclusive alive alive' os fd m woken u h hs =
    let n = (begin_fd_close alive fd m).0 in
    let (read, unique) = step-Refines alive fd m u (begins fd) in
    let opened : (slot_at fd m).closing ≡ false = ground (arith, begin-claims alive fd m) in
    let closed : (slot_at fd n).closing ≡ true = ground (arith, ==_iff fd fd) in
    let still = run-closing os fd n unique hs closed in
    ground (arith, begin-claims alive' fd (run os n))

pub waits : ℕ → List ℕ → Bool
waits id [] = false
waits id (x ∷ xs) = x == id || waits id xs

keep-waits :
    (p : ℕ → Bool) (id : ℕ) (xs : List ℕ)
    → p id ≡ true
    → waits id xs ≡ true
    → waits id (keep p xs) ≡ true
unfolding keep waits
keep-waits p id [] h w = w
keep-waits p id (x ∷ xs) h w = ground (arith, keep-waits p id xs h, ==_iff x id, ==_iff id id)

append-waits : (id : ℕ) (xs ys : List ℕ) → waits id (xs ++ ys) ≡ (waits id xs || waits id ys)
unfolding waits
append-waits id [] ys = refl
append-waits id (x ∷ xs) ys = ground (arith, append-waits id xs ys)

-- The event is alive during a call that neither closes its descriptor nor takes it out.
abbrev pub spares : ℕ → ℕ → (ℕ → Bool) × Op → Bool
spares id fd (alive, begins j) = alive id && not (j == fd)
spares id fd (alive, untracks w) = alive id && not (w.id == id)
spares id fd (alive, o) = alive id

spares-after :
    (alive : ℕ → Bool) (o : Op) (id fd : ℕ) (s : Slot)
    → spares id fd (alive, o) ≡ true
    → waits id s.waiters ≡ true
    → waits id (after alive o fd s).waiters ≡ true
unfolding after
spares-after alive (tracks w) id fd s h q =
    ground
      (arith, keep-waits alive id (s.waiters ++ w.id ∷ []), append-waits id s.waiters (w.id ∷ []))
spares-after alive (untracks w) id fd s h q = ground (
  arith,
  keep-waits (λ x. not (x == w.id) && alive x) id s.waiters,
  ==_iff id w.id,
  ==_iff w.id id,
)
spares-after alive (begins j) id fd s h q = ground arith
spares-after alive (ends j) id fd s h q = ground arith
spares-after alive (establishes j) id fd s h q = q

run-waits :
    (os : List ((ℕ → Bool) × Op)) (id fd : ℕ) (m : Slots)
    → Unique m
    → All (λ x. spares id fd x ≡ true) os
    → waits id (slot_at fd m).waiters ≡ true
    → waits id (slot_at fd (run os m)).waiters ≡ true
unfolding run
run-waits [] id fd m u h q = q
run-waits ((alive, o) ∷ os) id fd m u (h, hs) q =
    let (read, unique) = step-Refines alive fd m u o in
    run-waits os id fd (step alive o m) unique hs
      (rw read (spares-after alive o id fd (slot_at fd m) h q))

abbrev pub Wakes : ℕ → Option (List ℕ) → Type 0
Wakes id none = Unit
Wakes id (some woken) = waits id woken ≡ true

-- A wait on a descriptor that was accepted into the table is among the events that the next call to
-- claim the descriptor for closing is given to wake: after any calls that do not claim it or take the
-- wait out, and during which its event stays alive.
pub track-is_woken :
    (alive alive' : ℕ → Bool) (os : List ((ℕ → Bool) × Op)) (w : Waiter) (fd : ℕ) (m : Slots)
    → Unique m
    → w.fd ≡ some fd
    → w.has_event ≡ true
    → alive w.id ≡ true
    → alive' w.id ≡ true
    → (track alive w m).1 ≡ true
    → All (λ x. spares w.id fd x ≡ true) os
    → Wakes w.id (begin_fd_close alive' fd (run os (track alive w m).0)).1
unfolding track track_fd step after waits
track-is_woken alive alive' os w fd m u f e a a' t hs =
    let s = slot_at fd m in
    let n = (track alive w m).0 in
    let (read, unique) = step-Refines alive fd m u (tracks w) in
    let accepted : (s.closing || not (s.epoch == w.wait_epoch)) ≡ false = ground arith in
    let listed : waits w.id (slot_at fd n).waiters ≡ true = rw read (
      ground (
        arith,
        accepted,
        append-waits w.id s.waiters (w.id ∷ []),
        keep-waits alive w.id (s.waiters ++ w.id ∷ []),
        ==_iff w.id w.id,
        ==_iff fd fd,
      )) in
    let still = run-waits os w.id fd n unique hs listed in
    ground (
      arith,
      begin-claims alive' fd (run os n),
      keep-waits alive' w.id (slot_at fd (run os n)).waiters,
    )
