-- ===== src/PollEvent/Slots.antt =====
-- bbt/coroutine/detail/CoPollEvent.cc: the table of file descriptors, with the generation of each
-- (its epoch) and the events that wait on it. Every function is one critical section of the table's
-- mutex. An event is named by its id; `alive` tells which weak pointers have not expired.
pub mod Laws
pub mod Closing
mod Tests
use bbtools_coroutine.Base.{
  ℕ, zero, suc, ◌+◌, ◌≡◌, ◌↔◌, Bool, true, false, not, ◌&&◌, ◌||◌, Option, none, some, List, [],
  ◌∷◌, ◌++◌, length, ltb, ◌==◌, ==_iff, if◌then◌else◌,
}
use bbtools_coroutine.Base.Size.{inc}
use bbtools_coroutine.Base.Map.{Map, Key, find, put, erase}

instance abbrev pub fd_key : Key ℕ
fd_key = record { eqb = ◌==◌; before = ltb; eqb_iff = ==_iff }

-- `FdSlot`
pub record Slot : Type 0 where
  pub epoch : ℕ
  pub closing : Bool
  pub waiters : List ℕ

abbrev pub no_slot : Slot
no_slot = record { epoch = 0; closing = false; waiters = [] }

abbrev pub Slots : Type 0
Slots = Map ℕ Slot

abbrev pub slot_of : Option Slot → Slot
slot_of none = no_slot
slot_of (some s) = s

-- `_Slots()[fd]` makes a slot that is missing.
unfoldable pub touch : ℕ → Slots → Slots
touch fd m = elim (find fd m) [ none ↦ put fd no_slot m | some _ ↦ m ]

unfoldable pub slot_at : ℕ → Slots → Slot
slot_at fd m = slot_of (find fd m)

unfoldable pub keep : (ℕ → Bool) → List ℕ → List ℕ
keep p [] = []
keep p (x ∷ xs) = let rest = keep p xs in if p x then x ∷ rest else rest

abbrev pub is_empty : List ℕ → Bool
is_empty [] = true
is_empty (x ∷ xs) = false

-- A slot goes only if nobody waits and its descriptor was never closed.
abbrev pub erasable : Slot → Bool
erasable s = is_empty s.waiters && (not s.closing && s.epoch == 0)

-- What an event brings to the table: its descriptor, if it waits on one with a live Event, the
-- epoch sampled when the wait was set up, and its id.
pub record Waiter : Type 0 where
  pub id : ℕ
  pub fd : Option ℕ
  pub has_event : Bool
  pub wait_epoch : ℕ

unfoldable pub track_fd : (ℕ → Bool) → Waiter → ℕ → Slots → Slots × Bool
track_fd alive w fd m =
    let s = slot_at fd m in
    let all = s.waiters ++ w.id ∷ [] in
    let pruned : Slot = record s { waiters = keep alive all } in
    if s.closing || not (s.epoch == w.wait_epoch)
    then (touch fd m, false)
    else if ltb 16 (length all)
    then ((if erasable pruned then erase fd m else put fd pruned m), true)
    else (put fd (record s { waiters = all }) m, true)

-- `_TrackWaiter`
unfoldable pub track : (ℕ → Bool) → Waiter → Slots → Slots × Bool
track alive w m = elim w.fd [
  | none ↦ (m, true)
  | some fd ↦ if w.has_event then track_fd alive w fd m else (m, true)
]

untrack_fd : (ℕ → Bool) → ℕ → ℕ → Slots → Slots
untrack_fd alive id fd m = elim (find fd m) [
  | none ↦ m
  | some s ↦
      let t : Slot = record s { waiters = keep (λ x. not (x == id) && alive x) s.waiters } in
      if erasable t then erase fd m else put fd t m
]

-- `_UntrackWaiter`
pub untrack : (ℕ → Bool) → Waiter → Slots → Slots
untrack alive w m = elim w.fd [ none ↦ m | some fd ↦ untrack_fd alive w.id fd m ]

unfoldable pub fd_epoch : ℕ → Slots → ℕ
fd_epoch fd m = elim (find fd m) [ none ↦ 0 | some s ↦ s.epoch ]

pub fd_waiter_count : (ℕ → Bool) → ℕ → Slots → ℕ
fd_waiter_count alive fd m = elim (find fd m) [ none ↦ 0 | some s ↦ length (keep alive s.waiters) ]

unfoldable pub fd_is_closing : ℕ → Slots → Bool
fd_is_closing fd m = elim (find fd m) [ none ↦ false | some s ↦ s.closing ]

-- The critical section of `BeginFdClose`: the events to be woken, or `none` if another thread has
-- claimed the descriptor.
unfoldable pub begin_fd_close : (ℕ → Bool) → ℕ → Slots → Slots × Option (List ℕ)
begin_fd_close alive fd m =
    let s = slot_at fd m in
    if s.closing then (touch fd m, none) else (
      put fd (record { epoch = inc s.epoch; closing = true; waiters = [] }) m,
      some (keep alive s.waiters),
    )

unfoldable pub end_fd_close : ℕ → Slots → Slots
end_fd_close fd m = elim (find fd m) [
  | none ↦ m
  | some s ↦
      let t : Slot = record s { closing = false } in
      if is_empty t.waiters && t.epoch == 0 then erase fd m else put fd t m
]

-- `WaitFdCloseReady`: the table is read once for each of the rounds and once at the end. `tables`
-- holds what the reads see.
pub wait_fd_close_ready : ℕ → ℕ → (ℕ → Slots) → Bool
wait_fd_close_ready fd zero tables = not (fd_is_closing fd (tables 0))
wait_fd_close_ready fd (suc rounds) tables =
    let rest = wait_fd_close_ready fd rounds (λ i. tables (suc i)) in
    if not (fd_is_closing fd (tables 0)) then true else rest

-- The critical section of `InitFdEvent`: the epoch sampled, and whether the descriptor is closing.
unfoldable pub establish : ℕ → Slots → Slots × ℕ × Bool
establish fd m = let s = slot_at fd m in (touch fd m, s.epoch, s.closing)

-- A call that changes the table, with the weak pointers that are alive then.
pub data Op : Type 0 where
  tracks : Waiter → Op
  untracks : Waiter → Op
  begins : ℕ → Op
  ends : ℕ → Op
  establishes : ℕ → Op

unfoldable pub step : (ℕ → Bool) → Op → Slots → Slots
step alive (tracks w) m = (track alive w m).0
step alive (untracks w) m = untrack alive w m
step alive (begins fd) m = (begin_fd_close alive fd m).0
step alive (ends fd) m = end_fd_close fd m
step alive (establishes fd) m = (establish fd m).0

unfoldable pub run : List ((ℕ → Bool) × Op) → Slots → Slots
run [] m = m
run ((alive, o) ∷ os) m = run os (step alive o m)

-- How often a descriptor is claimed for closing.
abbrev pub claim : Op → ℕ → Slots → ℕ
claim (begins j) fd m = if j == fd then (if fd_is_closing fd m then 0 else 1) else 0
claim _ fd m = 0

unfoldable pub claims : List ((ℕ → Bool) × Op) → ℕ → Slots → ℕ
claims [] fd m = 0
claims ((alive, o) ∷ os) fd m = claim o fd m + claims os fd (step alive o m)
