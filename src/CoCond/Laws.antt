-- ===== src/CoCond/Laws.antt =====
-- Whom the condition variable wakes.
use bbtools_coroutine.Base.{
  ℕ, zero, suc, ◌≡◌, ◌<◌, refl, Bool, true, false, not, ◌&&◌, Option, none, some, List, [], ◌∷◌,
  length, if◌then◌else◌, inl, inr, Bool-cases, arith,
}
use bbtools_coroutine.CoRwMutex.{member, remove}
use bbtools_coroutine.CoRwMutex.Wakeups.{member-remove}
use bbtools_coroutine.CoCond.{Cond, wake_one, notify_one, notify_round, notify_all}

-- The first waiter in a queue that still waits, and the queue behind it.
unfoldable pub first_waiting : List ℕ → List ℕ → Option (ℕ × List ℕ)
first_waiting [] live = none
first_waiting (x ∷ q) live = if member x live then some (x, q) else first_waiting q live

abbrev pub Wakes : Option (ℕ × List ℕ) → Cond → Cond × Bool → Type 0
Wakes (some (x, q)) c (d, woke) = (d.live ≡ remove x c.live) × (d.waiter_queue ≡ q) × (woke ≡ true)
Wakes none c (d, woke) = (d.live ≡ c.live) × (d.waiter_queue ≡ []) × (woke ≡ false)

wake_one-Wakes :
    (c : Cond) (q live : List ℕ)
    → live ≡ c.live
    → let (left, rest, woke) = wake_one q live in
      Wakes (first_waiting q live) c (record c { waiter_queue = left; live = rest }, woke)
unfolding wake_one first_waiting
wake_one-Wakes c [] live e = (e, refl, refl)
wake_one-Wakes c (x ∷ q) live e = elim (Bool-cases (member x live)) [
  | inl t ↦ rw (t, wake_one, first_waiting) (rw e refl, refl, refl)
  | inr f ↦ rw (f, wake_one, first_waiting) (wake_one-Wakes c q live e)
]

-- NotifyOne wakes the first queued waiter that still waits, and drops those before it, which gave up;
-- those behind it stay queued. It reports success exactly if there was one.
pub notify_one-Wakes : (c : Cond) → Wakes (first_waiting c.waiter_queue c.live) c (notify_one c)
unfolding notify_one
notify_one-Wakes c = wake_one-Wakes c c.waiter_queue c.live refl

notify_all-run :
    (fuel : ℕ) (q live : List ℕ) (next : ℕ)
    → length q < fuel
    → (rest : List ℕ) × (notify_all fuel
          (λ d. d)
          (record { waiter_queue = q; live = live; next_id = next })
        ≡ some (record { waiter_queue = []; live = rest; next_id = next }))
      × ((y : ℕ) → member y rest ≡ (member y live && not (member y q)))
unfolding notify_all notify_round member
notify_all-run zero q live next h = absurd (omega arith)
notify_all-run (suc fuel) [] live next h = (live, refl, λ y. ground arith)
notify_all-run (suc fuel) (x ∷ q) live next h =
    let (rest, run, gone) = notify_all-run fuel q (remove x live) next (omega arith) in
    (rest, run, λ y. ground (arith, gone y, member-remove x y live))

-- With no other call between its rounds NotifyAll ends, with more fuel than queued waiters, empties the
-- queue, and leaves waiting just those that waited before and were not queued.
pub notify_all_lem :
    (fuel : ℕ) (c : Cond)
    → length c.waiter_queue < fuel
    → (rest : List ℕ) × (notify_all fuel (λ d. d) c
        ≡ some (record c { waiter_queue = []; live = rest }))
      × ((y : ℕ) → member y rest ≡ (member y c.live && not (member y c.waiter_queue)))
notify_all_lem fuel c h = notify_all-run fuel c.waiter_queue c.live c.next_id h
