-- ===== src/CoMutex/Wakeups.antt =====
-- Whom the mutex wakes.
use bbtools_coroutine.Base.{ℕ, ◌≡◌, Option, none, some, [], arith}
use bbtools_coroutine.CoRwMutex.{remove, wake_first}
use bbtools_coroutine.CoRwMutex.Wakeups.{first_live, Scanned, wake_first-Scanned}
use bbtools_coroutine.CoMutex.{free, Mutex, notify_one, on_unlocked}

-- What an unlock leaves, given the first waiter that still waits.
abbrev pub Unlocks : Option ℕ → Mutex → Mutex → Type 0
Unlocks (some x) m n = (n.live ≡ remove x m.live) × (n.status ≡ free) × (n.locked_co ≡ none)
Unlocks none m n =
    (n.wait_queue ≡ []) × (n.live ≡ m.live) × (n.status ≡ free) × (n.locked_co ≡ none)

on_unlocked-split :
    (m : Mutex) (w : Option ℕ)
    → Scanned w m.live (wake_first m.wait_queue m.live)
    → Unlocks w m (on_unlocked m)
unfolding on_unlocked notify_one
on_unlocked-split m none s = ground arith
on_unlocked-split m (some x) s = ground arith

-- An unlock frees the mutex and wakes the first queued waiter that still waits, and no other: those
-- that gave up before, and the emptied slots, are passed over. If none waits any more, the queue is
-- emptied and nobody is woken.
pub on_unlocked_lem : (m : Mutex) → Unlocks (first_live m.wait_queue m.live) m (on_unlocked m)
on_unlocked_lem m =
    on_unlocked-split m (first_live m.wait_queue m.live) (wake_first-Scanned m.wait_queue m.live)
