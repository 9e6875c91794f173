-- ===== src/CoCond/Tests.antt =====
-- The theorems about the condition variable at a concrete queue.
use bbtools_coroutine.Base.{ℕ, ◌≡◌, not, ◌&&◌, some, List, [], ◌∷◌, arith}
use bbtools_coroutine.CoRwMutex.{member}
use bbtools_coroutine.CoCond.{Cond, notify_one, notify_all}
use bbtools_coroutine.CoCond.Laws.{first_waiting, Wakes, notify_one-Wakes, notify_all_lem}

-- The first of three queued waiters has given up.
abbrev queued : Cond
queued = record { waiter_queue = 0 ∷ 1 ∷ 2 ∷ []; live = 2 ∷ 1 ∷ []; next_id = 3 }

notify_one-Wakes_example : Wakes (some (1, 2 ∷ [])) queued (notify_one queued)
unfolding first_waiting member
notify_one-Wakes_example = notify_one-Wakes queued

notify_all_lem_example :
    (rest : List ℕ) × (notify_all 4 (λ d. d) queued
      ≡ some (record queued { waiter_queue = []; live = rest }))
    × ((y : ℕ) → member y rest ≡ (member y queued.live && not (member y queued.waiter_queue)))
notify_all_lem_example = notify_all_lem 4 queued (omega arith)
