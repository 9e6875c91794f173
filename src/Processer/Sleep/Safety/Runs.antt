-- ===== src/Processer/Sleep/Safety/Runs.antt =====
-- A worker and any number of callers, in any interleaving.
use bbtools_coroutine.Base.{ℕ, zero, suc, ◌+◌, ◌≤◌, ◌≡◌, true, false, List, [], ◌∷◌, sum, ◌⊎◌}
use bbtools_coroutine.Processer.Sleep.{Latch, Stage, sleeps, awaits, Caller, idle}
use bbtools_coroutine.Processer.Sleep.Safety.{
  publishing, notifying, waking, retiring_by, owed, Rests,
}

abbrev pub callers : ℕ → List Caller
callers zero = []
callers (suc k) = idle ∷ callers k

-- The worker, beside callers that are elsewhere.
abbrev Summed : ℕ → ℕ → ℕ → ℕ → Stage → List Caller → Latch → Type 0
Summed p n w r s cs l =
    Rests (p + sum publishing cs) (n + sum notifying cs) (w + sum waking cs)
      (r + sum retiring_by cs) s l

-- What it says of a sleeping worker that it is not forgotten.
abbrev pub Remembered : Stage → List Caller → Latch → Type 0
Remembered sleeps cs l =
    (l.run_cond_notify ≡ true → owed l ≤ sum publishing cs)
    × (l.run_cond_notify ≡ false → (l.signalled ≡ true) ⊎ (1 ≤ sum notifying cs))
Remembered awaits cs l =
    (l.driver_woken ≡ false → owed l ≤ sum waking cs)
    × (l.driver_woken ≡ false → l.run_cond_notify ≡ false → 1 ≤ sum waking cs)
Remembered _ cs l = Unit
