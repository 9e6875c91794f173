-- ===== src/Processer/Sleep/Safety.antt =====
-- A worker that sleeps has nothing to do, unless somebody is about to wake it.
pub mod Runs
use bbtools_coroutine.Base.{
  ℕ, zero, suc, ◌+◌, ◌-◌, ◌≤◌, ◌==◌, leb, ltb, ◌≡◌, refl, Bool, true, false, not, ◌&&◌, ◌||◌, ◌⊎◌,
  inl, inr, bit, if◌then◌else◌, arith,
}
use bbtools_coroutine.Processer.Sleep.{
  Latch, Stage, works, enters, checks, decides, sleeps, awaits, Caller, idle, requests_retire,
  publishes, notifies, wakes_driver, leave, end_driver_wait, pull, check_local, decide, wake,
  wait_for_work, Turn, runs, waits, goes_on, work, Call, offers, offers_globally, steals,
  takes_global, begins_retire, proceeds, call,
}

-- Who has yet to set the latch, to signal, to wake the driver; and who retires the worker.
abbrev pub publishing : Caller → ℕ
publishing (publishes b) = 1
publishing _ = 0

abbrev pub notifying : Caller → ℕ
notifying (notifies b) = 1
notifying _ = 0

abbrev pub waking : Caller → ℕ
waking (publishes true) = 1
waking (notifies true) = 1
waking wakes_driver = 1
waking _ = 0

abbrev pub retiring_by : Caller → ℕ
retiring_by (publishes false) = 1
retiring_by (notifies false) = 1
retiring_by requests_retire = 1
retiring_by _ = 0

-- What the worker could take from the global queue; what it ought not to sleep over.
abbrev pub visible : Latch → ℕ
visible l = if l.admission_open then l.global_num else 0

abbrev pub owed : Latch → ℕ
owed l = l.executable_num + visible l + bit l.retire_requested

abbrev pub At : ℕ → ℕ → ℕ → Stage → Latch → Type 0
At p n w works l = (l.held ≡ false) × (l.asleep ≡ false) × (l.leased ≡ false)
At p n w (enters d) l = (l.held ≡ false) × (l.asleep ≡ false) × (l.leased ≡ d)
At p n w (checks d) l =
    (l.held ≡ true) × (l.asleep ≡ false) × (l.leased ≡ d) × (l.news ≡ false) × (visible l ≤ p)
At p n w (decides d) l =
    (l.held ≡ true)
    × (l.asleep ≡ false)
    × (l.leased ≡ d)
    × (l.news ≡ false)
    × (l.executable_num + visible l ≤ p)
At p n w sleeps l =
    (l.held ≡ false)
    × (l.asleep ≡ true)
    × (l.leased ≡ false)
    × (l.run_cond_notify ≡ true → owed l ≤ p)
    × (l.run_cond_notify ≡ false → (l.signalled ≡ true) ⊎ (1 ≤ n))
At p n w awaits l =
    (l.held ≡ false)
    × (l.asleep ≡ false)
    × (l.leased ≡ true)
    × (l.driver_woken ≡ false → owed l ≤ w)
    × (l.driver_woken ≡ false → l.run_cond_notify ≡ false → 1 ≤ w)

-- `p` callers are about to publish, `n` to notify, `w` owe the driver a Wake, `r` retire the worker.
abbrev pub Rests : ℕ → ℕ → ℕ → ℕ → Stage → Latch → Type 0
Rests p n w r s l =
    At p n w s l
    × (l.retire_begun ≡ false → (l.retire_requested ≡ false) × (r ≡ 0))
    × (l.leased ≡ true → l.retire_begun ≡ false)
    × (l.news ≡ true → l.run_cond_notify ≡ false)

pub publishing-le : (c : Caller) → publishing c ≤ waking c + retiring_by c
publishing-le idle = omega arith
publishing-le requests_retire = omega arith
publishing-le (publishes true) = omega arith
publishing-le (publishes false) = omega arith
publishing-le (notifies true) = omega arith
publishing-le (notifies false) = omega arith
publishing-le wakes_driver = omega arith

module _ (p n w r : ℕ) (le : p ≤ w + r) where
  pub work-Rests :
      (t : Turn) (s : Stage) (l : Latch)
      → Rests p n w r s l
      → let (s', l') = work t s l in Rests p n w r s' l'
  unfolding work leave end_driver_wait pull check_local decide wake wait_for_work
  work-Rests (runs k) works l h = ground arith
  work-Rests (waits true) works l h = ground arith
  work-Rests (waits false) works l h = ground arith
  work-Rests (goes_on k t) (enters d) l h = ground arith
  work-Rests (goes_on k t) (checks d) l h = ground arith
  work-Rests (goes_on k t) (decides true) l h = ground arith
  work-Rests (goes_on k t) (decides false) l h = ground arith
  work-Rests (goes_on k t) sleeps l h = ground arith
  work-Rests (goes_on k t) awaits l h = ground arith
  work-Rests t s l h = h

  -- What a caller does while the worker stands in a given stage.
  abbrev Called : Stage → Call → Caller → Latch → Type 0
  Called s m c l =
      Rests (p + publishing c) (n + notifying c) (w + waking c) (r + retiring_by c) s l
      → let (c', l') = call m c l in
        Rests (p + publishing c') (n + notifying c') (w + waking c') (r + retiring_by c') s l'

  works-Called : (m : Call) (c : Caller) (l : Latch) → Called works m c l
  unfolding call
  works-Called offers idle l h = ground arith
  works-Called offers_globally idle l h = ground arith
  works-Called steals idle l h = ground arith
  works-Called takes_global idle l h = ground arith
  works-Called begins_retire idle l h = ground arith
  works-Called proceeds requests_retire l h = ground arith
  works-Called proceeds (publishes true) l h = ground arith
  works-Called proceeds (publishes false) l h = ground arith
  works-Called proceeds (notifies true) l h = ground arith
  works-Called proceeds (notifies false) l h = ground arith
  works-Called proceeds wakes_driver l h = ground arith
  works-Called m c l h = h

  enters-Called : (d : Bool) (m : Call) (c : Caller) (l : Latch) → Called (enters d) m c l
  unfolding call
  enters-Called d offers idle l h = ground arith
  enters-Called d offers_globally idle l h = ground arith
  enters-Called d steals idle l h = ground arith
  enters-Called d takes_global idle l h = ground arith
  enters-Called d begins_retire idle l h = ground arith
  enters-Called d proceeds requests_retire l h = ground arith
  enters-Called d proceeds (publishes true) l h = ground arith
  enters-Called d proceeds (publishes false) l h = ground arith
  enters-Called d proceeds (notifies true) l h = ground arith
  enters-Called d proceeds (notifies false) l h = ground arith
  enters-Called d proceeds wakes_driver l h = ground arith
  enters-Called d m c l h = h

  checks-Called : (d : Bool) (m : Call) (c : Caller) (l : Latch) → Called (checks d) m c l
  unfolding call
  checks-Called d offers idle l h = ground arith
  checks-Called d offers_globally idle l h = ground arith
  checks-Called d steals idle l h = ground arith
  checks-Called d takes_global idle l h = ground arith
  checks-Called d begins_retire idle l h = ground arith
  checks-Called d proceeds requests_retire l h = ground arith
  checks-Called d proceeds (publishes true) l h = ground arith
  checks-Called d proceeds (publishes false) l h = ground arith
  checks-Called d proceeds (notifies true) l h = ground arith
  checks-Called d proceeds (notifies false) l h = ground arith
  checks-Called d proceeds wakes_driver l h = ground arith
  checks-Called d m c l h = h

  decides-Called : (d : Bool) (m : Call) (c : Caller) (l : Latch) → Called (decides d) m c l
  unfolding call
  decides-Called d offers idle l h = ground arith
  decides-Called d offers_globally idle l h = ground arith
  decides-Called d steals idle l h = ground arith
  decides-Called d takes_global idle l h = ground arith
  decides-Called d begins_retire idle l h = ground arith
  decides-Called d proceeds requests_retire l h = ground arith
  decides-Called d proceeds (publishes true) l h = ground arith
  decides-Called d proceeds (publishes false) l h = ground arith
  decides-Called d proceeds (notifies true) l h = ground arith
  decides-Called d proceeds (notifies false) l h = ground arith
  decides-Called d proceeds wakes_driver l h = ground arith
  decides-Called d m c l h = h

  sleeps-Called : (m : Call) (c : Caller) (l : Latch) → Called sleeps m c l
  unfolding call
  sleeps-Called offers idle l h = ground arith
  sleeps-Called offers_globally idle l h = ground arith
  sleeps-Called steals idle l h = ground arith
  sleeps-Called takes_global idle l h = ground arith
  sleeps-Called begins_retire idle l h = ground arith
  sleeps-Called proceeds requests_retire l h = ground arith
  sleeps-Called proceeds (publishes true) l h = ground arith
  sleeps-Called proceeds (publishes false) l h = ground arith
  sleeps-Called proceeds (notifies true) l h = ground arith
  sleeps-Called proceeds (notifies false) l h = ground arith
  sleeps-Called proceeds wakes_driver l h = ground arith
  sleeps-Called m c l h = h

  awaits-Called : (m : Call) (c : Caller) (l : Latch) → Called awaits m c l
  unfolding call
  awaits-Called offers idle l h = ground arith
  awaits-Called offers_globally idle l h = ground arith
  awaits-Called steals idle l h = ground arith
  awaits-Called takes_global idle l h = ground arith
  awaits-Called begins_retire idle l h = ground arith
  awaits-Called proceeds requests_retire l h = ground arith
  awaits-Called proceeds (publishes true) l h = ground arith
  awaits-Called proceeds (publishes false) l h = ground arith
  awaits-Called proceeds (notifies true) l h = ground arith
  awaits-Called proceeds (notifies false) l h = ground arith
  awaits-Called proceeds wakes_driver l h = ground arith
  awaits-Called m c l h = h

  pub call-Rests : (s : Stage) (m : Call) (c : Caller) (l : Latch) → Called s m c l
  call-Rests works m c l = works-Called m c l
  call-Rests (enters d) m c l = enters-Called d m c l
  call-Rests (checks d) m c l = checks-Called d m c l
  call-Rests (decides d) m c l = decides-Called d m c l
  call-Rests sleeps m c l = sleeps-Called m c l
  call-Rests awaits m c l = awaits-Called m c l
