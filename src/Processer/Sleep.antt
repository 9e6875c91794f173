-- ===== src/Processer/Sleep.antt =====
-- bbt/coroutine/detail/Processer.cc: how a worker goes to sleep, on its condition variable or in its driver, and
-- how those that bring it work or retire it wake it. Only how many coroutines there are counts here.
pub mod Safety
mod Tests
use bbtools_coroutine.Base.{
  ℕ, zero, suc, ◌+◌, ◌-◌, ◌==◌, leb, ltb, Bool, true, false, not, ◌&&◌, ◌||◌, List, [], ◌∷◌,
  if◌then◌else◌,
}

-- `held`: the worker holds m_run_cond_mutex; `asleep`: it waits on the condition variable, and `signalled`: it has been
-- notified there; `leased`: it holds a lease of its driver, and `driver_woken`: the driver remembers a Wake. The history:
-- `news`, that the latch was cleared since the worker last held the mutex.
pub record Latch : Type 0 where
  pub executable_num : ℕ
  pub global_num : ℕ
  pub admission_open : Bool
  pub retire_begun : Bool
  pub retire_requested : Bool
  pub run_cond_notify : Bool
  pub held : Bool
  pub asleep : Bool
  pub signalled : Bool
  pub leased : Bool
  pub driver_woken : Bool
  pub news : Bool

-- `_Init` and `_Activate`
abbrev pub fresh : Latch
fresh = record {
  executable_num = 0;
  global_num = 0;
  admission_open = true;
  retire_begun = false;
  retire_requested = false;
  run_cond_notify = true;
  held = false;
  asleep = false;
  signalled = false;
  leased = false;
  driver_woken = false;
  news = false;
}

-- Where the worker stands: in its loop; before the mutex, with a lease of its driver or without; past the pull from the
-- global queue, past the look at its own; asleep on the condition variable, or in its driver.
pub data Stage : Type 0 where
  works : Stage
  enters checks decides : Bool → Stage
  sleeps awaits : Stage

-- Where a thread stands that brings work, and then wakes the driver as well, or that retires the worker.
pub data Caller : Type 0 where
  idle : Caller
  requests_retire : Caller
  publishes notifies : Bool → Caller
  wakes_driver : Caller

abbrev pub least : ℕ → ℕ → ℕ
least a b = if leb a b then a else b

-- The worker leaves the wait on its condition variable, or gives the wait up: it sets the latch again.
unfoldable pub leave : Latch → Stage × Latch
leave l = (works, record l { run_cond_notify = true; held = false; asleep = false; leased = false })

-- The worker's wait in its driver ends: it returns its lease, and leaves the latch as it is.
unfoldable pub end_driver_wait : Latch → Stage × Latch
end_driver_wait l = (works, record l { leased = false; driver_woken = false })

-- `_TryGetCoroutineFromGlobal` under the mutex; `n` bounds what it takes.
unfoldable pub pull : ℕ → Bool → Latch → Stage × Latch
pull n d l =
    let k = least (suc n) l.global_num in
    if l.admission_open && ltb 0 l.global_num
    then leave (record l {
      executable_num = l.executable_num + k;
      global_num = l.global_num - k;
      news = false;
    })
    else (checks d, record l { held = true; news = false })

unfoldable pub check_local : Bool → Latch → Stage × Latch
check_local d l = if l.executable_num == 0 then (decides d, l) else leave l

-- The predicate of the wait.
abbrev pub has_reason : Latch → Bool
has_reason l = not l.run_cond_notify || l.retire_requested

unfoldable pub decide : Bool → Latch → Stage × Latch
decide true l = if l.run_cond_notify then (awaits, record l { held = false }) else leave l
decide false l =
    if has_reason l
    then leave l
    else (sleeps, record l { held = false; asleep = true; signalled = false })

-- A wait ends by its time, or looks at the predicate when it is notified or wakes for no reason.
unfoldable pub wake : Bool → Latch → Stage × Latch
wake times_out l =
    if times_out || has_reason l
    then leave (record l { news = false })
    else (sleeps, record l { signalled = false; news = false })

-- `_WaitForWork` from its first line: a retiring worker does not wait.
unfoldable pub wait_for_work : Bool → Latch → Stage × Latch
wait_for_work d l =
    if l.retire_requested
    then (works, l)
    else if d && l.retire_begun
    then (works, l)
    else (enters d, record l { leased = d })

-- The worker in its loop runs, steals, is stolen from, or waits for work.
pub data Turn : Type 0 where
  runs : ℕ → Turn
  waits : Bool → Turn
  goes_on : ℕ → Bool → Turn

unfoldable pub work : Turn → Stage → Latch → Stage × Latch
work (runs n) works l = (works, record l { executable_num = n })
work (waits d) works l = wait_for_work d l
work (goes_on n t) (enters d) l = pull n d l
work (goes_on n t) (checks d) l = check_local d l
work (goes_on n t) (decides d) l = decide d l
work (goes_on n t) sleeps l = wake t l
work (goes_on n t) awaits l = end_driver_wait l
work t s l = (s, l)

pub data Call : Type 0 where
  offers offers_globally steals takes_global begins_retire proceeds : Call

-- `_PublishRunnable`, and `_NotifyRunnable`, which wakes the driver besides; `_BeginRetire`.
unfoldable pub call : Call → Caller → Latch → Caller × Latch
call offers idle l = (publishes true, record l { executable_num = l.executable_num + 1 })
call offers_globally idle l = (publishes true, record l { global_num = l.global_num + 1 })
call steals idle l = (idle, record l { executable_num = l.executable_num - 1 })
call takes_global idle l = (idle, record l { global_num = l.global_num - 1 })
call begins_retire idle l =
    if l.leased || l.retire_begun
    then (idle, l)
    else (requests_retire, record l { admission_open = false; retire_begun = true })
call proceeds requests_retire l = (publishes false, record l { retire_requested = true })
call proceeds (publishes b) l =
    if l.held
    then (publishes b, l)
    else (notifies b, record l { run_cond_notify = false; news = true })
call proceeds (notifies b) l =
    (if b then wakes_driver else idle, if l.asleep then record l { signalled = true } else l)
call proceeds wakes_driver l = (idle, record l { driver_woken = true })
call m c l = (c, l)

unfoldable pub call_at : ℕ → Call → List Caller → Latch → List Caller × Latch
call_at i m [] l = ([], l)
call_at zero m (c ∷ cs) l = let (c', l') = call m c l in (c' ∷ cs, l')
call_at (suc i) m (c ∷ cs) l = let (cs', l') = call_at i m cs l in (c ∷ cs', l')

pub data Move : Type 0 where
  by_worker : Turn → Move
  by_caller : ℕ → Call → Move

unfoldable pub step : Move → Stage × List Caller × Latch → Stage × List Caller × Latch
step (by_worker t) (s, cs, l) = let (s', l') = work t s l in (s', cs, l')
step (by_caller i m) (s, cs, l) = let (cs', l') = call_at i m cs l in (s, cs', l')

unfoldable pub run : List Move → Stage × List Caller × Latch → Stage × List Caller × Latch
run [] x = x
run (m ∷ ms) x = run ms (step m x)
