-- ===== src/CoMutex/System.antt =====
-- Coroutines that use a CoMutex, in any interleaving of their critical sections.
pub mod Safety
use bbtools_coroutine.Base.{ℕ, zero, suc, Bool, true, false, List, [], ◌∷◌, if◌then◌else◌}
use bbtools_coroutine.CoRwMutex.{Wait, registers, fails, throws, member, remove}
use bbtools_coroutine.CoRwMutex.System.{Ret, ok, failed, timed_out, threw}
use bbtools_coroutine.CoMutex.{Status, free, locked, Mutex, on_locked, on_unlocked, wait_unlock}

-- A coroutine is outside a call, with the result of its last one; or holds the lock; or is in one of the
-- calls: suspended, or between two attempts of `Lock` after its event could not be registered.
pub data Stage : Type 0 where
  idle : Ret → Stage
  holding : Stage
  lock_waits try_waits : ℕ → Stage
  lock_retries try_expired : Stage

-- What a coroutine does next. A timed call says whether its limit is not negative.
pub data Move : Type 0 where
  lock : Wait → Move
  unlocks try_lock : Move
  try_lock_for : Bool → Wait → Move
  expires : Move
  resumes : Wait → Move

abbrev pub is_free : Status → Bool
is_free free = true
is_free locked = false

abbrev lock_after : Wait → ℕ → Stage
lock_after registers x = lock_waits x
lock_after fails x = lock_retries
lock_after throws x = idle threw

abbrev try_after : Wait → ℕ → Stage
try_after registers x = try_waits x
try_after fails x = idle failed
try_after throws x = idle threw

-- The loop of `Lock` from the point where `m_mutex` is held.
pub lock_loop : ℕ → Wait → Mutex → Stage × Mutex
lock_loop me w m =
    if is_free m.status
    then (holding, on_locked me m)
    else (lock_after w m.next_id, wait_unlock w m)

pub try_lock_once : ℕ → Mutex → Stage × Mutex
try_lock_once me m = if is_free m.status then (holding, on_locked me m) else (idle failed, m)

pub try_lock_timed : ℕ → Bool → Wait → Mutex → Stage × Mutex
try_lock_timed me valid w m =
    if is_free m.status
    then (holding, on_locked me m)
    else if valid
    then (try_after w m.next_id, wait_unlock w m)
    else (idle failed, m)

-- An event that is still live ends by its timer or by a cancellation; an untimed wait looks away
-- from which it was.
pub expire : Stage → Mutex → Stage × Mutex
expire (lock_waits x) m = (lock_waits x, record m { live = remove x m.live })
expire (try_waits x) m =
    if member x m.live then (try_expired, record m { live = remove x m.live }) else (try_waits x, m)
expire s m = (s, m)

pub resume : ℕ → Wait → Stage → Mutex → Stage × Mutex
resume me w (lock_waits x) m = if member x m.live then (lock_waits x, m) else lock_loop me w m
resume me w lock_retries m = lock_loop me w m
resume me w (try_waits x) m = if member x m.live then (try_waits x, m) else try_lock_once me m
resume me w try_expired m = (idle timed_out, m)
resume me w s m = (s, m)

-- A move that the coroutine's stage does not allow does nothing.
pub step : ℕ → Move → Stage → Mutex → Stage × Mutex
step me (lock w) (idle r) m = lock_loop me w m
step me try_lock (idle r) m = try_lock_once me m
step me (try_lock_for valid w) (idle r) m = try_lock_timed me valid w m
step me unlocks holding m = (idle ok, on_unlocked m)
step me expires s m = expire s m
step me (resumes w) s m = resume me w s m
step me _ s m = (s, m)

-- `i` counts down to the coroutine that moves, `me` up to its number.
pub step_at : ℕ → ℕ → Move → List Stage → Mutex → List Stage × Mutex
step_at i me c [] m = ([], m)
step_at zero me c (t ∷ ts) m = let (t', m') = step me c t m in (t' ∷ ts, m')
step_at (suc i) me c (t ∷ ts) m = let (ts', m') = step_at i (suc me) c ts m in (t ∷ ts', m')

pub run : List (ℕ × Move) → List Stage → Mutex → List Stage × Mutex
run [] ts m = (ts, m)
run ((i, c) ∷ cs) ts m = let (ts', m') = step_at i 0 c ts m in run cs ts' m'

pub all_idle : ℕ → List Stage
all_idle zero = []
all_idle (suc n) = idle ok ∷ all_idle n
