-- ===== src/CoRwMutex/System.antt =====
-- Coroutines that use a CoRWMutex, in any interleaving of their critical sections.
pub mod Safety
use bbtools_coroutine.Base.{
  ℕ, zero, suc, ◌+◌, Bool, true, false, not, ◌&&◌, ◌||◌, Option, none, some, List, [], ◌∷◌,
  if◌then◌else◌,
}
use bbtools_coroutine.CoRwMutex.{
  Status, free, rlocked, wlocked, Mutex, member, remove, Wait, registers, fails, throws, wait_read,
  wait_write, is_free, reader_blocked, take_read, writer_resumes, take_write, try_take_write,
  runlock, wunlock,
}

-- What a call gave: 0, -1, 1 or an exception.
pub data Ret : Type 0 where
  ok failed timed_out threw : Ret

-- A coroutine is outside a call, with the result of its last one; or holds the lock; or is
-- suspended in one of the calls. A timed wait that has ended by its timer or by cancellation is
-- told from one that was notified.
pub data Stage : Type 0 where
  idle : Ret → Stage
  reading writing : Stage
  rlock_waits tryr_waits wlock_waits tryw_waits : ℕ → Stage
  tryr_expired tryw_expired : Stage

-- What a coroutine does next. A timed call says whether its limit is not negative.
pub data Move : Type 0 where
  rlock wlock : Wait → Move
  runlocks wunlocks try_rlock try_wlock : Move
  try_rlock_for try_wlock_for : Bool → Wait → Move
  expires : Move
  resumes : Wait → Move

abbrev after_wait : Wait → Stage → Stage
after_wait registers s = s
after_wait fails s = idle failed
after_wait throws s = idle threw

-- The loop of `RLock` from the point where the lock is held.
unfoldable pub rlock_loop : Wait → Mutex → Stage × Mutex
rlock_loop w m =
    if reader_blocked m
    then (after_wait w (rlock_waits m.next_id), wait_read w m)
    else (reading, take_read m)

pub wlock_loop : Wait → Mutex → Stage × Mutex
wlock_loop w m =
    if is_free m.status
    then (writing, take_write m)
    else (after_wait w (wlock_waits m.next_id), wait_write w m)

pub try_rlock_once : Mutex → Stage × Mutex
try_rlock_once m = if reader_blocked m then (idle failed, m) else (reading, take_read m)

pub try_wlock_once : Mutex → Stage × Mutex
try_wlock_once m = if is_free m.status then (writing, try_take_write m) else (idle failed, m)

pub try_rlock_timed : Bool → Wait → Mutex → Stage × Mutex
try_rlock_timed valid w m =
    if reader_blocked m
    then (if valid then (after_wait w (tryr_waits m.next_id), wait_read w m) else (idle failed, m))
    else (reading, take_read m)

unfoldable pub try_wlock_timed : Bool → Wait → Mutex → Stage × Mutex
try_wlock_timed valid w m =
    if is_free m.status
    then (writing, try_take_write m)
    else if valid
    then (after_wait w (tryw_waits m.next_id), wait_write w m)
    else (idle failed, m)

-- A waiter that is still live ends by its timer, or by a cancellation, which an untimed wait reports
-- as if it had been notified.
unfoldable pub expire : Stage → Mutex → Stage × Mutex
expire (rlock_waits x) m = (rlock_waits x, record m { live = remove x m.live })
expire (wlock_waits x) m = (wlock_waits x, record m { live = remove x m.live })
expire (tryr_waits x) m =
    if member x m.live
    then (tryr_expired, record m { live = remove x m.live })
    else (tryr_waits x, m)
expire (tryw_waits x) m =
    if member x m.live
    then (tryw_expired, record m { live = remove x m.live })
    else (tryw_waits x, m)
expire s m = (s, m)

-- A coroutine whose wait has ended runs on.
unfoldable pub resume : Wait → Stage → Mutex → Stage × Mutex
resume w (rlock_waits x) m = if member x m.live then (rlock_waits x, m) else rlock_loop w m
resume w (wlock_waits x) m =
    if member x m.live then (wlock_waits x, m) else wlock_loop w (writer_resumes m)
resume w (tryr_waits x) m = if member x m.live then (tryr_waits x, m) else try_rlock_once m
resume w (tryw_waits x) m =
    if member x m.live then (tryw_waits x, m) else try_wlock_once (writer_resumes m)
resume w tryr_expired m = (idle timed_out, m)
resume w tryw_expired m = (idle timed_out, writer_resumes m)
resume w s m = (s, m)

-- A move that the coroutine's stage does not allow does nothing.
unfoldable pub step : Move → Stage → Mutex → Stage × Mutex
step (rlock w) (idle r) m = rlock_loop w m
step (wlock w) (idle r) m = wlock_loop w m
step try_rlock (idle r) m = try_rlock_once m
step try_wlock (idle r) m = try_wlock_once m
step (try_rlock_for valid w) (idle r) m = try_rlock_timed valid w m
step (try_wlock_for valid w) (idle r) m = try_wlock_timed valid w m
step runlocks reading m = (idle ok, runlock m)
step wunlocks writing m = (idle ok, wunlock m)
step expires s m = expire s m
step (resumes w) s m = resume w s m
step _ s m = (s, m)

unfoldable pub step_at : ℕ → Move → List Stage → Mutex → List Stage × Mutex
step_at i c [] m = ([], m)
step_at zero c (t ∷ ts) m = let (t', m') = step c t m in (t' ∷ ts, m')
step_at (suc i) c (t ∷ ts) m = let (ts', m') = step_at i c ts m in (t ∷ ts', m')

unfoldable pub run : List (ℕ × Move) → List Stage → Mutex → List Stage × Mutex
run [] ts m = (ts, m)
run ((i, c) ∷ cs) ts m = let (ts', m') = step_at i c ts m in run cs ts' m'

unfoldable pub all_idle : ℕ → List Stage
all_idle zero = []
all_idle (suc n) = idle ok ∷ all_idle n
