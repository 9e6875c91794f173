-- ===== src/CoRwMutex/System/Safety/Steps.antt =====
-- What each step of a coroutine on a CoRWMutex keeps.
use bbtools_coroutine.Base.{
  ℕ, suc, ◌+◌, ◌^◌, ◌<◌, ◌≡◌, refl, Bool, true, false, if◌then◌else◌, arith,
}
use bbtools_coroutine.CoRwMutex.{
  Mutex, member, Wait, registers, fails, throws, wait_read, wait_write, is_free, reader_blocked,
  take_read, writer_resumes, take_write, try_take_write, runlock, wunlock,
}
use bbtools_coroutine.CoRwMutex.System.{
  Ret, Stage, idle, reading, writing, rlock_waits, tryr_waits, wlock_waits, tryw_waits,
  tryr_expired, tryw_expired, Move, rlock, wlock, runlocks, wunlocks, try_rlock, try_wlock,
  try_rlock_for, try_wlock_for, expires, resumes, rlock_loop, wlock_loop, try_rlock_once,
  try_wlock_once, try_rlock_timed, try_wlock_timed, expire, resume, step,
}
use bbtools_coroutine.CoRwMutex.System.Safety.{
  reads, writes, queues, Agrees, take_read-Agrees, take_write-Agrees, wait_read-Agrees,
  wait_write-Agrees, writer_resumes-Agrees, runlock-Agrees, wunlock-Agrees,
}

-- A coroutine's stage counts among `r` readers, `w` writers and `q` queued writers beside it.
abbrev pub Fits : ℕ → ℕ → ℕ → Stage × Mutex → Type 0
Fits r w q x = Agrees (r + reads x.0) (w + writes x.0) (q + queues x.0) x.1

if-Fits :
    (c : Bool) (x y : Stage × Mutex) (r w q : ℕ)
    → (c ≡ true → Fits r w q x)
    → (c ≡ false → Fits r w q y)
    → Fits r w q (if c then x else y)
if-Fits true x y r w q hx hy = hx refl
if-Fits false x y r w q hx hy = hy refl

module _ (r w q : ℕ) (b : (suc r < 2 ^ 31) × (suc q < 2 ^ 31)) where
  -- A stage that holds nothing and queues nowhere.
  plain-Fits :
      (s : Stage) (m : Mutex)
      → (reads s ≡ 0) × (writes s ≡ 0) × (queues s ≡ 0)
      → Agrees r w q m
      → Fits r w q (s, m)
  plain-Fits s m z a = ground arith

  reading-Fits :
      (m : Mutex) → Agrees r w q m → reader_blocked m ≡ false → Fits r w q (reading, take_read m)
  reading-Fits m a f = ground (arith, take_read-Agrees r w q m a b.0 f)

  writing-Fits :
      (m : Mutex)
      → Agrees r w q m
      → is_free m.status ≡ true
      → Fits r w q (writing, take_write m) × Fits r w q (writing, try_take_write m)
  writing-Fits m a f = ground (arith, take_write-Agrees r w q m a b.1 f)

  queued-Fits :
      (s : Stage) (m : Mutex)
      → (reads s ≡ 0) × (writes s ≡ 0) × (queues s ≡ 1)
      → Agrees r w (suc q) m
      → Fits r w q (s, m)
  queued-Fits s m z a = ground arith

  rlock_loop-Fits : (o : Wait) (m : Mutex) → Agrees r w q m → Fits r w q (rlock_loop o m)
  unfolding rlock_loop
  rlock_loop-Fits registers m a =
      if-Fits (reader_blocked m) _ _ r w q
        (λ t.
          plain-Fits (rlock_waits m.next_id) (wait_read registers m) (refl, refl, refl)
            (wait_read-Agrees r w q m a registers))
        (reading-Fits m a)
  rlock_loop-Fits fails m a =
      if-Fits (reader_blocked m) _ _ r w q
        (λ t.
          plain-Fits (idle Ret.failed) (wait_read fails m) (refl, refl, refl)
            (wait_read-Agrees r w q m a fails))
        (reading-Fits m a)
  rlock_loop-Fits throws m a =
      if-Fits (reader_blocked m) _ _ r w q
        (λ t.
          plain-Fits (idle Ret.threw) (wait_read throws m) (refl, refl, refl)
            (wait_read-Agrees r w q m a throws))
        (reading-Fits m a)

  wlock_loop-Fits : (o : Wait) (m : Mutex) → Agrees r w q m → Fits r w q (wlock_loop o m)
  unfolding wlock_loop
  wlock_loop-Fits registers m a =
      if-Fits (is_free m.status) _ _ r w q (λ t. (writing-Fits m a t).0)
        (λ f.
          queued-Fits (wlock_waits m.next_id) (wait_write registers m) (refl, refl, refl)
            (wait_write-Agrees r w q m a b.1).0)
  wlock_loop-Fits fails m a =
      if-Fits (is_free m.status) _ _ r w q (λ t. (writing-Fits m a t).0)
        (λ f.
          plain-Fits (idle Ret.failed) (wait_write fails m) (refl, refl, refl)
            (wait_write-Agrees r w q m a b.1).1)
  wlock_loop-Fits throws m a =
      if-Fits (is_free m.status) _ _ r w q (λ t. (writing-Fits m a t).0)
        (λ f.
          plain-Fits (idle Ret.threw) (wait_write throws m) (refl, refl, refl)
            (wait_write-Agrees r w q m a b.1).2)

  try_rlock_once-Fits : (m : Mutex) → Agrees r w q m → Fits r w q (try_rlock_once m)
  unfolding try_rlock_once
  try_rlock_once-Fits m a =
      if-Fits (reader_blocked m) _ _ r w q
        (λ t. plain-Fits (idle Ret.failed) m (refl, refl, refl) a) (reading-Fits m a)

  try_wlock_once-Fits : (m : Mutex) → Agrees r w q m → Fits r w q (try_wlock_once m)
  unfolding try_wlock_once
  try_wlock_once-Fits m a =
      if-Fits (is_free m.status) _ _ r w q (λ t. (writing-Fits m a t).1)
        (λ f. plain-Fits (idle Ret.failed) m (refl, refl, refl) a)

  try_rlock_timed-Fits :
      (valid : Bool) (o : Wait) (m : Mutex)
      → Agrees r w q m
      → Fits r w q (try_rlock_timed valid o m)
  unfolding try_rlock_timed
  try_rlock_timed-Fits false o m a =
      if-Fits (reader_blocked m) _ _ r w q
        (λ t. plain-Fits (idle Ret.failed) m (refl, refl, refl) a) (reading-Fits m a)
  try_rlock_timed-Fits true registers m a =
      if-Fits (reader_blocked m) _ _ r w q
        (λ t.
          plain-Fits (tryr_waits m.next_id) (wait_read registers m) (refl, refl, refl)
            (wait_read-Agrees r w q m a registers))
        (reading-Fits m a)
  try_rlock_timed-Fits true fails m a =
      if-Fits (reader_blocked m) _ _ r w q
        (λ t.
          plain-Fits (idle Ret.failed) (wait_read fails m) (refl, refl, refl)
            (wait_read-Agrees r w q m a fails))
        (reading-Fits m a)
  try_rlock_timed-Fits true throws m a =
      if-Fits (reader_blocked m) _ _ r w q
        (λ t.
          plain-Fits (idle Ret.threw) (wait_read throws m) (refl, refl, refl)
            (wait_read-Agrees r w q m a throws))
        (reading-Fits m a)

  try_wlock_timed-Fits :
      (valid : Bool) (o : Wait) (m : Mutex)
      → Agrees r w q m
      → Fits r w q (try_wlock_timed valid o m)
  unfolding try_wlock_timed
  try_wlock_timed-Fits false o m a =
      if-Fits (is_free m.status) _ _ r w q (λ t. (writing-Fits m a t).1)
        (λ f. plain-Fits (idle Ret.failed) m (refl, refl, refl) a)
  try_wlock_timed-Fits true registers m a =
      if-Fits (is_free m.status) _ _ r w q (λ t. (writing-Fits m a t).1)
        (λ f.
          queued-Fits (tryw_waits m.next_id) (wait_write registers m) (refl, refl, refl)
            (wait_write-Agrees r w q m a b.1).0)
  try_wlock_timed-Fits true fails m a =
      if-Fits (is_free m.status) _ _ r w q (λ t. (writing-Fits m a t).1)
        (λ f.
          plain-Fits (idle Ret.failed) (wait_write fails m) (refl, refl, refl)
            (wait_write-Agrees r w q m a b.1).1)
  try_wlock_timed-Fits true throws m a =
      if-Fits (is_free m.status) _ _ r w q (λ t. (writing-Fits m a t).1)
        (λ f.
          plain-Fits (idle Ret.threw) (wait_write throws m) (refl, refl, refl)
            (wait_write-Agrees r w q m a b.1).2)

  expire-Fits : (s : Stage) (m : Mutex) → Fits r w q (s, m) → Fits r w q (expire s m)
  unfolding expire
  expire-Fits (idle x) m a = a
  expire-Fits reading m a = a
  expire-Fits writing m a = a
  expire-Fits tryr_expired m a = a
  expire-Fits tryw_expired m a = a
  expire-Fits (rlock_waits x) m a = a
  expire-Fits (wlock_waits x) m a = a
  expire-Fits (tryr_waits x) m a = if-Fits (member x m.live) _ _ r w q (λ t. a) (λ f. a)
  expire-Fits (tryw_waits x) m a = if-Fits (member x m.live) _ _ r w q (λ t. a) (λ f. a)

  waiting :
      (s : Stage) (m : Mutex)
      → (reads s ≡ 0) × (writes s ≡ 0) × (queues s ≡ 0)
      → Fits r w q (s, m)
      → Agrees r w q m
  waiting s m z a = ground arith

  pub settled :
      (s : Stage) (m : Mutex)
      → (reads s ≡ 0) × (writes s ≡ 0) × (queues s ≡ 1)
      → Fits r w q (s, m)
      → Agrees r w q (writer_resumes m)
  settled s m z a = writer_resumes-Agrees r w q m b.1 (ground arith)

  resume-Fits : (o : Wait) (s : Stage) (m : Mutex) → Fits r w q (s, m) → Fits r w q (resume o s m)
  unfolding resume
  resume-Fits o (idle x) m a = a
  resume-Fits o reading m a = a
  resume-Fits o writing m a = a
  resume-Fits o tryr_expired m a =
      plain-Fits (idle Ret.timed_out) m (refl, refl, refl)
        (waiting tryr_expired m (refl, refl, refl) a)
  resume-Fits o tryw_expired m a =
      plain-Fits (idle Ret.timed_out) (writer_resumes m) (refl, refl, refl)
        (settled tryw_expired m (refl, refl, refl) a)
  resume-Fits o (rlock_waits x) m a =
      if-Fits (member x m.live) _ _ r w q (λ t. a)
        (λ f. rlock_loop-Fits o m (waiting (rlock_waits x) m (refl, refl, refl) a))
  resume-Fits o (wlock_waits x) m a =
      if-Fits (member x m.live) _ _ r w q (λ t. a)
        (λ f. wlock_loop-Fits o (writer_resumes m) (settled (wlock_waits x) m (refl, refl, refl) a))
  resume-Fits o (tryr_waits x) m a =
      if-Fits (member x m.live) _ _ r w q (λ t. a)
        (λ f. try_rlock_once-Fits m (waiting (tryr_waits x) m (refl, refl, refl) a))
  resume-Fits o (tryw_waits x) m a =
      if-Fits (member x m.live) _ _ r w q (λ t. a)
        (λ f.
          try_wlock_once-Fits (writer_resumes m) (settled (tryw_waits x) m (refl, refl, refl) a))

  pub step-Fits : (c : Move) (s : Stage) (m : Mutex) → Fits r w q (s, m) → Fits r w q (step c s m)
  unfolding step
  step-Fits (rlock o) (idle x) m a = rlock_loop-Fits o m (waiting (idle x) m (refl, refl, refl) a)
  step-Fits (wlock o) (idle x) m a = wlock_loop-Fits o m (waiting (idle x) m (refl, refl, refl) a)
  step-Fits try_rlock (idle x) m a = try_rlock_once-Fits m (waiting (idle x) m (refl, refl, refl) a)
  step-Fits try_wlock (idle x) m a = try_wlock_once-Fits m (waiting (idle x) m (refl, refl, refl) a)
  step-Fits (try_rlock_for v o) (idle x) m a =
      try_rlock_timed-Fits v o m (waiting (idle x) m (refl, refl, refl) a)
  step-Fits (try_wlock_for v o) (idle x) m a =
      try_wlock_timed-Fits v o m (waiting (idle x) m (refl, refl, refl) a)
  step-Fits runlocks reading m a =
      plain-Fits (idle Ret.ok) (runlock m) (refl, refl, refl)
        (runlock-Agrees r w q m b.0 (ground arith))
  step-Fits wunlocks writing m a =
      plain-Fits (idle Ret.ok) (wunlock m) (refl, refl, refl)
        (wunlock-Agrees r w q m (ground arith))
  step-Fits expires s m a = expire-Fits s m a
  step-Fits (resumes o) s m a = resume-Fits o s m a
  step-Fits _ s m a = a
