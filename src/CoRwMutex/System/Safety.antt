-- ===== src/CoRwMutex/System/Safety.antt =====
-- What the state of a CoRWMutex says of the coroutines that use it.
pub mod Exclusion
pub mod Steps
use bbtools_coroutine.Base.{
  ℕ, zero, suc, ◌+◌, ◌*◌, ◌^◌, ◌%◌, ◌<◌, ◌≤◌, ◌≡◌, refl, ap, sym, Bool, true, false, not, ◌&&◌,
  ◌||◌, Option, none, some, List, [], ◌∷◌, ◌++◌, length, ltb, ◌==◌, ==_iff, if◌then◌else◌, arith,
  inl, inr, ◌⊎◌, Bool-cases, sum,
}
use bbtools_coroutine.CoRwMutex.{
  Status, free, rlocked, wlocked, inc, dec, Mutex, init, member, remove, notify_one, notify_all,
  Wait, registers, fails, throws, wait_read, wait_write, is_free, is_wlocked, reader_blocked,
  take_read, writer_resumes, take_write, try_take_write, runlock, wunlock,
}
use bbtools_coroutine.CoRwMutex.System.{
  Ret, Stage, idle, reading, writing, rlock_waits, tryr_waits, wlock_waits, tryw_waits,
  tryr_expired, tryw_expired, Move, rlock, wlock, runlocks, wunlocks, try_rlock, try_wlock,
  try_rlock_for, try_wlock_for, expires, resumes, rlock_loop, wlock_loop, try_rlock_once,
  try_wlock_once, try_rlock_timed, try_wlock_timed, expire, resume, step, step_at, run, all_idle,
}

-- Coroutines that hold a read lock, that hold the write lock, and whose wait for the write lock is
-- not settled.
abbrev pub reads : Stage → ℕ
reads reading = 1
reads _ = 0

abbrev pub writes : Stage → ℕ
writes writing = 1
writes _ = 0

abbrev pub queues : Stage → ℕ
queues (wlock_waits x) = 1
queues (tryw_waits x) = 1
queues tryw_expired = 1
queues _ = 0

abbrev pub Held : Status → ℕ → ℕ → Type 0
Held free r w = (r ≡ 0) × (w ≡ 0)
Held rlocked r w = (0 < r) × (w ≡ 0)
Held wlocked r w = (r ≡ 0) × (w ≡ 1)

-- The lock's fields agree with `r` readers, `w` writers and `q` queued writers.
abbrev pub Agrees : ℕ → ℕ → ℕ → Mutex → Type 0
Agrees r w q m =
    (m.rlock_hold_num ≡ r)
    × (m.wait_wlock_num ≡ q)
    × (m.has_wait_wlock ≡ ltb 0 q)
    × Held m.status r w

Same : Mutex → Mutex → Type 0
Same m n =
    (n.status ≡ m.status)
    × (n.rlock_hold_num ≡ m.rlock_hold_num)
    × (n.wait_wlock_num ≡ m.wait_wlock_num)
    × (n.has_wait_wlock ≡ m.has_wait_wlock)

Same-Agrees : (m n : Mutex) (r w q : ℕ) → Same m n → Agrees r w q m → Agrees r w q n
unfolding Same
Same-Agrees m n r w q (a, b, c, d) (e, f, g, h) = rw (a, b, c, d) (e, f, g, h)

notify_one-Same : (m : Mutex) → Same m (notify_one m).0
unfolding Same notify_one
notify_one-Same m = ground arith

notify_all-Same : (reader : Bool) (m : Mutex) → Same m (notify_all reader m)
unfolding Same notify_all
notify_all-Same true m = (refl, refl, refl, refl)
notify_all-Same false m = (refl, refl, refl, refl)

if-Agrees :
    (b : Bool) (x y : Mutex) (r w q : ℕ)
    → Agrees r w q x
    → Agrees r w q y
    → Agrees r w q (if b then x else y)
if-Agrees true x y r w q hx hy = hx
if-Agrees false x y r w q hx hy = hy

module _ (r w q : ℕ) (m : Mutex) (a : Agrees r w q m) where
  pub take_read-Agrees :
      suc r < 2 ^ 31 → reader_blocked m ≡ false → Agrees (suc r) w q (take_read m)
  unfolding take_read reader_blocked
  take_read-Agrees b h =
      let n : Mutex = record m { status = rlocked; rlock_hold_num = inc m.rlock_hold_num } in
      let taken : Agrees (suc r) w q n = ground arith in
      if-Agrees m.has_wait_wlock n (notify_all true n) (suc r) w q taken
        (Same-Agrees n (notify_all true n) (suc r) w q (notify_all-Same true n) taken)

  pub take_write-Agrees :
      suc q < 2 ^ 31
      → is_free m.status ≡ true
      → Agrees r (suc w) q (take_write m) × Agrees r (suc w) q (try_take_write m)
  unfolding take_write try_take_write
  take_write-Agrees b h = ground arith

  pub wait_read-Agrees : (o : Wait) → Agrees r w q (wait_read o m)
  unfolding wait_read
  wait_read-Agrees registers = a
  wait_read-Agrees fails = a
  wait_read-Agrees throws = a

  pub wait_write-Agrees :
      suc q < 2 ^ 31
      → (Agrees r w (suc q) (wait_write registers m))
        × Agrees r w q (wait_write fails m)
        × Agrees r w q (wait_write throws m)
  unfolding wait_write
  wait_write-Agrees b = ground arith

pub writer_resumes-Agrees :
    (r w q : ℕ) (m : Mutex)
    → suc q < 2 ^ 31
    → Agrees r w (suc q) m
    → Agrees r w q (writer_resumes m)
unfolding writer_resumes
writer_resumes-Agrees r w q m b a = ground arith

pub runlock-Agrees :
    (r w q : ℕ) (m : Mutex) → suc r < 2 ^ 31 → Agrees (suc r) w q m → Agrees r w q (runlock m)
unfolding runlock
runlock-Agrees r w q m b a =
    let held = dec m.rlock_hold_num in
    let n : Mutex = record m {
      rlock_hold_num = held;
      status = (if held == 0 then free else rlocked);
    } in
    let left : Agrees r w q n = ground (arith, ==_iff held 0) in
    if-Agrees (held == 0) (notify_one n).0 n r w q
      (Same-Agrees n (notify_one n).0 r w q (notify_one-Same n) left) left

pub wunlock-Agrees : (r w q : ℕ) (m : Mutex) → Agrees r (suc w) q m → Agrees r w q (wunlock m)
unfolding wunlock
wunlock-Agrees r w q m a =
    let n : Mutex = record m { status = free } in
    let left : Agrees r w q n = ground arith in
    ground (
      arith,
      Same-Agrees n (notify_one n).0 r w q (notify_one-Same n) left,
      Same-Agrees n (notify_all true n) r w q (notify_all-Same true n) left,
    )
