-- ===== src/CoRwMutex/System/Safety/Exclusion.antt =====
-- Mutual exclusion of a CoRWMutex, for any number of coroutines in any interleaving.
use bbtools_coroutine.Base.{
  ℕ, zero, suc, ◌+◌, ◌^◌, ◌<◌, ◌≤◌, ◌≡◌, refl, ap, sym, List, [], ◌∷◌, length, ltb, arith, sum,
}
use bbtools_coroutine.CoRwMutex.{Mutex, init}
use bbtools_coroutine.CoRwMutex.System.{Ret, Stage, idle, Move, step, step_at, run, all_idle}
use bbtools_coroutine.CoRwMutex.System.Safety.{reads, writes, queues, Agrees, Held}
use bbtools_coroutine.CoRwMutex.System.Safety.Steps.{Fits, step-Fits}

reads-le : (t : Stage) → (reads t ≤ 1) × (queues t ≤ 1)
reads-le t = ground arith

sum-le : (ts : List Stage) → (sum reads ts ≤ length ts) × (sum queues ts ≤ length ts)
unfolding sum
sum-le [] = omega arith
sum-le (t ∷ ts) = ground (arith, reads-le t, sum-le ts)

length-step_at :
    (i : ℕ) (c : Move) (ts : List Stage) (m : Mutex) → length (step_at i c ts m).0 ≡ length ts
unfolding step_at
length-step_at i c [] m = refl
length-step_at zero c (t ∷ ts) m = refl
length-step_at (suc i) c (t ∷ ts) m = ap suc (length-step_at i c ts m)

Counted : ℕ → ℕ → ℕ → List Stage × Mutex → Type 0
Counted r w q x = Agrees (r + sum reads x.0) (w + sum writes x.0) (q + sum queues x.0) x.1

cast :
    {r r' w w' q q' : ℕ} (m : Mutex) → r ≡ r' → w ≡ w' → q ≡ q' → Agrees r w q m → Agrees r' w' q' m
cast m er ew eq a = rw (sym er, sym ew, sym eq) a

-- A stage at the head counts either with those behind it or with those before it.
Counted-head :
    (r w q : ℕ) (t : Stage) (ts : List Stage) (m : Mutex)
    → Counted r w q (t ∷ ts, m)
    → Fits (r + sum reads ts) (w + sum writes ts) (q + sum queues ts) (t, m)
      × Counted (r + reads t) (w + writes t) (q + queues t) (ts, m)
unfolding sum Counted
Counted-head r w q t ts m a = (
  cast m (omega arith) (omega arith) (omega arith) a,
  cast m (omega arith) (omega arith) (omega arith) a,
)

head-Counted :
    (r w q : ℕ) (t : Stage) (ts : List Stage) (m : Mutex)
    → Fits (r + sum reads ts) (w + sum writes ts) (q + sum queues ts) (t, m)
    → Counted r w q (t ∷ ts, m)
unfolding sum Counted
head-Counted r w q t ts m a = cast m (omega arith) (omega arith) (omega arith) a

tail-Counted :
    (r w q : ℕ) (t : Stage) (ts : List Stage) (m : Mutex)
    → Counted (r + reads t) (w + writes t) (q + queues t) (ts, m)
    → Counted r w q (t ∷ ts, m)
unfolding sum Counted
tail-Counted r w q t ts m a = cast m (omega arith) (omega arith) (omega arith) a

step_at-Counted :
    (i : ℕ) (c : Move) (ts : List Stage) (m : Mutex) (r w q : ℕ)
    → (r + length ts < 2 ^ 31) × (q + length ts < 2 ^ 31)
    → Counted r w q (ts, m)
    → Counted r w q (step_at i c ts m)
unfolding step_at
step_at-Counted i c [] m r w q b a = a
step_at-Counted zero c (t ∷ ts) m r w q b a =
    let bound = sum-le ts in
    let next = step c t m in
    head-Counted r w q next.0 ts next.1 (
      step-Fits (r + sum reads ts) (w + sum writes ts) (q + sum queues ts)
        (omega (arith, bound), omega (arith, bound)) c t m (Counted-head r w q t ts m a).0)
step_at-Counted (suc i) c (t ∷ ts) m r w q b a =
    let one = reads-le t in
    let next = step_at i c ts m in
    tail-Counted r w q t next.0 next.1 (
      step_at-Counted i c ts m (r + reads t) (w + writes t) (q + queues t)
        (omega arith, omega arith) (Counted-head r w q t ts m a).1)

run-Counted :
    (cs : List (ℕ × Move)) (ts : List Stage) (m : Mutex)
    → length ts < 2 ^ 31
    → Counted 0 0 0 (ts, m)
    → Counted 0 0 0 (run cs ts m)
unfolding run
run-Counted [] ts m b a = a
run-Counted ((i, c) ∷ cs) ts m b a =
    let next = step_at i c ts m in
    run-Counted cs next.0 next.1 (rw (length-step_at i c ts m) b)
      (step_at-Counted i c ts m 0 0 0 (omega arith, omega arith) a)

length-all_idle : (n : ℕ) → (length (all_idle n) ≡ n) × Counted 0 0 0 (all_idle n, init)
unfolding all_idle sum Counted
length-all_idle zero = (refl, (refl, refl, refl, (refl, refl)))
length-all_idle (suc n) = (
  ap suc (length-all_idle n).0,
  tail-Counted 0 0 0 (idle Ret.ok) (all_idle n) init (length-all_idle n).1,
)

-- Fewer than 2^31 coroutines start outside the lock and run their calls in any interleaving, waits
-- that fail, throw, time out or are cancelled among them. Then the lock's fields say at every point
-- who holds it: it counts the coroutines that hold a read lock and those whose wait for the write
-- lock is not settled, the flag that keeps new readers out is set exactly while there are such
-- writers, and the status is FREE when nobody holds it, RLOCKED when only readers do, and WLOCKED when
-- exactly one writer and no reader does.
pub run-Agrees :
    (n : ℕ) (cs : List (ℕ × Move))
    → n < 2 ^ 31
    → let (ts, m) = run cs (all_idle n) init in
      (m.rlock_hold_num ≡ sum reads ts)
      × (m.wait_wlock_num ≡ sum queues ts)
      × (m.has_wait_wlock ≡ ltb 0 (sum queues ts))
      × Held m.status (sum reads ts) (sum writes ts)
unfolding Counted
run-Agrees n cs b =
    let (size, start) = length-all_idle n in
    let (ts, m) = run cs (all_idle n) init in
    cast m (omega arith) (omega arith) (omega arith)
      (run-Counted cs (all_idle n) init (rw size b) start)
