-- ===== src/CoMutex/System/Safety.antt =====
-- Mutual exclusion of a CoMutex, and who its field `m_locked_co` names.
use bbtools_coroutine.Base.{
  ℕ, zero, suc, ◌≡◌, refl, Bool, true, false, Option, none, some, List, [], ◌∷◌, ◌++◌,
  if◌then◌else◌, inl, inr, ◌⊎◌, arith,
}
use mathlib.Core.List.{append_assoc}
use bbtools_coroutine.CoRwMutex.{Wait, registers, fails, throws, member}
use bbtools_coroutine.CoRwMutex.System.{Ret}
use bbtools_coroutine.CoMutex.{
  Status, free, locked, Mutex, init, notify_one, on_locked, on_unlocked, wait_unlock,
}
use bbtools_coroutine.CoMutex.System.{
  Stage, idle, holding, lock_waits, try_waits, lock_retries, try_expired, Move, lock, unlocks,
  try_lock, try_lock_for, expires, resumes, is_free, lock_loop, try_lock_once, try_lock_timed,
  expire, resume, step, step_at, run, all_idle,
}

-- The coroutine, if it holds the lock.
abbrev pub mine : ℕ → Stage → List ℕ
mine me holding = me ∷ []
mine me _ = []

-- The coroutines that hold the lock; the first one has the number `me`.
pub holders : ℕ → List Stage → List ℕ
holders me [] = []
holders me (t ∷ ts) = mine me t ++ holders (suc me) ts

-- Free, nobody holds the lock; locked, exactly one coroutine does, and it is the one named.
abbrev pub Names : List ℕ → Status → Option ℕ → Type 0
Names hs free c = (hs ≡ []) × (c ≡ none)
Names hs locked c = (i : ℕ) × (hs ≡ i ∷ []) × (c ≡ some i)

status-cases : (s : Status) → (s ≡ free) ⊎ (s ≡ locked)
status-cases free = inl refl
status-cases locked = inr refl

-- The coroutine `me` between others, of which those in `xs` and `ys` hold the lock.
abbrev Keeps : ℕ → List ℕ → List ℕ → Stage × Mutex → Type 0
Keeps me xs ys x = Names (xs ++ (mine me x.0 ++ ys)) x.1.status x.1.locked_co

append-nil : (xs ys : List ℕ) → xs ++ ys ≡ [] → (xs ≡ []) × (ys ≡ [])
append-nil [] ys h = (refl, h)
append-nil (x ∷ xs) ys h = ground arith

append-one : (xs ys : List ℕ) (a b : ℕ) → xs ++ a ∷ ys ≡ b ∷ [] → (xs ≡ []) × (ys ≡ []) × (a ≡ b)
append-one [] ys a b h = ground arith
append-one (x ∷ xs) ys a b h = ground (arith, append-nil xs (a ∷ ys))

if-Keeps :
    (c : Bool) (x y : Stage × Mutex) (me : ℕ) (xs ys : List ℕ)
    → (c ≡ true → Keeps me xs ys x)
    → (c ≡ false → Keeps me xs ys y)
    → Keeps me xs ys (if c then x else y)
if-Keeps true x y me xs ys hx hy = hx refl
if-Keeps false x y me xs ys hx hy = hy refl

module _ (me : ℕ) (xs ys : List ℕ) where
  takes-Keeps :
      (m : Mutex)
      → Names (xs ++ ys) m.status m.locked_co
      → is_free m.status ≡ true
      → Keeps me xs ys (holding, on_locked me m)
  unfolding on_locked
  takes-Keeps m a f =
      let (nobody, none_named) : (xs ++ ys ≡ []) × (m.locked_co ≡ none) = ground arith in
      let (before, behind) = append-nil xs ys nobody in rw (before, behind) (me, refl, refl)

  waits-Keeps :
      (m : Mutex) (w : Wait)
      → Names (xs ++ ys) m.status m.locked_co
      → Names (xs ++ ys) (wait_unlock w m).status (wait_unlock w m).locked_co
  unfolding wait_unlock
  waits-Keeps m registers a = a
  waits-Keeps m fails a = a
  waits-Keeps m throws a = a

  lock_loop-Keeps :
      (w : Wait) (m : Mutex)
      → Names (xs ++ ys) m.status m.locked_co
      → Keeps me xs ys (lock_loop me w m)
  unfolding lock_loop
  lock_loop-Keeps registers m a =
      if-Keeps (is_free m.status) _ _ me xs ys (takes-Keeps m a) (λ f. waits-Keeps m registers a)
  lock_loop-Keeps fails m a =
      if-Keeps (is_free m.status) _ _ me xs ys (takes-Keeps m a) (λ f. waits-Keeps m fails a)
  lock_loop-Keeps throws m a =
      if-Keeps (is_free m.status) _ _ me xs ys (takes-Keeps m a) (λ f. waits-Keeps m throws a)

  try_lock_once-Keeps :
      (m : Mutex) → Names (xs ++ ys) m.status m.locked_co → Keeps me xs ys (try_lock_once me m)
  unfolding try_lock_once
  try_lock_once-Keeps m a = if-Keeps (is_free m.status) _ _ me xs ys (takes-Keeps m a) (λ f. a)

  try_lock_timed-Keeps :
      (valid : Bool) (w : Wait) (m : Mutex)
      → Names (xs ++ ys) m.status m.locked_co
      → Keeps me xs ys (try_lock_timed me valid w m)
  unfolding try_lock_timed
  try_lock_timed-Keeps false w m a =
      if-Keeps (is_free m.status) _ _ me xs ys (takes-Keeps m a) (λ f. a)
  try_lock_timed-Keeps true registers m a =
      if-Keeps (is_free m.status) _ _ me xs ys (takes-Keeps m a) (λ f. waits-Keeps m registers a)
  try_lock_timed-Keeps true fails m a =
      if-Keeps (is_free m.status) _ _ me xs ys (takes-Keeps m a) (λ f. waits-Keeps m fails a)
  try_lock_timed-Keeps true throws m a =
      if-Keeps (is_free m.status) _ _ me xs ys (takes-Keeps m a) (λ f. waits-Keeps m throws a)

  unlocks-Keeps :
      (m : Mutex) → Keeps me xs ys (holding, m) → Keeps me xs ys (idle Ret.ok, on_unlocked m)
  unfolding on_unlocked notify_one
  unlocks-Keeps m a =
      let (before, behind) = alone m.status m.locked_co a in rw (before, behind) (refl, refl)
    where
      alone : (s : Status) (c : Option ℕ) → Names (xs ++ me ∷ ys) s c → (xs ≡ []) × (ys ≡ [])
      alone free c (none_hold, b) = absurd (ground (arith, append-nil xs (me ∷ ys) none_hold))
      alone locked c (i, one, b) =
          let (before, behind, same) = append-one xs ys me i one in (before, behind)

  expire-Keeps : (s : Stage) (m : Mutex) → Keeps me xs ys (s, m) → Keeps me xs ys (expire s m)
  unfolding expire
  expire-Keeps (lock_waits x) m a = a
  expire-Keeps (try_waits x) m a = if-Keeps (member x m.live) _ _ me xs ys (λ t. a) (λ f. a)
  expire-Keeps (idle r) m a = a
  expire-Keeps holding m a = a
  expire-Keeps lock_retries m a = a
  expire-Keeps try_expired m a = a

  resume-Keeps :
      (w : Wait) (s : Stage) (m : Mutex) → Keeps me xs ys (s, m) → Keeps me xs ys (resume me w s m)
  unfolding resume
  resume-Keeps w (lock_waits x) m a =
      if-Keeps (member x m.live) _ _ me xs ys (λ t. a) (λ f. lock_loop-Keeps w m a)
  resume-Keeps w (try_waits x) m a =
      if-Keeps (member x m.live) _ _ me xs ys (λ t. a) (λ f. try_lock_once-Keeps m a)
  resume-Keeps w lock_retries m a = lock_loop-Keeps w m a
  resume-Keeps w try_expired m a = a
  resume-Keeps w (idle r) m a = a
  resume-Keeps w holding m a = a

  step-Keeps :
      (c : Move) (s : Stage) (m : Mutex) → Keeps me xs ys (s, m) → Keeps me xs ys (step me c s m)
  unfolding step
  step-Keeps (lock w) (idle r) m a = lock_loop-Keeps w m a
  step-Keeps try_lock (idle r) m a = try_lock_once-Keeps m a
  step-Keeps (try_lock_for valid w) (idle r) m a = try_lock_timed-Keeps valid w m a
  step-Keeps unlocks holding m a = unlocks-Keeps m a
  step-Keeps expires s m a = expire-Keeps s m a
  step-Keeps (resumes w) s m a = resume-Keeps w s m a
  step-Keeps _ s m a = a

Held : List ℕ → ℕ → List Stage × Mutex → Type 0
Held xs me x = Names (xs ++ holders me x.0) x.1.status x.1.locked_co

step_at-Held :
    (i me : ℕ) (c : Move) (ts : List Stage) (m : Mutex) (xs : List ℕ)
    → Held xs me (ts, m)
    → Held xs me (step_at i me c ts m)
unfolding step_at holders Held
step_at-Held i me c [] m xs a = a
step_at-Held zero me c (t ∷ ts) m xs a = step-Keeps me xs (holders (suc me) ts) c t m a
step_at-Held (suc i) me c (t ∷ ts) m xs a =
    let (us, n) = step_at i (suc me) c ts m in
    let rest = step_at-Held i (suc me) c ts m (xs ++ mine me t) (rw append_assoc a) in
    rw append_assoc at rest

run-Held :
    (cs : List (ℕ × Move)) (ts : List Stage) (m : Mutex)
    → Held [] 0 (ts, m)
    → Held [] 0 (run cs ts m)
unfolding run
run-Held [] ts m a = a
run-Held ((i, c) ∷ cs) ts m a = run-Held cs _ _ (step_at-Held i 0 c ts m [] a)

nobody : (n me : ℕ) → holders me (all_idle n) ≡ []
unfolding holders all_idle
nobody zero me = refl
nobody (suc n) me = nobody n (suc me)

-- Any number of coroutines start outside the mutex and run their calls in any interleaving, waits that
-- are refused, throw, time out or are cancelled among them. At every point either the mutex is FREE,
-- no coroutine holds it and m_locked_co is null; or it is LOCKED, exactly one coroutine holds it, and
-- m_locked_co is that coroutine.
pub run-Names :
    (n : ℕ) (cs : List (ℕ × Move))
    → let (ts, m) = run cs (all_idle n) init in Names (holders 0 ts) m.status m.locked_co
unfolding Held
run-Names n cs = run-Held cs (all_idle n) init (nobody n 0, refl)
