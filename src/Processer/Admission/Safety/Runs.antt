-- ===== src/Processer/Admission/Safety/Runs.antt =====
-- Any number of threads around a processer's queue, in any interleaving.
use bbtools_coroutine.Base.Bags.{take_at, is_one, count, take_at-Front}
use bbtools_coroutine.Base.{
  ℕ, zero, suc, ◌+◌, ◌≤◌, ◌≡◌, refl, sym, Bool, true, false, ◌&&◌, List, [], ◌∷◌, All, ◌⊎◌, inl,
  if-cases, arith, sum,
}
use bbtools_coroutine.Processer.{Processer, is_active, init, activate}
use bbtools_coroutine.Processer.Admission.{
  caller, forwarder, Stage, idle, enqueues, rechecks, publishes, releases, returns, steals, hands,
  working, runs, pulls, quiesces, drains, drains_item, exits, exited_at, retires_lifecycle,
  retires_requests, Move, offers, forwards, robs, polls, picks, retires, goes_on, go_on, step,
  step_at, run, all_idle, threads,
}
use bbtools_coroutine.Processer.Admission.Safety.{
  enqueuing, publishing, held, is_over, total, Stands, Grows,
}
use bbtools_coroutine.Processer.Admission.Safety.Steps.{
  Agrees, Fine, register-Fine, recheck-Fine, publish-Fine, release-Fine, returns-Fine,
  steal_front-Fine, drain_front-Fine, pick_front-Fine, pull_front-Fine, hand-Fine, quiesce-Fine,
  drains_item-Fine, exit-Fine, retire-Fine, request-Fine, same-Fine, run-Fine, offer-Fine,
}

cast :
    (x : ℕ) {e e' q q' h h' : ℕ} (p : Processer)
    → e ≡ e'
    → q ≡ q'
    → h ≡ h'
    → Agrees x e q h p
    → Agrees x e' q' h' p
cast x p ee eq eh a = rw (sym ee, sym eq, sym eh) a

module _ (x e q h : ℕ) (p : Processer) (le : q ≤ e) where
  plain :
      (s : Stage)
      → (enqueuing s ≡ 0) × (publishing s ≡ 0) × (held x s ≡ 0)
      → Agrees x (e + enqueuing s) (q + publishing s) (h + held x s) p
      → Agrees x e q h p
  unfolding Agrees
  plain s z a = ground (arith, z, a)

  carries :
      (s : Stage) (y : ℕ)
      → (enqueuing s ≡ 0) × (publishing s ≡ 0) × (held x s ≡ is_one x y)
      → Agrees x (e + enqueuing s) (q + publishing s) (h + held x s) p
      → Agrees x e q (h + is_one x y) p
  unfolding Agrees
  carries s y z a = ground (arith, z, a)

  requested :
      p.retire_requested ≡ true → Agrees x (e + 0) (q + 0) (h + 0) p → p.admission_open ≡ false
  unfolding Agrees
  requested r a = ground (arith, r, a)

  close-Fine :
      Agrees x e q h p → Fine x e q h p (retires_lifecycle, record p { admission_open = false })
  unfolding Agrees
  close-Fine a = ground (arith, a)

  go_on-Fine :
      (n : ℕ) (b : Bool) (s : Stage)
      → Agrees x (e + enqueuing s) (q + publishing s) (h + held x s) p
      → Stands s p
      → Fine x e q h p (go_on n b s p)
  unfolding go_on
  go_on-Fine n b (enqueues o y) a t =
      register-Fine x e q h p o y n b (carries (enqueues o y) y (refl, refl, refl) a)
  go_on-Fine n b (rechecks o y) a t =
      recheck-Fine x e q h p o y n b (cast x p refl (omega arith) refl a)
  go_on-Fine n b (publishes o y) a t = publish-Fine x e q h p o y n b a
  go_on-Fine n b (releases o y c) a t =
      release-Fine x e q h p o y n c b (cast x p refl (omega arith) refl a)
  go_on-Fine n b (returns o y) a t =
      returns-Fine x e q h p o y n b (carries (returns o y) y (refl, refl, refl) a)
  go_on-Fine n b (steals zero) a t = same-Fine x e q h p idle a tt
  go_on-Fine n b (steals (suc k)) a t =
      steal_front-Fine x e q h p k (take_at n p.coroutine_queue)
        (take_at-Front x n p.coroutine_queue) (plain (steals (suc k)) (refl, refl, refl) a)
  go_on-Fine n b (hands k y) a t =
      hand-Fine x e q h p k y n b (carries (hands k y) y (refl, refl, refl) a)
  go_on-Fine n b working a t =
      if-cases (λ (s : Stage). Fine x e q h p (s, p)) p.retire_requested quiesces working
        (λ r. same-Fine x e q h p quiesces a (requested r a))
        (λ r. same-Fine x e q h p working a tt)
  go_on-Fine n b (runs y) a t = run-Fine x e q h p n y b (carries (runs y) y (refl, refl, refl) a)
  go_on-Fine n b (pulls zero) a t = same-Fine x e q h p working a tt
  go_on-Fine n b (pulls (suc k)) a t =
      pull_front-Fine x e q h p k (take_at n p.global_queue) (take_at-Front x n p.global_queue)
        (plain (pulls (suc k)) (refl, refl, refl) a)
  go_on-Fine n b quiesces a t =
      quiesce-Fine x e q h p n b le t (plain quiesces (refl, refl, refl) a)
  go_on-Fine n b drains a t =
      drain_front-Fine x e q h p (take_at n p.coroutine_queue) (take_at-Front x n p.coroutine_queue)
        t (plain drains (refl, refl, refl) a)
  go_on-Fine n b (drains_item y) a t =
      drains_item-Fine x e q h p y n b t (carries (drains_item y) y (refl, refl, refl) a)
  go_on-Fine n b exits a t = exit-Fine x e q h p n b t (plain exits (refl, refl, refl) a)
  go_on-Fine n b retires_lifecycle a t =
      retire-Fine x e q h p n b t (plain retires_lifecycle (refl, refl, refl) a)
  go_on-Fine n b retires_requests a t =
      request-Fine x e q h p n b t (plain retires_requests (refl, refl, refl) a)
  go_on-Fine n b idle a t = same-Fine x e q h p idle a tt
  go_on-Fine n b exited_at a t = same-Fine x e q h p exited_at a tt

  step-Fine :
      (m : Move) (s : Stage)
      → Agrees x (e + enqueuing s) (q + publishing s) (h + held x s) p
      → Stands s p
      → Fine x e q h p (step m s p)
  unfolding step
  step-Fine (offers y) idle a t = offer-Fine x e q h p caller y (plain idle (refl, refl, refl) a)
  step-Fine (forwards y) idle a t =
      offer-Fine x e q h p forwarder y (plain idle (refl, refl, refl) a)
  step-Fine (robs n) idle a t =
      if-cases (λ (s : Stage). Fine x e q h p (s, p)) (p.admission_open && is_active p.lifecycle)
        (steals n) idle (λ r. same-Fine x e q h p (steals n) a tt)
        (λ r. same-Fine x e q h p idle a tt)
  step-Fine retires idle a t = close-Fine (plain idle (refl, refl, refl) a)
  step-Fine (polls n) working a t =
      if-cases (λ (s : Stage). Fine x e q h p (s, p)) p.admission_open (pulls n) working
        (λ r. same-Fine x e q h p (pulls n) a tt) (λ r. same-Fine x e q h p working a tt)
  step-Fine (picks n) working a t =
      pick_front-Fine x e q h p (take_at n p.coroutine_queue) (take_at-Front x n p.coroutine_queue)
        (plain working (refl, refl, refl) a)
  step-Fine (goes_on n b) s a t = go_on-Fine n b s a t
  step-Fine _ s a t = same-Fine x e q h p s a t

publishing-le : (s : Stage) → publishing s ≤ enqueuing s
publishing-le s = ground arith

sum-le : (ss : List Stage) → sum publishing ss ≤ sum enqueuing ss
unfolding sum
sum-le [] = omega arith
sum-le (s ∷ ss) = omega (arith, publishing-le s, sum-le ss)

Stands-Grows : (s : Stage) (p d : Processer) → Grows p d → Stands s p → Stands s d
Stands-Grows drains p d g t = ground arith
Stands-Grows (drains_item y) p d g t = ground arith
Stands-Grows exits p d g t = ground arith
Stands-Grows quiesces p d g t = ground arith
Stands-Grows retires_lifecycle p d g t = ground arith
Stands-Grows retires_requests p d g t = ground arith
Stands-Grows _ p d g t = tt

All-Grows :
    (ss : List Stage) (p d : Processer)
    → Grows p d
    → All (λ s. Stands s p) ss
    → All (λ s. Stands s d) ss
All-Grows [] p d g t = tt
All-Grows (s ∷ ss) p d g (t, ts) = (Stands-Grows s p d g t, All-Grows ss p d g ts)

-- The processer, beside threads that are elsewhere.
Counted : ℕ → ℕ → ℕ → ℕ → List Stage × Processer → Type 0
Counted x e q h (ss, p) =
    Agrees x (e + sum enqueuing ss) (q + sum publishing ss) (h + sum (held x) ss) p
    × All (λ s. Stands s p) ss

step_at-Counted :
    (x i : ℕ) (m : Move) (ss : List Stage) (p : Processer) (e q h : ℕ)
    → q ≤ e
    → Counted x e q h (ss, p)
    → Counted x e q h (step_at i m ss p) × Grows p (step_at i m ss p).1
unfolding step_at sum Counted
step_at-Counted x i m [] p e q h le a = (a, (inl refl, inl refl, inl refl))
step_at-Counted x zero m (s ∷ ss) p e q h le (a, (t, ts)) =
    let (kept, t', grows) =
      step-Fine x (e + sum enqueuing ss) (q + sum publishing ss) (h + sum (held x) ss) p
        (omega (arith, sum-le ss)) m s (cast x p (omega arith) (omega arith) (omega arith) a) t in
    let (s', d) = step m s p in
    (
      (cast x d (omega arith) (omega arith) (omega arith) kept, (t', All-Grows ss p d grows ts)),
      grows,
    )
step_at-Counted x (suc i) m (s ∷ ss) p e q h le (a, (t, ts)) =
    let ((kept, ts'), grows) =
      step_at-Counted x i m ss p (e + enqueuing s) (q + publishing s) (h + held x s)
        (omega (arith, publishing-le s))
        (cast x p (omega arith) (omega arith) (omega arith) a, ts) in
    let (ss', d) = step_at i m ss p in
    (
      (cast x d (omega arith) (omega arith) (omega arith) kept, (Stands-Grows s p d grows t, ts')),
      grows,
    )

run-Counted :
    (x : ℕ) (ms : List (ℕ × Move)) (ss : List Stage) (p : Processer)
    → Counted x 0 0 0 (ss, p)
    → Counted x 0 0 0 (run ms ss p)
unfolding run
run-Counted x [] ss p a = a
run-Counted x ((i, m) ∷ ms) ss p a =
    let (ss', d) = step_at i m ss p in
    run-Counted x ms ss' d (step_at-Counted x i m ss p 0 0 0 (omega arith) a).0

all_idle-Counted : (x n : ℕ) → Counted x 0 0 0 (all_idle n, activate init)
unfolding sum Counted Agrees count
all_idle-Counted x zero = ((refl, refl, inl refl, inl refl, inl refl, inl refl), tt)
all_idle-Counted x (suc n) =
    let (a, ts) = all_idle-Counted x n in
    (cast x (activate init) (omega arith) (omega arith) (omega arith) a, (tt, ts))

threads-Counted : (x n : ℕ) → Counted x 0 0 0 (threads n, activate init)
unfolding sum Counted
threads-Counted x n =
    let (a, ts) = all_idle-Counted x n in
    (cast x (activate init) (omega arith) (omega arith) (omega arith) a, (tt, ts))

-- Any number of threads offer coroutines to an active processer, steal from it, and retire it, while it runs
-- and suspends them, pulls more from the global queue and at last drains its own, in any interleaving
-- of the atomic steps and with any failures of the queue. No coroutine is lost and none is doubled: each is, as
-- often as it was offered, in the processer's queue, in the global one, admitted by another processer,
-- suspended or at its end, given back to its caller, or in the hands of one thread.
pub run-conserves :
    (n x : ℕ) (ms : List (ℕ × Move))
    → let (ss, p) = run ms (threads n) (activate init) in
      total x p + sum (held x) ss ≡ count x p.offered
unfolding Counted Agrees
run-conserves n x ms =
    let (ss, p) = run ms (threads n) (activate init) in
    let (a, ts) = run-Counted x ms (threads n) (activate init) (threads-Counted x n) in
    omega (arith, a.1)

-- Any number of threads offer coroutines to an active processer, steal from it, and retire it, while
-- it runs its own and pulls more, in any interleaving of the atomic steps. Whenever the processer has
-- published that it exited, its queue is empty, the admission is closed, and no call that found the
-- admission open is about to enqueue. The counter of the calls under way is at every point the number
-- of those that have counted themselves.
pub run-exits :
    (n : ℕ) (ms : List (ℕ × Move))
    → let (ss, p) = run ms (threads n) (activate init) in
      (p.enqueue_inflight ≡ sum enqueuing ss)
      × ((is_over p.lifecycle ≡ false)
          ⊎ (p.coroutine_queue ≡ []) × (p.admission_open ≡ false) × (sum publishing ss ≡ 0))
unfolding Counted Agrees
run-exits n ms =
    let (ss, p) = run ms (threads n) (activate init) in
    let (a, ts) = run-Counted 0 ms (threads n) (activate init) (threads-Counted 0 n) in
    ground (arith, a)
