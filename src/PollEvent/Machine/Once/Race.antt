-- ===== src/PollEvent/Machine/Once/Race.antt =====
-- Any number of calls on one event, in any interleaving of their atomic steps.
use bbtools_coroutine.Base.{
  ℕ, zero, suc, ◌+◌, ◌==◌, ◌≡◌, refl, sym, Bool, true, false, List, [], ◌∷◌, length, All, if-cases,
  ◌≤◌, ◌≢◌, arith, inl, sum,
}
use bbtools_coroutine.PollEvent.State.{
  Phase, inited, arming, armed, parked, pending, triggering, final, cancelled,
}
use bbtools_coroutine.PollEvent.Machine.{
  Event, fresh, Call, trigger, trigger_saw, detaches, publishes, calls, regist, regist_arms,
  regist_listens, regist_fails, regist_listened, regist_tracks, regist_failed, regist_cleans,
  commit_park, park_saw, unregist, unregist_saw, unregist_cleans, init_fd, init_samples,
  init_creates, init_custom, returned, Answer, step, step_at, run, lost, was_pending,
}
use bbtools_coroutine.PollEvent.Machine.Once.{
  completing, calling, Tells, Keeps, Carries, Settled, Fine, plain, idles-Fine, cancel_all-Fine,
  returned-Fine, trigger_round-Fine, park_round-Fine, unregist_round-Fine, failed_round-Fine,
  regist_arm-Fine, regist_armed-Fine, regist_listen-Fine, regist_track-Fine, init_begin-Fine,
  init_sample-Fine, init_create-Fine, init_custom-Fine, detaches-Fine, publishes-Fine, calls-Fine,
}

cast : {p p' k k' : ℕ} (e : Event) → p ≡ p' → k ≡ k' → Keeps p k e → Keeps p' k' e
cast e u v a = rw (sym u, sym v) a

module _ (p k : ℕ) (e : Event) where
  step-Fine :
      (x : Answer) (c : Call)
      → Keeps (p + completing c) (k + calling c) e
      → Carries c e
      → Fine p k e (step x c e)
  unfolding step
  step-Fine x (trigger c f) a g =
      let b = plain p k e (trigger c f) (refl, refl) a in
      if-cases (λ (d : Call). Fine p k e (d, e)) (f == 0) (returned (lost c))
        (trigger_saw c f e.word) (λ t. returned-Fine p k e (lost c) b)
        (λ t. idles-Fine p k e (trigger_saw c f e.word) (refl, refl) tt b)
  step-Fine x (trigger_saw c f s) a g =
      trigger_round-Fine p k e x c f s s.phase refl (plain p k e (trigger_saw c f s) (refl, refl) a)
  step-Fine x (detaches c f) a g = detaches-Fine p k e c f (cast e (omega arith) (omega arith) a) g
  step-Fine x (publishes c f) a g =
      publishes-Fine p k e c f (cast e (omega arith) (omega arith) a) g
  step-Fine x (calls c f) a g = calls-Fine p k e c f (cast e (omega arith) (omega arith) a) g
  step-Fine x regist a g =
      let b = plain p k e regist (refl, refl) a in
      if-cases (λ (d : Call). Fine p k e (d, e)) (was_pending e.word) (returned true) regist_arms
        (λ t. returned-Fine p k e true b) (λ t. idles-Fine p k e regist_arms (refl, refl) tt b)
  step-Fine x regist_arms a g = regist_arm-Fine p k e (plain p k e regist_arms (refl, refl) a)
  step-Fine x regist_listens a g =
      regist_listen-Fine p k e x (plain p k e regist_listens (refl, refl) a)
  step-Fine x regist_fails a g =
      idles-Fine p k e (regist_failed e.word) (refl, refl) tt
        (plain p k e regist_fails (refl, refl) a)
  step-Fine x (regist_failed s) a g =
      failed_round-Fine p k e x s s.phase refl (plain p k e (regist_failed s) (refl, refl) a)
  step-Fine x (regist_cleans r) a g =
      cancel_all-Fine p k e (returned r) (refl, refl) tt
        (plain p k e (regist_cleans r) (refl, refl) a)
  step-Fine x regist_listened a g =
      regist_armed-Fine p k e (plain p k e regist_listened (refl, refl) a)
  step-Fine x regist_tracks a g =
      regist_track-Fine p k e x (plain p k e regist_tracks (refl, refl) a)
  step-Fine x commit_park a g =
      idles-Fine p k e (park_saw e.word) (refl, refl) tt (plain p k e commit_park (refl, refl) a)
  step-Fine x (park_saw s) a g =
      park_round-Fine p k e x s s.phase refl (plain p k e (park_saw s) (refl, refl) a)
  step-Fine x unregist a g =
      idles-Fine p k e (unregist_saw e.word) (refl, refl) tt (plain p k e unregist (refl, refl) a)
  step-Fine x (unregist_saw s) a g =
      unregist_round-Fine p k e x s s.phase refl (plain p k e (unregist_saw s) (refl, refl) a)
  step-Fine x unregist_cleans a g =
      cancel_all-Fine p k e (returned true) (refl, refl) tt
        (plain p k e unregist_cleans (refl, refl) a)
  step-Fine x (init_fd v) a g = init_begin-Fine p k e v (plain p k e (init_fd v) (refl, refl) a)
  step-Fine x init_samples a g = init_sample-Fine p k e x (plain p k e init_samples (refl, refl) a)
  step-Fine x (init_creates n) a g =
      init_create-Fine p k e x n x.create refl (plain p k e (init_creates n) (refl, refl) a)
  step-Fine x init_custom a g = init_custom-Fine p k e (plain p k e init_custom (refl, refl) a)
  step-Fine x (returned r) a g = returned-Fine p k e r (plain p k e (returned r) (refl, refl) a)

-- The history beside `p` and `k` calls that are elsewhere.
Counted : ℕ → ℕ → List Call × Event → Type 0
Counted p k x =
    Keeps (p + sum completing x.0) (k + sum calling x.0) x.1 × All (λ c. Carries c x.1) x.0

Carries-Settled : (c : Call) (e n : Event) → Settled e n → Carries c e → Carries c n
Carries-Settled (detaches c f) e n s g = ground arith
Carries-Settled (publishes c f) e n s g = ground arith
Carries-Settled (calls c f) e n s g = ground arith
Carries-Settled _ e n s g = tt

All-Settled :
    (cs : List Call) (e n : Event)
    → Settled e n
    → All (λ c. Carries c e) cs
    → All (λ c. Carries c n) cs
All-Settled [] e n s g = tt
All-Settled (c ∷ cs) e n s g = (Carries-Settled c e n s g.0, All-Settled cs e n s g.1)

step_at-Counted :
    (i : ℕ) (x : Answer) (cs : List Call) (e : Event) (p k : ℕ)
    → Counted p k (cs, e)
    → Counted p k (step_at i x cs e) × Settled e (step_at i x cs e).1
unfolding step_at sum Counted
step_at-Counted i x [] e p k a = (a, inl refl)
step_at-Counted zero x (c ∷ cs) e p k (a, (g, gs)) =
    let (kept, carried, settled) =
      step-Fine (p + sum completing cs) (k + sum calling cs) e x c
        (cast e (omega arith) (omega arith) a) g in
    let (d, n) = step x c e in
    ((cast n (omega arith) (omega arith) kept, (carried, All-Settled cs e n settled gs)), settled)
step_at-Counted (suc i) x (c ∷ cs) e p k (a, (g, gs)) =
    let ((kept, carried), settled) =
      step_at-Counted i x cs e (p + completing c) (k + calling c)
        (cast e (omega arith) (omega arith) a, gs) in
    let (ds, n) = step_at i x cs e in
    ((cast n (omega arith) (omega arith) kept, (Carries-Settled c e n settled g, carried)), settled)

run-Counted :
    (xs : List (ℕ × Answer)) (cs : List Call) (e : Event)
    → Counted 0 0 (cs, e)
    → Counted 0 0 (run xs cs e)
unfolding run
run-Counted [] cs e a = a
run-Counted ((i, x) ∷ xs) cs e a =
    let (ds, n) = step_at i x cs e in run-Counted xs ds n (step_at-Counted i x cs e 0 0 a).0

-- The calls that the program makes: none has begun.
abbrev pub begins : Call → Bool
begins (trigger c f) = true
begins regist = true
begins commit_park = true
begins unregist = true
begins (init_fd v) = true
begins init_custom = true
begins _ = false

begin-Counted : (cs : List Call) → All (λ c. begins c ≡ true) cs → Counted 0 0 (cs, fresh)
unfolding Counted sum
begin-Counted [] h = ((refl, refl, refl, refl), tt)
begin-Counted (c ∷ cs) (b, h) =
    let (kept, carried) = begin-Counted cs h in
    let none_of : (completing c ≡ 0) × (calling c ≡ 0) × Carries c fresh = ground arith in
    (cast fresh (omega (arith, none_of.0)) (omega (arith, none_of.1)) kept, (none_of.2, carried))

-- Any calls on a fresh event (triggers with any masks, registrations, commits, cancellations,
-- initialisations) run in any interleaving of their atomic steps, with any answers of the poller and
-- any spurious failures. At every point the state word tells the history: before PENDING and in
-- CANCELLED no trigger has won and no callback has run; in PENDING, TRIGGERING and FINAL exactly one
-- trigger has won, and the word holds its mask; in TRIGGERING exactly one call completes the event and
-- no callback has run; in FINAL none completes it any more, and the callback either has run once, with
-- the mask that won, or one call is about to run it.
pub run-Tells :
    (cs : List Call) (xs : List (ℕ × Answer))
    → All (λ c. begins c ≡ true) cs
    → let (ds, e) = run xs cs fresh in
      Tells e.word.phase e.word.flags e.won e.called (sum completing ds) (sum calling ds)
unfolding Counted
run-Tells cs xs h =
    let (ds, e) = run xs cs fresh in
    cast e (omega arith) (omega arith) (run-Counted xs cs fresh (begin-Counted cs h)).0

abbrev pub is_returned : Call → Bool
is_returned (returned r) = true
is_returned _ = false

abbrev pub delivered : Phase → List ℕ → List ℕ
delivered final won = won
delivered _ won = []

All-returned :
    (cs : List Call)
    → All (λ c. is_returned c ≡ true) cs
    → (sum completing cs ≡ 0) × (sum calling cs ≡ 0)
unfolding sum
All-returned [] h = (refl, refl)
All-returned (c ∷ cs) (b, h) = ground (arith, All-returned cs h)

Tells-delivered :
    (q : Phase) (f : ℕ) (won called : List ℕ)
    → Tells q f won called 0 0
    → (called ≡ delivered q won) × (length won ≤ 1) × (q ≢ triggering)
Tells-delivered inited f won called t = ground arith
Tells-delivered arming f won called t = ground arith
Tells-delivered armed f won called t = ground arith
Tells-delivered parked f won called t = ground arith
Tells-delivered pending f won called t = ground arith
Tells-delivered triggering f won called t = ground arith
Tells-delivered final f won called t = ground arith
Tells-delivered cancelled f won called t = ground arith

-- Once all of the calls have returned, however they were interleaved, no event is left half
-- completed, at most one trigger has won, and the callback has run exactly for the masks that won if
-- the event is FINAL, and not at all otherwise.
pub run-delivers :
    (cs : List Call) (xs : List (ℕ × Answer))
    → All (λ c. begins c ≡ true) cs
    → All (λ c. is_returned c ≡ true) (run xs cs fresh).0
    → let e = (run xs cs fresh).1 in
      (e.called ≡ delivered e.word.phase e.won) × (length e.won ≤ 1) × (e.word.phase ≢ triggering)
run-delivers cs xs h r =
    let (ds, e) = run xs cs fresh in
    let (quiet, silent) = All-returned ds r in
    Tells-delivered e.word.phase e.word.flags e.won e.called
      (cast e quiet silent (run-Tells cs xs h))
