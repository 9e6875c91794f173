-- ===== src/PollEvent/Machine/Once.antt =====
-- One winner and one callback per event, whatever calls race on it.
pub mod Race
use bbtools_coroutine.Base.{
  ℕ, zero, suc, ◌+◌, ◌≡◌, refl, ap, sym, Bool, true, false, not, ◌&&◌, ◌||◌, Option, none, some,
  List, [], ◌∷◌, ◌++◌, All, ◌==◌, ==_iff, if◌then◌else◌, if-cases, arith, inl, inr, ◌⊎◌, Bool-cases,
}
use bbtools_coroutine.PollEvent.State.{
  Phase, inited, arming, armed, parked, pending, triggering, final, cancelled, State, event_closed,
}
use bbtools_coroutine.PollEvent.Machine.{
  Event, Caller, by_trigger, by_regist, by_init, by_park, Call, trigger, trigger_saw, detaches,
  publishes, calls, regist, regist_arms, regist_listens, regist_fails, regist_listened,
  regist_tracks, regist_failed, regist_cleans, commit_park, park_saw, unregist, unregist_saw,
  unregist_cleans, init_fd, init_samples, init_creates, init_custom, returned, Answer, Listen, code,
  word_at, bare, same_word, lost, was_pending, is_inited, cancel_all, trigger_round, park_round,
  unregist_round, regist_arm, regist_listen, failed_round, regist_armed, regist_track, init_begin,
  init_sample, init_create, init_custom_event, step, store, win, exchange,
}

-- Calls on the way to publishing FINAL, and calls about to run the callback.
abbrev pub completing : Call → ℕ
completing (detaches c f) = 1
completing (publishes c f) = 1
completing _ = 0

abbrev pub calling : Call → ℕ
calling (calls c f) = 1
calling _ = 0

-- The history that the phase and mask of the word stand for, with `p` calls completing and `k`
-- about to run the callback.
abbrev pub Tells : Phase → ℕ → List ℕ → List ℕ → ℕ → ℕ → Type 0
Tells pending f won called p k = (won ≡ f ∷ []) × (called ≡ []) × (p ≡ 0) × (k ≡ 0)
Tells triggering f won called p k = (won ≡ f ∷ []) × (called ≡ []) × (p ≡ 1) × (k ≡ 0)
Tells final f won called p k =
    (won ≡ f ∷ []) × (p ≡ 0) × ((called ≡ []) × (k ≡ 1) ⊎ (called ≡ won) × (k ≡ 0))
Tells _ f won called p k = (won ≡ []) × (called ≡ []) × (p ≡ 0) × (k ≡ 0)

abbrev pub Keeps : ℕ → ℕ → Event → Type 0
Keeps p k e = Tells e.word.phase e.word.flags e.won e.called p k

-- A call that completes carries the mask that won.
abbrev pub Carries : Call → Event → Type 0
Carries (detaches c f) e = e.won ≡ f ∷ []
Carries (publishes c f) e = e.won ≡ f ∷ []
Carries (calls c f) e = e.won ≡ f ∷ []
Carries _ e = Unit

-- The history of winners changes only while it is empty.
abbrev pub Settled : Event → Event → Type 0
Settled e n = (n.won ≡ e.won) ⊎ (e.won ≡ [])

abbrev pub Fine : ℕ → ℕ → Event → Call × Event → Type 0
Fine p k e x = Keeps (p + completing x.0) (k + calling x.0) x.1 × Carries x.0 x.1 × Settled e x.1

same_code : (a b : Phase) → code a ≡ code b → a ≡ b
same_code inited b h = ground arith
same_code arming b h = ground arith
same_code armed b h = ground arith
same_code parked b h = ground arith
same_code pending b h = ground arith
same_code triggering b h = ground arith
same_code final b h = ground arith
same_code cancelled b h = ground arith

same_word-eq : (a b : State) → same_word a b ≡ true → (a.phase ≡ b.phase) × (a.flags ≡ b.flags)
same_word-eq a b h =
    ground (
      arith,
      same_code a.phase b.phase,
      ==_iff (code a.phase) (code b.phase),
      ==_iff a.flags b.flags,
    )

module _ (p k : ℕ) (e : Event) where
  -- A call with no part in the completion that leaves the event as it is.
  pub idles-Fine :
      (c : Call)
      → (completing c ≡ 0) × (calling c ≡ 0)
      → Carries c e
      → Keeps p k e
      → Fine p k e (c, e)
  idles-Fine c z g a = rw (z.0, z.1) (ground arith)

  exchange-Fine :
      (x : Answer) (s : State) (done : Call × Event) (again : Call)
      → Keeps p k e
      → (completing again ≡ 0) × (calling again ≡ 0)
      → Carries again e
      → (e.word.phase ≡ s.phase → e.word.flags ≡ s.flags → Fine p k e done)
      → Fine p k e (exchange x s e done again)
  exchange-Fine x s done again a z g h =
      if-cases (λ (y : Call × Event). Fine p k e y) (not x.spurious && same_word e.word s) done
        (again, e) (λ t. ground (arith, same_word-eq e.word s)) (λ f. idles-Fine again z g a)

  pub cancel_all-Fine :
      (c : Call)
      → (completing c ≡ 0) × (calling c ≡ 0)
      → Carries c (cancel_all e)
      → Keeps p k e
      → Fine p k e (c, cancel_all e)
  unfolding cancel_all
  cancel_all-Fine c z g a = rw (z.0, z.1) (ground arith)

  pub returned-Fine : (r : Bool) → Keeps p k e → Fine p k e (returned r, e)
  returned-Fine r a = idles-Fine (returned r) (refl, refl) tt a

  pub trigger_round-Fine :
      (x : Answer) (c : Caller) (f : ℕ) (s : State) (q : Phase)
      → s.phase ≡ q
      → Keeps p k e
      → Fine p k e (trigger_round x c f s e)
  unfolding trigger_round
  trigger_round-Fine x c f s q h a = on q h
    where
      latched :
          (e.word.phase ≡ inited) ⊎ (e.word.phase ≡ arming) ⊎ (e.word.phase ≡ armed)
          → Fine p k e (returned true, win f (store (word_at pending f) e))
      latched h = ground arith

      runs :
          e.word.phase ≡ parked → Fine p k e (detaches c f, win f (store (word_at triggering f) e))
      runs h = ground arith

      again :
          (done : Call × Event)
          → (e.word.phase ≡ s.phase → Fine p k e done)
          → Fine p k e (exchange x s e done (trigger_saw c f e.word))
      again done h = exchange-Fine x s done (trigger_saw c f e.word) a (refl, refl) tt (λ u v. h u)

      on : (q : Phase) → s.phase ≡ q → Fine p k e (trigger_round x c f s e)
      on inited h = rw (h, trigger_round) (again _ (λ u. latched (inl (rw (sym h) u))))
      on arming h = rw (h, trigger_round) (again _ (λ u. latched (inr (inl (rw (sym h) u)))))
      on armed h = rw (h, trigger_round) (again _ (λ u. latched (inr (inr (rw (sym h) u)))))
      on parked h = rw (h, trigger_round) (again _ (λ u. runs (rw (sym h) u)))
      on q h = rw (h, trigger_round) (returned-Fine (lost c) a)

  pub park_round-Fine :
      (x : Answer) (s : State) (q : Phase)
      → s.phase ≡ q
      → Keeps p k e
      → Fine p k e (park_round x s e)
  unfolding park_round
  park_round-Fine x s q h a = on q h
    where
      parks : e.word.phase ≡ armed → Fine p k e (returned false, store (bare parked) e)
      parks h = ground arith

      runs :
          e.word.phase ≡ pending
          → e.word.flags ≡ s.flags
          → Fine p k e (detaches by_park s.flags, store (word_at triggering s.flags) e)
      runs h v = ground arith

      again :
          (done : Call × Event)
          → (e.word.phase ≡ s.phase → e.word.flags ≡ s.flags → Fine p k e done)
          → Fine p k e (exchange x s e done (park_saw e.word))
      again done h = exchange-Fine x s done (park_saw e.word) a (refl, refl) tt h

      on : (q : Phase) → s.phase ≡ q → Fine p k e (park_round x s e)
      on armed h = rw (h, park_round) (again _ (λ u v. parks (rw (sym h) u)))
      on pending h = rw (h, park_round) (again _ (λ u v. runs (rw (sym h) u) v))
      on q h = rw (h, park_round) (returned-Fine false a)

  Open : Type 0
  Open =
      (e.word.phase ≡ inited)
      ⊎ (e.word.phase ≡ arming)
      ⊎ (e.word.phase ≡ armed)
      ⊎ (e.word.phase ≡ parked)

  cancels-Fine :
      (c : Call)
      → (completing c ≡ 0) × (calling c ≡ 0)
      → Carries c (store (bare cancelled) e)
      → Open
      → Keeps p k e
      → Fine p k e (c, store (bare cancelled) e)
  unfolding Open
  cancels-Fine c z g h a = rw (z.0, z.1) (ground arith)

  pub unregist_round-Fine :
      (x : Answer) (s : State) (q : Phase)
      → s.phase ≡ q
      → Keeps p k e
      → Fine p k e (unregist_round x s e)
  unfolding unregist_round Open
  unregist_round-Fine x s q h a = on q h
    where
      again :
          (c : Call)
          → (completing c ≡ 0) × (calling c ≡ 0)
          → Carries c (store (bare cancelled) e)
          → (e.word.phase ≡ s.phase → Open)
          → Fine p k e (exchange x s e (c, store (bare cancelled) e) (unregist_saw e.word))
      again c z g h =
          exchange-Fine x s _ (unregist_saw e.word) a (refl, refl) tt
            (λ u v. cancels-Fine c z g (h u) a)

      on : (q : Phase) → s.phase ≡ q → Fine p k e (unregist_round x s e)
      on inited h =
          rw (h, unregist_round) (again unregist_cleans (refl, refl) tt (λ u. inl (rw (sym h) u)))
      on arming h =
          rw (h, unregist_round)
            (again (returned true) (refl, refl) tt (λ u. inr (inl (rw (sym h) u))))
      on armed h =
          rw (h, unregist_round)
            (again unregist_cleans (refl, refl) tt (λ u. inr (inr (inl (rw (sym h) u)))))
      on parked h =
          rw (h, unregist_round)
            (again unregist_cleans (refl, refl) tt (λ u. inr (inr (inr (rw (sym h) u)))))
      on q h = rw (h, unregist_round) (returned-Fine false a)

  pub failed_round-Fine :
      (x : Answer) (s : State) (q : Phase)
      → s.phase ≡ q
      → Keeps p k e
      → Fine p k e (failed_round x s e)
  unfolding failed_round Open
  failed_round-Fine x s arming h a =
      rw (h, failed_round)
        (exchange-Fine x s _ (regist_failed e.word) a (refl, refl) tt
          (λ u v. cancels-Fine (regist_cleans false) (refl, refl) tt (inr (inl (rw (sym h) u))) a))
  failed_round-Fine x s q h a =
      rw (h, failed_round) (idles-Fine (regist_cleans (was_pending s)) (refl, refl) tt a)

  pub regist_arm-Fine : Keeps p k e → Fine p k e (regist_arm e)
  unfolding regist_arm
  regist_arm-Fine a = ground (arith, same_word-eq e.word (bare inited))

  pub regist_armed-Fine : Keeps p k e → Fine p k e (regist_armed e)
  unfolding regist_armed
  regist_armed-Fine a = ground (arith, same_word-eq e.word (bare arming))

  pub plain :
      (c : Call)
      → (completing c ≡ 0) × (calling c ≡ 0)
      → Keeps (p + completing c) (k + calling c) e
      → Keeps p k e
  plain c z a =
      let none_completes : p ≡ p + completing c = omega (arith, z.0) in
      let none_calls : k ≡ k + calling c = omega (arith, z.1) in rw (none_completes, none_calls) a

  record-Fine :
      (b m h : Bool) (c : Call)
      → (completing c ≡ 0) × (calling c ≡ 0)
      → Carries c (record e { tracked = b; event = m; has_custom = h })
      → Keeps p k e
      → Fine p k e (c, record e { tracked = b; event = m; has_custom = h })
  record-Fine b m h c z g a = rw (z.0, z.1) (ground arith)

  pub regist_listen-Fine : (x : Answer) → Keeps p k e → Fine p k e (regist_listen x e)
  unfolding regist_listen
  regist_listen-Fine x a = ground arith

  pub regist_track-Fine : (x : Answer) → Keeps p k e → Fine p k e (regist_track x e)
  unfolding regist_track
  regist_track-Fine x a =
      if-cases (λ (y : Call × Event). Fine p k e y) x.accepts _ _
        (λ t. record-Fine true e.event e.has_custom (returned true) (refl, refl) tt a)
        (λ f. idles-Fine (trigger by_regist event_closed) (refl, refl) tt a)

  pub init_begin-Fine : (valid : Bool) → Keeps p k e → Fine p k e (init_begin valid e)
  unfolding init_begin
  init_begin-Fine valid a =
      if-cases (λ (c : Call). Fine p k e (c, e)) (is_inited e.word && (valid && not e.event))
        init_samples (returned false) (λ t. idles-Fine init_samples (refl, refl) tt a)
        (λ f. returned-Fine false a)

  pub init_sample-Fine : (x : Answer) → Keeps p k e → Fine p k e (init_sample x e)
  unfolding init_sample
  init_sample-Fine x a =
      if-cases (λ (c : Call). Fine p k e (c, e)) x.closing (trigger by_init event_closed)
        (init_creates 0) (λ t. idles-Fine (trigger by_init event_closed) (refl, refl) tt a)
        (λ f. idles-Fine (init_creates 0) (refl, refl) tt a)

  pub init_create-Fine :
      (x : Answer) (n : ℕ) (made : Option Bool)
      → x.create ≡ made
      → Keeps p k e
      → Fine p k e (init_create x n e)
  unfolding init_create
  init_create-Fine x n none h a = ground arith
  init_create-Fine x n (some made) h a = ground arith

  pub init_custom-Fine : Keeps p k e → Fine p k e (init_custom_event e)
  unfolding init_custom_event
  init_custom-Fine a =
      if-cases (λ (y : Call × Event). Fine p k e y) (is_inited e.word && not e.has_custom) _ _
        (λ t. record-Fine e.tracked e.event true (returned true) (refl, refl) tt a)
        (λ f. returned-Fine false a)

  -- The three steps of a completion.
  pub detaches-Fine :
      (c : Caller) (f : ℕ)
      → Keeps (suc p) k e
      → Carries (detaches c f) e
      → Fine p k e (publishes c f, cancel_all e)
  unfolding cancel_all
  detaches-Fine c f a g = ground arith

  pub publishes-Fine :
      (c : Caller) (f : ℕ)
      → Keeps (suc p) k e
      → Carries (publishes c f) e
      → Fine p k e (calls c f, store (word_at final f) e)
  publishes-Fine c f a g = ground arith

  pub calls-Fine :
      (c : Caller) (f : ℕ)
      → Keeps p (suc k) e
      → Carries (calls c f) e
      → Fine p k e (returned true, record e { called = e.called ++ f ∷ [] })
  calls-Fine c f a g = ground arith
