-- ===== src/Processer/Admission/Safety/Steps.antt =====
-- Each step around a processer's queue, beside other threads.
use bbtools_coroutine.Base.Bags.{is_one, count, count-snoc, Front}
use bbtools_coroutine.Base.{
  ℕ, ◌+◌, ◌-◌, ◌≤◌, ◌≡◌, refl, Bool, true, false, Option, none, some, List, [], ◌∷◌, ◌⊎◌, inl,
  if-cases, arith,
}
use bbtools_coroutine.Processer.{Processer}
use bbtools_coroutine.Processer.Admission.{
  Origin, caller, forwarder, worker, Stage, enqueues, rechecks, publishes, releases, returns, hands,
  working, runs, quiesces, drains_item, exits, retires_lifecycle, retires_requests, rejected,
  enqueue_begin, offer, release, steal_front, drain_front, pick_front, pull_front, go_on,
}
use bbtools_coroutine.Processer.Admission.Safety.{
  enqueuing, publishing, held, is_over, total, Stands, Grows,
}

-- `e` calls have counted themselves, `q` of them will enqueue, and the threads hold `x` `h` times.
unfoldable pub Agrees : ℕ → ℕ → ℕ → ℕ → Processer → Type 0
Agrees x e q h p =
    (p.enqueue_inflight ≡ e)
    × (total x p + h ≡ count x p.offered)
    × ((p.drained ≡ false) ⊎ (p.admission_open ≡ false) × (q ≡ 0))
    × ((p.emptied ≡ false) ⊎ (p.drained ≡ true) × (p.coroutine_queue ≡ []))
    × ((is_over p.lifecycle ≡ false) ⊎ (p.emptied ≡ true))
    × ((p.retire_requested ≡ false) ⊎ (p.admission_open ≡ false))

abbrev pub Fine : ℕ → ℕ → ℕ → ℕ → Processer → Stage × Processer → Type 0
Fine x e q h p (s, d) =
    Agrees x (e + enqueuing s) (q + publishing s) (h + held x s) d × Stands s d × Grows p d

module _ (x e q h : ℕ) (p : Processer) where
  pub rejected-Fine :
      (o : Origin) (y : ℕ) → Agrees x e q (h + is_one x y) p → Fine x e q h p (rejected o y p)
  unfolding Agrees rejected count
  rejected-Fine caller y a = ground (arith, a)
  rejected-Fine forwarder y a = ground (arith, a)
  rejected-Fine (worker n) y a = ground (arith, a)

  pub gone-Fine :
      (y : ℕ)
      → Agrees x e q (h + is_one x y) p
      → Fine x e q h p (working, record p { gone = y ∷ p.gone })
  unfolding Agrees count
  gone-Fine y a = ground (arith, a)

  pub begin-Fine :
      (o : Origin) (y : ℕ) → Agrees x e q (h + is_one x y) p → Fine x e q h p (enqueue_begin o y p)
  unfolding enqueue_begin Agrees
  begin-Fine o y a =
      if-cases (Fine x e q h p) p.admission_open _ _ (λ t. ground (arith, a))
        (λ f. rejected-Fine o y a)

  pub register-Fine :
      (o : Origin) (y n : ℕ) (b : Bool)
      → Agrees x e q (h + is_one x y) p
      → Fine x e q h p (go_on n b (enqueues o y) p)
  unfolding go_on Agrees
  register-Fine o y n b a = ground (arith, a)

  pub recheck-Fine :
      (o : Origin) (y n : ℕ) (b : Bool)
      → Agrees x (e + 1) q (h + is_one x y) p
      → Fine x e q h p (go_on n b (rechecks o y) p)
  unfolding go_on Agrees
  recheck-Fine o y n b a = ground (arith, a)

  pub publish-Fine :
      (o : Origin) (y n : ℕ) (b : Bool)
      → Agrees x (e + 1) (q + 1) (h + is_one x y) p
      → Fine x e q h p (go_on n b (publishes o y) p)
  unfolding go_on Agrees
  publish-Fine o y n b a = ground (arith, a, count-snoc x y p.coroutine_queue)

  pub returns-Fine :
      (o : Origin) (y n : ℕ) (b : Bool)
      → Agrees x e q (h + is_one x y) p
      → Fine x e q h p (go_on n b (returns o y) p)
  unfolding go_on Agrees
  returns-Fine caller y n b a = ground (arith, a, count-snoc x y p.global_queue)
  returns-Fine forwarder y n b a = ground (arith, a, count-snoc x y p.global_queue)
  returns-Fine (worker k) y n b a = ground (arith, a, count-snoc x y p.global_queue)

  pub steal_front-Fine :
      (k : ℕ) (o : Option (ℕ × List ℕ))
      → Front x p.coroutine_queue o
      → Agrees x e q h p
      → Fine x e q h p (steal_front k o p)
  unfolding steal_front Agrees
  steal_front-Fine k none f a = ground (arith, a)
  steal_front-Fine k (some (y, rest)) f a = ground (arith, a, f)

  pub drain_front-Fine :
      (o : Option (ℕ × List ℕ))
      → Front x p.coroutine_queue o
      → p.drained ≡ true
      → Agrees x e q h p
      → Fine x e q h p (drain_front o p)
  unfolding drain_front Agrees
  drain_front-Fine none f t a = ground (arith, a, f)
  drain_front-Fine (some (y, rest)) f t a = ground (arith, a, f)

  pub pick_front-Fine :
      (o : Option (ℕ × List ℕ))
      → Front x p.coroutine_queue o
      → Agrees x e q h p
      → Fine x e q h p (pick_front o p)
  unfolding pick_front Agrees
  pick_front-Fine none f a = ground (arith, a)
  pick_front-Fine (some (y, rest)) f a = ground (arith, a, f)

  pub hand-Fine :
      (k y n : ℕ) (b : Bool)
      → Agrees x e q (h + is_one x y) p
      → Fine x e q h p (go_on n b (hands k y) p)
  unfolding go_on Agrees count
  hand-Fine k y n b a = ground (arith, a)

  pub quiesce-Fine :
      (n : ℕ) (b : Bool)
      → q ≤ e
      → p.admission_open ≡ false
      → Agrees x e q h p
      → Fine x e q h p (go_on n b quiesces p)
  unfolding go_on Agrees
  quiesce-Fine n b le f a = ground (arith, a)

  pub drains_item-Fine :
      (y n : ℕ) (b : Bool)
      → p.drained ≡ true
      → Agrees x e q (h + is_one x y) p
      → Fine x e q h p (go_on n b (drains_item y) p)
  unfolding go_on Agrees
  drains_item-Fine y n b t a = ground (arith, a, count-snoc x y p.global_queue)

  pub exit-Fine :
      (n : ℕ) (b : Bool) → p.emptied ≡ true → Agrees x e q h p → Fine x e q h p (go_on n b exits p)
  unfolding go_on Agrees
  exit-Fine n b t a = ground (arith, a)

  pub retire-Fine :
      (n : ℕ) (b : Bool)
      → p.admission_open ≡ false
      → Agrees x e q h p
      → Fine x e q h p (go_on n b retires_lifecycle p)
  unfolding go_on Agrees
  retire-Fine n b t a = ground (arith, a)

  pub request-Fine :
      (n : ℕ) (b : Bool)
      → p.admission_open ≡ false
      → Agrees x e q h p
      → Fine x e q h p (go_on n b retires_requests p)
  unfolding go_on Agrees
  request-Fine n b t a = ground (arith, a)

  pub same-Fine :
      (s : Stage)
      → Agrees x (e + enqueuing s) (q + publishing s) (h + held x s) p
      → Stands s p
      → Fine x e q h p (s, p)
  same-Fine s a t = (a, t, (inl refl, inl refl, inl refl))

  pub run-Fine :
      (n y : ℕ) (b : Bool) → Agrees x e q (h + is_one x y) p → Fine x e q h p (go_on n b (runs y) p)
  unfolding go_on
  run-Fine n y true a = begin-Fine (worker 0) y a
  run-Fine n y false a = gone-Fine y a

module _ (x e q h : ℕ) (p : Processer) where
  pub release-Fine :
      (o : Origin) (y n : ℕ) (b c : Bool)
      → Agrees x (e + 1) q (h + held x (releases o y b)) p
      → Fine x e q h p (go_on n c (releases o y b) p)
  unfolding go_on release Agrees
  release-Fine o y n false c a =
      let d : Processer = record p { enqueue_inflight = p.enqueue_inflight - 1 } in
      let a' : Agrees x e q (h + is_one x y) d = ground (arith, a) in rejected-Fine x e q h d o y a'
  release-Fine caller y n true c a = ground (arith, a)
  release-Fine forwarder y n true c a = ground (arith, a)
  release-Fine (worker k) y n true c a = ground (arith, a)

  pub pull_front-Fine :
      (k : ℕ) (o : Option (ℕ × List ℕ))
      → Front x p.global_queue o
      → Agrees x e q h p
      → Fine x e q h p (pull_front k o p)
  unfolding pull_front Agrees
  pull_front-Fine k none f a = ground (arith, a)
  pull_front-Fine k (some (y, rest)) f a =
      let d : Processer = record p { global_queue = rest } in
      let a' : Agrees x e q (h + is_one x y) d = ground (arith, a, f) in
      begin-Fine x e q h d (worker k) y a'

  pub offer-Fine :
      (o : Origin) (y : ℕ) → Agrees x e q h p → Fine x e q h p (enqueue_begin o y (offer y p))
  unfolding Agrees count
  offer-Fine o y a =
      let d = offer y p in
      let a' : Agrees x e q (h + is_one x y) d = ground (arith, a) in begin-Fine x e q h d o y a'
