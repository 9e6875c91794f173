-- ===== src/CfsRunQueue/Laws.antt =====
-- The order of the run queue, and who runs.
use bbtools_coroutine.Base.{
  ◌≡◌, ◌≢◌, ◌⊎◌, ap, refl, true, false, Option, none, some, List, [], ◌∷◌, ◌++◌, All, inl, inr,
  Bool-cases, if-cases, arith,
}
use bbtools_coroutine.CfsRunQueue.{
  Time, Entity, Queue, empty_queue, insert, rehang, enqueue, pick, account, take, Op, enqueues,
  picks, takes, accounts, step, run,
}

module _ {V : Type 0} ⦃t : Time V⦄ where
  open t use {lt, lt_asym, ge_trans}

  -- No entity of the list is earlier than `e`.
  abbrev pub NoneEarlier : Entity V → List (Entity V) → Type 0
  NoneEarlier e xs = All (λ x. lt x.vruntime e.vruntime ≡ false) xs

  abbrev pub Sorted : List (Entity V) → Type 0
  Sorted [] = Unit
  Sorted (x ∷ xs) = NoneEarlier x xs × Sorted xs

  NoneEarlier-insert :
      (a e : Entity V) (xs : List (Entity V))
      → lt e.vruntime a.vruntime ≡ false
      → NoneEarlier a xs
      → NoneEarlier a (insert e xs)
  unfolding insert
  NoneEarlier-insert a e [] h n = (h, tt)
  NoneEarlier-insert a e (x ∷ xs) h n =
      if-cases (λ (l : List (Entity V)). NoneEarlier a l) (lt e.vruntime x.vruntime) _ _
        (λ p. (h, n)) (λ p. (n.0, NoneEarlier-insert a e xs h n.1))

  NoneEarlier-trans :
      (a b : Entity V) (xs : List (Entity V))
      → lt b.vruntime a.vruntime ≡ false
      → NoneEarlier b xs
      → NoneEarlier a xs
  NoneEarlier-trans a b [] h n = tt
  NoneEarlier-trans a b (x ∷ xs) h n =
      (ge_trans x.vruntime b.vruntime a.vruntime n.0 h, NoneEarlier-trans a b xs h n.1)

  Sorted-insert : (e : Entity V) (xs : List (Entity V)) → Sorted xs → Sorted (insert e xs)
  unfolding insert
  Sorted-insert e [] s = (tt, tt)
  Sorted-insert e (x ∷ xs) s =
      if-cases (λ (l : List (Entity V)). Sorted l) (lt e.vruntime x.vruntime) _ _
        (λ p.
          let later = lt_asym e.vruntime x.vruntime p in
          ((later, NoneEarlier-trans e x xs later s.0), s))
        (λ p. (NoneEarlier-insert x e xs p s.0, Sorted-insert e xs s.1))

  -- Into a queue in order an entity goes behind every one that is not later, those with the same time
  -- included, and before every one that is.
  insert-behind :
      (e : Entity V) (xs : List (Entity V))
      → Sorted xs
      → (front : List (Entity V)) × (back : List (Entity V)) × (xs ≡ front ++ back)
        × (insert e xs ≡ front ++ e ∷ back)
        × All (λ x. lt e.vruntime x.vruntime ≡ false) front
        × All (λ x. lt e.vruntime x.vruntime ≡ true) back
  unfolding insert
  insert-behind e [] s = ([], [], refl, refl, tt, tt)
  insert-behind e (x ∷ xs) s = elim (Bool-cases (lt e.vruntime x.vruntime)) [
    | inl p ↦ ([], x ∷ xs, refl, rw p refl, tt, (p, all_later e x xs p s.0))
    | inr p ↦
        let (front, back, split, put, before, behind) = insert-behind e xs s.1 in
        (x ∷ front, back, ap (λ l. x ∷ l) split, rw p (ap (λ l. x ∷ l) put), (p, before), behind)
  ]
    where
      later_too :
          (e x y : Entity V)
          → lt e.vruntime x.vruntime ≡ true
          → lt y.vruntime x.vruntime ≡ false
          → lt e.vruntime y.vruntime ≡ true
      later_too e x y p h = elim (Bool-cases (lt e.vruntime y.vruntime)) [
        | inl q ↦ q
        | inr q ↦ absurd (ground (arith, ge_trans e.vruntime y.vruntime x.vruntime q h))
      ]

      all_later :
          (e x : Entity V) (ys : List (Entity V))
          → lt e.vruntime x.vruntime ≡ true
          → NoneEarlier x ys
          → All (λ y. lt e.vruntime y.vruntime ≡ true) ys
      all_later e x [] p n = tt
      all_later e x (y ∷ ys) p n = (later_too e x y p n.0, all_later e x ys p n.1)

  step-Sorted : (o : Op V) (q : Queue V) → Sorted q.entities → Sorted (step o q).entities
  unfolding step enqueue pick take account
  step-Sorted (enqueues elsewhere e task priority weight) q s =
      let more = Sorted-insert (rehang e task priority weight q) q.entities s in ground arith
  step-Sorted picks q s = ground arith
  step-Sorted takes q s = ground arith
  step-Sorted (accounts id elapsed waiting) q s = ground arith

  run-Sorted : (os : List (Op V)) (q : Queue V) → Sorted q.entities → Sorted (run os q).entities
  unfolding run
  run-Sorted [] q s = s
  run-Sorted (o ∷ os) q s = run-Sorted os (step o q) (step-Sorted o q s)

  -- What `Pick` may give: an entity only if none runs, which then runs, and none left is earlier; nothing
  -- only if one runs or none is ready.
  abbrev pub Fair : Queue V → Queue V × Option (Entity V) → Type 0
  Fair q (r, some e) =
      (q.running ≡ none)
      × (q.entities ≡ e ∷ r.entities)
      × (r.running ≡ some e)
      × NoneEarlier e r.entities
  Fair q (r, none) = (r ≡ q) × ((q.running ≢ none) ⊎ (q.entities ≡ []))

  pick-Sorted : (q : Queue V) → Sorted q.entities → Fair q (pick q)
  unfolding pick
  pick-Sorted q s = ground arith

  -- After any calls on a fresh queue, `Pick` gives an entity only if none runs, and then one than which none
  -- that stays ready is earlier; it gives nothing only if one runs already or none is ready.
  pub run-Fair : (os : List (Op V)) → Fair (run os empty_queue) (pick (run os empty_queue))
  run-Fair os = pick-Sorted (run os empty_queue) (run-Sorted os empty_queue tt)
