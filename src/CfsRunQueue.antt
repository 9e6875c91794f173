-- ===== src/CfsRunQueue.antt =====
-- bbt/coroutine/detail/CfsRunQueue.hpp: the run queue ordered by virtual run time. The times are doubles
-- in the source; here they are any type with the operations used and an order in which `<` is asymmetric
-- and `≥` transitive, as that of doubles is without NaN. An entity is named by its id.
pub mod Laws
mod Tests
use Prim.Native.Nat.{min, max}
use bbtools_coroutine.Base.{
  ℕ, ◌+◌, ◌-◌, ◌≡◌, Bool, true, false, ◌||◌, Option, none, some, List, [], ◌∷◌, ◌==◌, if◌then◌else◌,
}
use bbtools_coroutine.Base.Size.{word}

-- `share charge weight` is `static_cast<double>(charge) / weight`.
pub record Time (V : Type 0) : Type 0 where
  pub zero_time : V
  pub lt : V → V → Bool
  pub plus : V → V → V
  pub minus : V → V → V
  pub share : ℕ → ℕ → V
  pub lt_asym : (a b : V) → lt a b ≡ true → lt b a ≡ false
  pub ge_trans : (a b c : V) → lt a b ≡ false → lt b c ≡ false → lt a c ≡ false

pub record Entity (V : Type 0) : Type 0 where
  pub id : ℕ
  pub task : ℕ
  pub service_us : ℕ
  pub vruntime : V
  pub weight : ℕ
  pub priority : ℕ
  pub waiting : Bool

pub record Queue (V : Type 0) : Type 0 where
  pub entities : List (Entity V)
  pub running : Option (Entity V)
  pub floor : V

-- The calls on one queue, in any order.
pub data Op (V : Type 0) : Type 0 where
  enqueues : Bool → Entity V → ℕ → ℕ → ℕ → Op V
  picks takes : Op V
  accounts : ℕ → ℕ → Bool → Op V

module _ {V : Type 0} ⦃t : Time V⦄ where
  open t use {zero_time, lt, plus, minus, share}

  -- `std::max` and `std::min` keep their first argument on a tie.
  abbrev pub later : V → V → V
  later a b = if lt a b then b else a

  abbrev pub earlier : V → V → V
  earlier a b = if lt b a then b else a

  abbrev pub empty_queue : Queue V
  empty_queue = record { entities = []; running = none; floor = zero_time }

  -- Before the upper bound: behind every entity that is not later.
  pub insert : Entity V → List (Entity V) → List (Entity V)
  insert e [] = e ∷ []
  insert e (x ∷ xs) = if lt e.vruntime x.vruntime then e ∷ x ∷ xs else x ∷ insert e xs

  pub linked : ℕ → List (Entity V) → Bool
  linked i [] = false
  linked i (x ∷ xs) = x.id == i || linked i xs

  abbrev pub runs : ℕ → Option (Entity V) → Bool
  runs i none = false
  runs i (some x) = x.id == i

  -- What `Enqueue` writes into the entity: its debt, hung on the floor. Waiting earns no credit.
  pub rehang : Entity V → ℕ → ℕ → ℕ → Queue V → Entity V
  rehang e task priority weight q =
      let debt = if e.waiting then later zero_time e.vruntime else e.vruntime in
      record e {
        vruntime = plus q.floor debt;
        task = task;
        priority = priority;
        weight = max 1 weight;
        waiting = false;
      }

  -- `Enqueue`; `elsewhere` tells whether the entity is linked into another queue.
  pub enqueue : Bool → Entity V → ℕ → ℕ → ℕ → Queue V → Queue V × Bool
  enqueue elsewhere e task priority weight q =
      if elsewhere || (linked e.id q.entities || runs e.id q.running)
      then (q, false)
      else (record q { entities = insert (rehang e task priority weight q) q.entities }, true)

  pub pick : Queue V → Queue V × Option (Entity V)
  pick q = elim q.running [
    | some r ↦ (q, none)
    | none ↦ (elim q.entities [
      | [] ↦ (q, none)
      | e ∷ rest ↦ (record q { entities = rest; running = some e }, some e)
    ])
  ]

  abbrev pub progress : V → List (Entity V) → V
  progress v [] = v
  progress v (x ∷ xs) = earlier v x.vruntime

  -- `Account`, and the entity it hands back; `none` is `std::terminate`.
  pub account : ℕ → ℕ → Bool → Queue V → Option (Queue V × Entity V)
  account id elapsed waiting q = elim q.running [
    | none ↦ none
    | some e ↦
        let charge = max 1 elapsed in
        let v = plus e.vruntime (share charge e.weight) in
        let floor = later q.floor (progress v q.entities) in
        if e.id == id
        then some (
          record q { floor = floor; running = none },
          record e {
            service_us = e.service_us + min charge (word - 1 - e.service_us);
            vruntime = minus v floor;
            waiting = waiting;
          },
        )
        else none
  ]

  pub take : Queue V → Queue V × Option (Entity V)
  take q = elim q.entities [
    | [] ↦ (q, none)
    | e ∷ rest ↦
        (record q { entities = rest }, some (record e { vruntime = minus e.vruntime q.floor }))
  ]

  abbrev pub kept : Queue V → Option (Queue V × Entity V) → Queue V
  kept q none = q
  kept q (some (r, e)) = r

  pub step : Op V → Queue V → Queue V
  step (enqueues elsewhere e task priority weight) q =
      (enqueue elsewhere e task priority weight q).0
  step picks q = (pick q).0
  step takes q = (take q).0
  step (accounts id elapsed waiting) q = kept q (account id elapsed waiting q)

  pub run : List (Op V) → Queue V → Queue V
  run [] q = q
  run (o ∷ os) q = run os (step o q)
