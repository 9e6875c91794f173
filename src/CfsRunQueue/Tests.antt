-- ===== src/CfsRunQueue/Tests.antt =====
-- The theorems about the run queue, with natural numbers for times.
use bbtools_coroutine.Base.{ℕ, ◌+◌, ◌-◌, ◌/◌, ◌≡◌, true, false, List, [], ◌∷◌, ltb, arith}
use bbtools_coroutine.CfsRunQueue.{
  Time, Entity, empty_queue, pick, Op, enqueues, picks, takes, accounts, run,
}
use bbtools_coroutine.CfsRunQueue.Laws.{Fair, run-Fair}

ltb_asym : (a b : ℕ) → ltb a b ≡ true → ltb b a ≡ false
ltb_asym a b h = ground arith

ltb_trans : (a b c : ℕ) → ltb a b ≡ false → ltb b c ≡ false → ltb a c ≡ false
ltb_trans a b c h k = ground arith

instance abbrev natural_time : Time ℕ
natural_time = record {
  zero_time = 0;
  lt = ltb;
  plus = λ a b. a + b;
  minus = λ a b. a - b;
  share = λ a b. a / b;
  lt_asym = ltb_asym;
  ge_trans = ltb_trans;
}

abbrev entity : ℕ → ℕ → Entity ℕ
entity id vruntime = record {
  id = id;
  task = id;
  service_us = 0;
  vruntime = vruntime;
  weight = 1;
  priority = 0;
  waiting = false;
}

-- Three coroutines become ready, one runs for a while, and another is taken away.
abbrev calls : List (Op ℕ)
calls =
    enqueues false (entity 1 4) 1 0 1
    ∷ enqueues false (entity 2 2) 2 0 1
    ∷ enqueues false (entity 3 4) 3 0 1
    ∷ picks
    ∷ accounts 2 7 false
    ∷ takes
    ∷ []

run-Fair_example : Fair (run calls empty_queue) (pick (run calls empty_queue))
run-Fair_example = run-Fair calls

abbrev ready : List (Entity ℕ)
ready = entity 1 4 ∷ entity 2 6 ∷ []
