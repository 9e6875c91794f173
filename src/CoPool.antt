-- ===== src/CoPool.antt =====
-- bbt/coroutine/pool/CoPool.cc: a fixed number of coroutines that run submitted work, its submission, its failures
-- and its release, in any interleaving of the atomic steps. The queue is a library's: it gives any of its elements.
-- A work is named by its id.
pub mod Safety
mod Tests
use bbtools_coroutine.Base.Bags.{take_at}
use bbtools_coroutine.Base.{
  ℕ, zero, suc, ◌+◌, ◌-◌, ◌==◌, Bool, true, false, Option, none, some, List, [], ◌∷◌, ◌++◌,
  if◌then◌else◌,
}

-- The history: `submitted`, `refused`, `executed` and `discarded` works.
pub record CoPool : Type 0 where
  pub is_running : Bool
  pub works_queue : List ℕ
  pub running_co_num : ℕ
  pub latch : ℕ
  pub unhandled_exception_count : ℕ
  pub submitted : List ℕ
  pub refused : List ℕ
  pub executed : List ℕ
  pub discarded : List ℕ

-- The constructor: the latch has one place for each worker and one for the monitor.
abbrev pub create : ℕ → CoPool
create max = record {
  is_running = true;
  works_queue = [];
  running_co_num = 0;
  latch = max + 1;
  unhandled_exception_count = 0;
  submitted = [];
  refused = [];
  executed = [];
  discarded = [];
}

-- How a work ends: it returns, or throws, with a promise or not; and what the pool's callback does with that, if
-- there is one: it returns or throws.
pub data Ending : Type 0 where
  finishes : Ending
  throws : Bool → Option Bool → Ending

-- `_HandleWorkException`
unfoldable pub handle_exception : Ending → CoPool → CoPool
handle_exception finishes p = p
handle_exception (throws true callback) p = p
handle_exception (throws false (some false)) p = p
handle_exception (throws false _) p = record p {
  unhandled_exception_count = p.unhandled_exception_count + 1;
}

-- Where a coroutine or a thread stands. The monitor goes through the stages of a worker, but takes no work. A client
-- submits, or releases the pool: it waits for the count and then for the latch, and drains the queue; the
-- destructor drains it once before.
pub data Stage : Type 0 where
  starts loops takes waits leaves downs ended : Bool → Stage
  runs runs_on : ℕ → Stage
  idle : Stage
  submits : ℕ → Stage
  predrains releases polls awaits_latch drains released : Stage

pub data Move : Type 0 where
  submit : ℕ → Move
  release destroy : Move
  goes_on : ℕ → Bool → Ending → Move

-- An element out of the queue, if there is one.
unfoldable pub take_work : Option (ℕ × List ℕ) → CoPool → Stage × CoPool
take_work none p = (waits false, p)
take_work (some (x, rest)) p = (runs x, record p { works_queue = rest })

unfoldable pub drain_work : Stage → Stage → Option (ℕ × List ℕ) → CoPool → Stage × CoPool
drain_work again after none p = (after, p)
drain_work again after (some (x, rest)) p =
    (again, record p { works_queue = rest; discarded = x ∷ p.discarded })

-- `Submit` and its three variants, from the look at the flag; `agrees` says whether the queue takes the work.
unfoldable pub enqueue_work : Bool → ℕ → CoPool → CoPool
enqueue_work agrees x p =
    if agrees
    then record p { works_queue = p.works_queue ++ x ∷ [] }
    else record p { refused = x ∷ p.refused }

unfoldable pub go_on : ℕ → Bool → Ending → Stage → CoPool → Stage × CoPool
go_on n agrees e (starts mon) p = (loops mon, record p { running_co_num = p.running_co_num + 1 })
go_on n agrees e (loops mon) p =
    (if p.is_running then (if mon then waits true else takes false) else leaves mon, p)
go_on n agrees e (takes mon) p =
    if agrees then take_work (take_at n p.works_queue) p else (waits mon, p)
go_on n agrees e (waits mon) p = (loops mon, p)
go_on n agrees e (runs x) p = (runs_on x, record p { executed = x ∷ p.executed })
go_on n agrees e (runs_on x) p = (loops false, handle_exception e p)
go_on n agrees e (leaves mon) p = (downs mon, record p { running_co_num = p.running_co_num - 1 })
go_on n agrees e (downs mon) p = (ended mon, record p { latch = p.latch - 1 })
go_on n agrees e (submits x) p = (idle, enqueue_work agrees x p)
go_on n agrees e predrains p = drain_work predrains releases (take_at n p.works_queue) p
go_on n agrees e releases p = (polls, record p { is_running = false })
go_on n agrees e polls p = (if p.running_co_num == 0 then awaits_latch else polls, p)
go_on n agrees e awaits_latch p = (if p.latch == 0 then drains else awaits_latch, p)
go_on n agrees e drains p = drain_work drains released (take_at n p.works_queue) p
go_on n agrees e s p = (s, p)

-- A call that begins; an allocation that fails refuses the work as a stopped pool does.
unfoldable pub start_submit : ℕ → CoPool → Stage × CoPool
start_submit x p =
    let q : CoPool = record p { submitted = x ∷ p.submitted } in
    if p.is_running then (submits x, q) else (idle, record q { refused = x ∷ p.refused })

unfoldable pub step : Move → Stage → CoPool → Stage × CoPool
step (submit x) idle p = start_submit x p
step release idle p = (releases, p)
step destroy idle p = (predrains, p)
step (goes_on n agrees e) s p = go_on n agrees e s p
step m s p = (s, p)

unfoldable pub step_at : ℕ → Move → List Stage → CoPool → List Stage × CoPool
step_at i m [] p = ([], p)
step_at zero m (s ∷ ss) p = let (s', p') = step m s p in (s' ∷ ss, p')
step_at (suc i) m (s ∷ ss) p = let (ss', p') = step_at i m ss p in (s ∷ ss', p')

unfoldable pub run : List (ℕ × Move) → List Stage → CoPool → List Stage × CoPool
run [] ss p = (ss, p)
run ((i, m) ∷ ms) ss p = let (ss', p') = step_at i m ss p in run ms ss' p'

-- `_Start`: the workers, the monitor, and before them any clients.
abbrev pub workers : ℕ → List Stage
workers zero = starts true ∷ []
workers (suc n) = starts false ∷ workers n

abbrev pub with_clients : ℕ → List Stage → List Stage
with_clients zero ss = ss
with_clients (suc k) ss = idle ∷ with_clients k ss
