-- ===== src/Event.antt =====
-- bbt/pollevent/Event.cc: an event of the poller, whose rounds make late completions void. An operation that was given
-- to asio stays in `pending` until its handler begins or it is aborted; which, and when, is for the moves to say.
pub mod Safety
mod Tests
use bbtools_coroutine.Base.{
  ℕ, zero, suc, ◌+◌, ◌%◌, ◌==◌, ltb, Bool, true, false, not, ◌&&◌, ◌||◌, Option, none, some, List,
  [], ◌∷◌, ◌++◌, if◌then◌else◌,
}

-- What an operation waits for, or the flags of a Trigger.
pub data Kind : Type 0 where
  reads writes times : Kind
  triggers : ℕ → Kind

-- A pending operation: the round in which it was registered, and the descriptor that its callback will be told.
pub record Op : Type 0 where
  pub kind : Kind
  pub round : ℕ
  pub fd : Option ℕ

-- Where a handler stands outside the mutex: before the callback, before it registers again; a CancelListen that still
-- has to close a descriptor and to take the callback.
pub data Handler : Type 0 where
  delivers rewaits : Op → Handler
  closes : Option ℕ → Handler

-- What does not change: m_listen_events.
pub record Interest : Type 0 where
  pub read : Bool
  pub write : Bool
  pub close : Bool
  pub timeout : Bool
  pub persist : Bool

-- `owned`: a shared_ptr owns the event; `has_descriptor`, `has_timer`: m_sd and m_timer are there; `has_entry`: the
-- registry has its callback. The history: the callbacks made and the user's descriptors closed, newest first.
pub record Event : Type 0 where
  pub owned : Bool
  pub round : ℕ
  pub deadline : Option ℕ
  pub fd : Option ℕ
  pub has_descriptor : Bool
  pub has_timer : Bool
  pub has_entry : Bool
  pub pending : List Op
  pub running : List Handler
  pub called : List Op
  pub closed : List ℕ

abbrev pub is_some : Option ℕ → Bool
is_some none = false
is_some (some _) = true

-- The constructor, whose resources came.
abbrev pub create : Interest → Option ℕ → Event
create i fd = record {
  owned = true;
  round = 0;
  deadline = none;
  fd = fd;
  has_descriptor = is_some fd && (i.read || i.write || i.close);
  has_timer = i.timeout;
  has_entry = true;
  pending = [];
  running = [];
  called = [];
  closed = [];
}

abbrev pub operation : Kind → Option ℕ → Event → Op
operation k fd e = record { kind = k; round = e.round; fd = fd }

-- `DoAsyncWaitLocked` and `ArmTimerLocked`
abbrev pub do_async_wait : Kind → Event → Event
do_async_wait k e =
    if e.has_descriptor then record e { pending = operation k e.fd e ∷ e.pending } else e

abbrev pub arm_timer : Event → Event
arm_timer e = record e { has_timer = true; pending = operation times none e ∷ e.pending }

abbrev pub when : Bool → (Event → Event) → Event → Event
when b f e = if b then f e else e

-- The timer of a StartListen: the event's own, or one made for an event without a descriptor.
abbrev pub start_timer : Bool → Event → Event
start_timer limited e = when (limited && (e.has_timer || not (is_some e.fd))) arm_timer e

abbrev pub new_round : Event → Event
new_round e = record e { round = (e.round + 1) % 18446744073709551616 }

-- `StartListen` at the time `now`. What it cancels stays pending until asio aborts it, or its handler, already queued,
-- begins.
unfoldable pub start_listen : Interest → ℕ → ℕ → Event → Event
start_listen i now timeout e =
    if not e.owned
    then e
    else start_timer (ltb 0 timeout) (
        when i.write (do_async_wait writes) (
          when i.read (do_async_wait reads) (record (new_round e) {
            deadline = if ltb 0 timeout then some (now + timeout + 1) else none;
          })))

-- `CancelListen` under the mutex.
unfoldable pub cancel_listen : Bool → Event → Event
cancel_listen need_close_fd e = record (new_round e) {
  deadline = none;
  fd = if need_close_fd then none else e.fd;
  has_descriptor = false;
  has_timer = false;
  running = closes (if need_close_fd then e.fd else none) ∷ e.running;
}

-- `Trigger`
unfoldable pub trigger : ℕ → Event → Event
trigger flag e =
    if not e.owned then e else record e { pending = operation (triggers flag) e.fd e ∷ e.pending }

-- The handlers look at the round, `OnFdWaitCompleted` and `OnTimerFired` at their object as well.
abbrev pub still_there : Kind → Event → Bool
still_there reads e = e.has_descriptor
still_there writes e = e.has_descriptor
still_there times e = e.has_timer
still_there (triggers flag) e = true

unfoldable pub complete : Op → Event → Event
complete o e =
    if o.round == e.round && still_there o.kind e
    then record e { running = delivers o ∷ e.running }
    else e

abbrev pub waits_again : Interest → Kind → Bool
waits_again i reads = i.persist
waits_again i writes = i.persist
waits_again i _ = false

-- `CallEventCallback`, and what follows it.
unfoldable pub call_event_callback : Interest → Op → Event → Event
call_event_callback i o e = record e {
  called = if e.has_entry then o ∷ e.called else e.called;
  running = if waits_again i o.kind then rewaits o ∷ e.running else e.running;
}

unfoldable pub wait_again : Op → Event → Event
wait_again o e = if o.round == e.round then do_async_wait o.kind e else e

-- The end of a CancelListen: close, and `TakeEventCallback`.
abbrev pub close_fd : Option ℕ → List ℕ → List ℕ
close_fd none fds = fds
close_fd (some fd) fds = fd ∷ fds

unfoldable pub go_on : Interest → Handler → Event → Event
go_on i (delivers o) e = call_event_callback i o e
go_on i (rewaits o) e = wait_again o e
go_on i (closes fd) e = record e { has_entry = false; closed = close_fd fd e.closed }

-- The element at an index, and the others.
unfoldable pub put_back : {A : Type 0} → A → Option (A × List A) → Option (A × List A)
put_back x none = none
put_back x (some (y, ys)) = some (y, x ∷ ys)

unfoldable pub take_at : {A : Type 0} → ℕ → List A → Option (A × List A)
take_at i [] = none
take_at zero (x ∷ xs) = some (x, xs)
take_at (suc i) (x ∷ xs) = put_back x (take_at i xs)

pub data Move : Type 0 where
  starts : ℕ → ℕ → Move
  cancels : Bool → Move
  triggered completes aborts proceeds : ℕ → Move

unfoldable pub completed : Option (Op × List Op) → Event → Event
completed none e = e
completed (some (o, os)) e = complete o (record e { pending = os })

unfoldable pub aborted : Option (Op × List Op) → Event → Event
aborted none e = e
aborted (some (o, os)) e = record e { pending = os }

unfoldable pub proceeded : Interest → Option (Handler × List Handler) → Event → Event
proceeded i none e = e
proceeded i (some (h, hs)) e = go_on i h (record e { running = hs })

unfoldable pub step : Interest → Move → Event → Event
step i (starts now timeout) e = start_listen i now timeout e
step i (cancels need_close_fd) e = cancel_listen need_close_fd e
step i (triggered flag) e = trigger flag e
step i (completes n) e = completed (take_at n e.pending) e
step i (aborts n) e = aborted (take_at n e.pending) e
step i (proceeds n) e = proceeded i (take_at n e.running) e

unfoldable pub run : Interest → List Move → Event → Event
run i [] e = e
run i (m ∷ ms) e = run i ms (step i m e)
