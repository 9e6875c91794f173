-- ===== src/PollEvent/Machine.antt =====
-- bbt/coroutine/detail/CoPollEvent.cc: one event's state word, and the calls that race on it. Every
-- step below is one atomic access: a load, a compare-and-exchange, a store, or one critical section.
pub mod Once
use bbtools_coroutine.Base.{
  ℕ, zero, suc, ◌+◌, Bool, true, false, not, ◌&&◌, ◌||◌, Option, none, some, List, [], ◌∷◌, ◌++◌,
  ltb, leb, ◌==◌, if◌then◌else◌,
}
use bbtools_coroutine.PollEvent.State.{
  Phase, inited, arming, armed, parked, pending, triggering, final, cancelled, State, event_closed,
}

-- `event` tells whether `m_event` is set, `handed_over` how often it was given to
-- `DeferDestroyEvent`. `won` and `called` are the history: the masks of the triggers that won, and
-- those that the callback was given.
pub record Event : Type 0 where
  pub word : State
  pub event : Bool
  pub has_custom : Bool
  pub tracked : Bool
  pub handed_over : ℕ
  pub won : List ℕ
  pub called : List ℕ

abbrev pub fresh : Event
fresh = record {
  word = record { phase = inited; flags = 0 };
  event = false;
  has_custom = false;
  tracked = false;
  handed_over = 0;
  won = [];
  called = [];
}

-- Who runs `Trigger` or `_Complete`; it decides what is returned afterwards.
pub data Caller : Type 0 where
  by_trigger by_regist by_init by_park : Caller

-- Where a call stands. What it has read of the state word is beside it.
pub data Call : Type 0 where
  trigger : Caller → ℕ → Call
  trigger_saw : Caller → ℕ → State → Call
  detaches publishes calls : Caller → ℕ → Call
  regist : Call
  regist_arms regist_listens regist_fails regist_listened regist_tracks : Call
  regist_failed : State → Call
  regist_cleans : Bool → Call
  commit_park : Call
  park_saw : State → Call
  unregist : Call
  unregist_saw : State → Call
  unregist_cleans : Call
  init_fd : Bool → Call
  init_samples : Call
  init_creates : ℕ → Call
  init_custom : Call
  returned : Bool → Call

pub data Listen : Type 0 where
  listens refuses raises : Listen

-- What the surroundings answer: whether a weak exchange fails for no reason, what `StartListen`
-- does, whether `_TrackWaiter` accepts, whether the descriptor is closing, and what `CreateEvent`
-- gives (an event, a null pointer, an exception).
pub record Answer : Type 0 where
  pub spurious : Bool
  pub listen : Listen
  pub accepts : Bool
  pub closing : Bool
  pub create : Option Bool

abbrev pub word_at : Phase → ℕ → State
word_at p f = record { phase = p; flags = f }

-- `PackCoPollEventState(phase)`: no flags.
abbrev pub bare : Phase → State
bare p = word_at p 0

abbrev pub code : Phase → ℕ
code inited = 0
code arming = 1
code armed = 2
code parked = 3
code pending = 4
code triggering = 5
code final = 6
code cancelled = 7

abbrev pub same_word : State → State → Bool
same_word a b = code a.phase == code b.phase && a.flags == b.flags

abbrev pub store : State → Event → Event
store s e = record e { word = s }

-- `_CannelAllFdEvent`: the waiter leaves the table, the Event goes to the poller.
unfoldable pub cancel_all : Event → Event
cancel_all e =
    if e.event
    then record e { tracked = false; event = false; handed_over = suc e.handed_over }
    else record e { tracked = false }

abbrev pub win : ℕ → Event → Event
win f e = record e { won = e.won ++ f ∷ [] }

-- What a failed Trigger means for the caller: only a plain one reports it.
abbrev pub lost : Caller → Bool
lost by_trigger = false
lost _ = true

-- A weak exchange of the word that was read for another; a failure reads the word again.
abbrev exchange : Answer → State → Event → Call × Event → Call → Call × Event
exchange a s e done again = if not a.spurious && same_word e.word s then done else (again, e)

-- One round of `Trigger`'s loop, at its head with the word it read.
unfoldable pub trigger_round : Answer → Caller → ℕ → State → Event → Call × Event
trigger_round a c f s e =
    let latches =
      exchange a s e (returned true, win f (store (word_at pending f) e))
        (trigger_saw c f e.word) in
    let runs =
      exchange a s e (detaches c f, win f (store (word_at triggering f) e))
        (trigger_saw c f e.word) in
    elim s.phase [
      | inited ↦ latches
      | arming ↦ latches
      | armed ↦ latches
      | parked ↦ runs
      | _ ↦ (returned (lost c), e)
    ]

unfoldable pub park_round : Answer → State → Event → Call × Event
park_round a s e =
    let parks = exchange a s e (returned false, store (bare parked) e) (park_saw e.word) in
    let runs =
      exchange a s e (detaches by_park s.flags, store (word_at triggering s.flags) e)
        (park_saw e.word) in
    elim s.phase [ armed ↦ parks | pending ↦ runs | _ ↦ (returned false, e) ]

unfoldable pub unregist_round : Answer → State → Event → Call × Event
unregist_round a s e =
    let cleans = exchange a s e (unregist_cleans, store (bare cancelled) e) (unregist_saw e.word) in
    let leaves = exchange a s e (returned true, store (bare cancelled) e) (unregist_saw e.word) in
    elim s.phase [
      | inited ↦ cleans
      | arming ↦ leaves
      | armed ↦ cleans
      | parked ↦ cleans
      | _ ↦ (returned false, e)
    ]

-- The exchange of INITED for ARMING, of ARMING for ARMED, and the loop that leaves ARMING for
-- CANCELLED when the listening has not begun. A trigger that came first counts as success.
abbrev pub was_pending : State → Bool
was_pending s = elim s.phase [ pending ↦ true | _ ↦ false ]

unfoldable pub regist_arm : Event → Call × Event
regist_arm e =
    if same_word e.word (bare inited)
    then (regist_listens, store (bare arming) e)
    else (returned (was_pending e.word), e)

unfoldable pub regist_listen : Answer → Event → Call × Event
regist_listen a e =
    if e.event
    then (
      elim a.listen [ listens ↦ regist_listened | refuses ↦ regist_fails | raises ↦ regist_fails ],
      e,
    )
    else (regist_listened, e)

pub failed_round : Answer → State → Event → Call × Event
failed_round a s e =
    let leaves =
      exchange a s e (regist_cleans false, store (bare cancelled) e) (regist_failed e.word) in
    elim s.phase [ arming ↦ leaves | _ ↦ (regist_cleans (was_pending s), e) ]

unfoldable pub regist_armed : Event → Call × Event
regist_armed e =
    if same_word e.word (bare arming)
    then (regist_tracks, store (bare armed) e)
    else (regist_cleans (was_pending e.word), e)

unfoldable pub regist_track : Answer → Event → Call × Event
regist_track a e =
    if a.accepts
    then (returned true, record e { tracked = true })
    else (trigger by_regist event_closed, e)

abbrev pub is_inited : State → Bool
is_inited s = elim s.phase [ inited ↦ true | _ ↦ false ]

-- `InitFdEvent`; the limit was found not negative or not.
pub init_begin : Bool → Event → Call × Event
init_begin valid e =
    (if is_inited e.word && (valid && not e.event) then init_samples else returned false, e)

pub init_sample : Answer → Event → Call × Event
init_sample a e = (if a.closing then trigger by_init event_closed else init_creates 0, e)

-- Four attempts.
pub init_create : Answer → ℕ → Event → Call × Event
init_create a attempt e = elim a.create [
  | some made ↦ (returned made, record e { event = made })
  | none ↦ (if leb 3 attempt then returned false else init_creates (suc attempt), e)
]

-- `InitCustomEvent`
pub init_custom_event : Event → Call × Event
init_custom_event e =
    if is_inited e.word && not e.has_custom
    then (returned true, record e { has_custom = true })
    else (returned false, e)

-- A mask of no bits is refused. `_Complete` is three steps: the table and the poller are left,
-- FINAL is published, the callback runs.
unfoldable pub step : Answer → Call → Event → Call × Event
step a (trigger c f) e = (if f == 0 then returned (lost c) else trigger_saw c f e.word, e)
step a (trigger_saw c f s) e = trigger_round a c f s e
step a (detaches c f) e = (publishes c f, cancel_all e)
step a (publishes c f) e = (calls c f, store (word_at final f) e)
step a (calls c f) e = (returned true, record e { called = e.called ++ f ∷ [] })
step a regist e = (if was_pending e.word then returned true else regist_arms, e)
step a regist_arms e = regist_arm e
step a regist_listens e = regist_listen a e
step a regist_fails e = (regist_failed e.word, e)
step a (regist_failed s) e = failed_round a s e
step a (regist_cleans r) e = (returned r, cancel_all e)
step a regist_listened e = regist_armed e
step a regist_tracks e = regist_track a e
step a commit_park e = (park_saw e.word, e)
step a (park_saw s) e = park_round a s e
step a unregist e = (unregist_saw e.word, e)
step a (unregist_saw s) e = unregist_round a s e
step a unregist_cleans e = (returned true, cancel_all e)
step a (init_fd valid) e = init_begin valid e
step a init_samples e = init_sample a e
step a (init_creates n) e = init_create a n e
step a init_custom e = init_custom_event e
step a (returned r) e = (returned r, e)

unfoldable pub step_at : ℕ → Answer → List Call → Event → List Call × Event
step_at i a [] e = ([], e)
step_at zero a (c ∷ cs) e = let (c', e') = step a c e in (c' ∷ cs, e')
step_at (suc i) a (c ∷ cs) e = let (cs', e') = step_at i a cs e in (c ∷ cs', e')

-- The calls that are going on, in any interleaving.
unfoldable pub run : List (ℕ × Answer) → List Call → Event → List Call × Event
run [] cs e = (cs, e)
run ((i, a) ∷ more) cs e = let (cs', e') = step_at i a cs e in run more cs' e'
