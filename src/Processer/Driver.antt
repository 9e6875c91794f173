-- ===== src/Processer/Driver.antt =====
-- bbt/coroutine/detail/Processer.cc: the driver that is bound to a processer, its callbacks and its detachment,
-- by several threads in any interleaving of the critical sections. A binding is named by its generation.
pub mod Safety
use bbtools_coroutine.Base.{
  ℕ, zero, suc, ◌+◌, ◌-◌, ◌^◌, ◌==◌, Bool, true, false, not, ◌&&◌, ◌||◌, Option, none, some, List,
  [], ◌∷◌, if◌then◌else◌,
}

pub data DriverState : Type 0 where
  bound failed detaching : DriverState

pub data Failure : Type 0 where
  no_failure tick wait : Failure

-- `wakes` is the history: how often the last Wake has been called.
pub record Binding : Type 0 where
  pub state : DriverState
  pub failure : Failure
  pub inflight : ℕ
  pub terminal_wake_reserved : Bool
  pub detached : Bool
  pub wakes : ℕ

abbrev pub new_binding : Binding
new_binding = record {
  state = bound;
  failure = no_failure;
  inflight = 0;
  terminal_wake_reserved = false;
  detached = false;
  wakes = 0;
}

-- The slot of one processer, and the bindings that it ever made, by their generations.
pub record Slot : Type 0 where
  pub is_active : Bool
  pub driver_binding : Option ℕ
  pub next_generation : ℕ
  pub bindings : ℕ → Binding

-- `ProcesserDriverStatus`
pub data Status : Type 0 where
  ok invalid_target occupied invalid_driver stale_token self_detach : Status

-- What is on a thread's stack: a callback with its lease, the last Wake, a section that defers wakes.
pub data Frame : Type 0 where
  callback terminal : ℕ → Frame
  section : Frame

-- Where the innermost call of a thread stands. A callback has been looked up, or has returned. An
-- Unregister has passed its checks, waits for the leader, has reserved the last Wake, waits for the leases,
-- clears the slot, publishes that.
pub data Stage : Type 0 where
  idle : Status → Stage
  unregistered : ℕ → Stage
  ends : Stage
  looks elects joins adopts waits clears detaches : ℕ → Stage

pub data Move : Type 0 where
  binds calls defers undefers : Move
  unregisters : ℕ → Move
  returns : Option Failure → Move
  goes_on : Move

abbrev pub set : ℕ → Binding → Slot → Slot
set g b p = record p { bindings = λ k. if g == k then b else p.bindings k }

abbrev pub is_bound : DriverState → Bool
is_bound bound = true
is_bound _ = false

abbrev pub is_detaching : DriverState → Bool
is_detaching detaching = true
is_detaching _ = false

abbrev pub is_failed : DriverState → Bool
is_failed failed = true
is_failed _ = false

-- Whether a lease is granted.
unfoldable pub granted : Bool → Binding → Bool
granted at_end b =
    not b.detached
    && (is_bound b.state || at_end && is_detaching b.state || at_end && is_failed b.state)

-- The constructor of `DriverCallbackLease`, and its destructor.
unfoldable pub lease : ℕ → List Frame → Slot → List Frame × Stage × Slot
lease g fs p =
    let b = p.bindings g in
    if granted false b
    then (callback g ∷ fs, idle ok, set g (record b { inflight = b.inflight + 1 }) p)
    else (fs, idle ok, p)

abbrev pub unlease : ℕ → Slot → Slot
unlease g p = let b = p.bindings g in set g (record b { inflight = b.inflight - 1 }) p

abbrev pub holds : ℕ → List Frame → Bool
holds g [] = false
holds g (callback k ∷ fs) = k == g || holds g fs
holds g (terminal k ∷ fs) = k == g || holds g fs
holds g (section ∷ fs) = holds g fs

abbrev pub is_deferring : List Frame → Bool
is_deferring [] = false
is_deferring (section ∷ fs) = true
is_deferring (_ ∷ fs) = is_deferring fs

-- `_DriverFail`
unfoldable pub record_failure : Failure → Binding → Failure
record_failure f b = elim b.failure [ no_failure ↦ f | _ ↦ b.failure ]

unfoldable pub driver_fail_at : DriverState → Failure → Binding → Binding
driver_fail_at detaching f b = record b { failure = record_failure f b }
driver_fail_at failed f b = b
driver_fail_at bound f b = record b { state = failed; failure = f }

unfoldable pub driver_fail : ℕ → Failure → Slot → Slot
driver_fail g f p = let b = p.bindings g in set g (driver_fail_at b.state f b) p

-- `_BindDriver`, with the `uint64_t` of the generations; `bind_slot` is what follows its look at the state.
unfoldable pub bind_slot : Option ℕ → Slot → Status × Slot
bind_slot (some k) p = (occupied, p)
bind_slot none p =
    let g = p.next_generation + 1 in
    if p.next_generation == 2 ^ 64 - 1
    then (invalid_driver, p)
    else (ok, set g new_binding (record p { driver_binding = some g; next_generation = g }))

unfoldable pub bind_driver : Slot → Status × Slot
bind_driver p = if not p.is_active then (invalid_target, p) else bind_slot p.driver_binding p

abbrev pub is_slot : ℕ → Option ℕ → Bool
is_slot g none = false
is_slot g (some k) = k == g

-- `_UnregisterDriver` up to the election of its leader.
unfoldable pub unregister_checks : ℕ → List Frame → Slot → Stage
unregister_checks g fs p =
    if not (is_slot g p.driver_binding)
    then idle stale_token
    else if is_deferring fs || holds g fs
    then idle self_detach
    else elects g

unfoldable pub elect : ℕ → Slot → Stage × Slot
elect g p =
    let b = p.bindings g in
    if not b.terminal_wake_reserved
    then (
      adopts g,
      set g
          (record b { state = detaching; terminal_wake_reserved = true; inflight = b.inflight + 1 })
          p,
    )
    else (joins g, p)

unfoldable pub clear_slot : ℕ → Slot → Slot
clear_slot g p = if is_slot g p.driver_binding then record p { driver_binding = none } else p

-- `_WakeDriver` and `_DriverOnTick` up to the lease; a section defers a Wake, and runs no tick.
unfoldable pub call_driver : List Frame → Slot → Stage
call_driver fs p =
    if is_deferring fs then idle ok else elim p.driver_binding [ none ↦ idle ok | some g ↦ looks g ]

-- What a thread begins, or the return of its innermost callback, with its failure if it has one.
unfoldable pub start : Move → List Frame → Stage → Slot → List Frame × Stage × Slot
start binds fs s p = let (r, d) = bind_driver p in (fs, idle r, d)
start calls fs s p = (fs, call_driver fs p, p)
start defers fs s p = (section ∷ fs, idle ok, p)
start undefers (section ∷ fs) s p = (fs, idle ok, p)
start (unregisters g) fs s p = (fs, unregister_checks g fs p, p)
start (returns none) (callback g ∷ fs) s p = (fs, idle ok, unlease g p)
start (returns (some f)) (callback g ∷ fs) s p = (callback g ∷ fs, ends, driver_fail g f p)
start (returns f) (terminal g ∷ fs) s p = (fs, waits g, unlease g p)
start m fs s p = (fs, s, p)

unfoldable pub go_on : List Frame → Stage → Slot → List Frame × Stage × Slot
go_on fs (looks g) p = lease g fs p
go_on (callback g ∷ fs) ends p = (fs, idle ok, unlease g p)
go_on fs (elects g) p = let (s, d) = elect g p in (fs, s, d)
go_on fs (joins g) p = (fs, if (p.bindings g).detached then unregistered g else joins g, p)
go_on fs (adopts g) p =
    let b = p.bindings g in (terminal g ∷ fs, idle ok, set g (record b { wakes = b.wakes + 1 }) p)
go_on fs (waits g) p = (fs, if (p.bindings g).inflight == 0 then clears g else waits g, p)
go_on fs (clears g) p = (fs, detaches g, clear_slot g p)
go_on fs (detaches g) p =
    let b = p.bindings g in (fs, unregistered g, set g (record b { detached = true }) p)
go_on fs s p = (fs, s, p)

-- A move that the thread's stage does not allow does nothing.
unfoldable pub step : Move → List Frame → Stage → Slot → List Frame × Stage × Slot
step m fs (idle r) p = start m fs (idle r) p
step m fs (unregistered g) p = start m fs (unregistered g) p
step goes_on fs s p = go_on fs s p
step m fs s p = (fs, s, p)

unfoldable pub step_at :
    ℕ → Move → List (List Frame × Stage) → Slot → List (List Frame × Stage) × Slot
step_at i m [] p = ([], p)
step_at zero m ((fs, s) ∷ ts) p = let (fs', s', d) = step m fs s p in ((fs', s') ∷ ts, d)
step_at (suc i) m (t ∷ ts) p = let (ts', d) = step_at i m ts p in (t ∷ ts', d)

unfoldable pub run :
    List (ℕ × Move) → List (List Frame × Stage) → Slot → List (List Frame × Stage) × Slot
run [] ts p = (ts, p)
run ((i, m) ∷ ms) ts p = let (ts', d) = step_at i m ts p in run ms ts' d

abbrev pub all_idle : ℕ → List (List Frame × Stage)
all_idle zero = []
all_idle (suc n) = ([], idle ok) ∷ all_idle n

abbrev pub empty_slot : Slot
empty_slot = record {
  is_active = true;
  driver_binding = none;
  next_generation = 0;
  bindings = λ g. new_binding;
}
