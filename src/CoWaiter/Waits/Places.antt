-- ===== src/CoWaiter/Waits/Places.antt =====
-- Who has the place of a CoWaiter, and which payload a wait gets.
use bbtools_coroutine.Base.{
  ℕ, ◌≡◌, ◌≢◌, ◌⊎◌, inl, inr, refl, Bool, true, false, not, ◌||◌, Option, none, some, List, [], ◌∷◌,
  ◌==◌, ==_iff, if◌then◌else◌, Option-cases, Bool-cases, arith,
}
use bbtools_coroutine.CoWaiter.{
  cond_active, Waiter, Ms, Registry, regist_custom, Yield, resumed, Ret, is_some, occupy, vacate,
  notify, notify_value, WaitStatus, verdict, remain, timer_of,
}
use bbtools_coroutine.CoWaiter.Waits.{
  Done, World, Outcome, wait_until, wait_deadline, wait_combined, Combined, evict,
}

-- A payload or none with each notification.
pub notify_any : Option ℕ → Waiter → Waiter × Option ℕ
notify_any none w = notify w
notify_any (some v) w = notify_value v w

pub notify_each : List (Option ℕ) → Waiter → Waiter
notify_each [] w = w
notify_each (v ∷ vs) w = notify_each vs (notify_any v w).0

vacate-gone : (id : ℕ) (w : Waiter) → (vacate id w).co_event ≢ some id
unfolding vacate
vacate-gone id w = elim (Option-cases w.co_event) [
  | inl n ↦ ground arith
  | inr (j, h) ↦ ground (arith, ==_iff j id)
]

registered :
    (r : Registry) (ms : Option Ms)
    → (regist_custom r ms ≡ none)
      ⊎ ((timer : Option ℕ) × (regist_custom r ms ≡ some (r.new_id, timer)))
unfolding regist_custom
registered r none = elim (Bool-cases r.awaits) [
  | inl t ↦ inl (rw t refl)
  | inr f ↦ inr (none, rw f refl)
]
registered r (some (Ms.negative n)) = inl refl
registered r (some (Ms.millis n)) = elim (Bool-cases (r.awaits || not r.creates)) [
  | inl t ↦ inl (rw t refl)
  | inr f ↦ inr ((if n == 0 then none else some n), rw f refl)
]

abbrev pub Vacates : {A : Type 0} → Done A → Type 0
Vacates d = elim d.entered [ none ↦ Unit | some (id, timer) ↦ d.waiter.co_event ≢ some id ]

if-Vacates :
    {A : Type 0} (b : Bool) (x y : Done A) → Vacates x → Vacates y → Vacates (if b then x else y)
if-Vacates true x y hx hy = hx
if-Vacates false x y hx hy = hy

-- However a wait ends (notified, by its timer, cancelled, its registration refused, or by an exception),
-- and whatever other calls did to the waiter meanwhile, the event that it entered does not hold the
-- place afterwards. This is so of the calls without a deadline, of the one with a deadline, and of the
-- combined one.
pub wait-Vacates :
    (timeout : Option Ms) (r : Registry) (ret : Yield → Ret) (deadline : ℕ) (options : Combined)
    (world : World) (y : Yield) (during : Waiter → Waiter) (w : Waiter)
    → Vacates (wait_until timeout r y ret during w)
      × Vacates (wait_deadline deadline world y during w)
      × Vacates (wait_combined options world y during w)
unfolding wait_until wait_deadline wait_combined
wait-Vacates timeout r ret deadline options world y during w = (
  elim (Option-cases (regist_custom r timeout)) [
    | inl n ↦ rw (n, wait_until) (if-Vacates (is_some w.co_event) _ _ tt tt)
    | inr ((id, t), e) ↦
        rw (e, wait_until)
          (if-Vacates (is_some w.co_event) _ _ tt (vacate-gone id (during (occupy id w))))
  ],
  elim (registered world.registry (timer_of (remain deadline world.later))) [
    | inl n ↦ ground arith
    | inr (t, e) ↦
        ground (
          arith,
          vacate-gone world.registry.new_id (during (occupy world.registry.new_id (evict w))),
        )
  ],
  ground
      (arith, vacate-gone world.registry.new_id (during (occupy world.registry.new_id (evict w)))),
)

active-stays : (v : Option ℕ) (w : Waiter) → w.run_status ≡ cond_active → notify_any v w ≡ (w, none)
unfolding notify_any notify notify_value
active-stays none w h = ground arith
active-stays (some v) w h = ground arith

actives-stay :
    (vs : List (Option ℕ)) (w : Waiter) → w.run_status ≡ cond_active → notify_each vs w ≡ w
unfolding notify_each
actives-stay [] w h = refl
actives-stay (v ∷ vs) w h = rw (active-stays v w h) (actives-stay vs w h)

notified-values :
    (v : Option ℕ) (id : ℕ) (w : Waiter)
    → w.values id ≡ none
    → ((notify_any v (occupy id w)).0.run_status ≡ cond_active)
      × ((notify_any v (occupy id w)).0.values id ≡ v)
      × ((notify_any v (occupy id w)).1 ≡ some id)
unfolding notify_any notify notify_value occupy
notified-values none id w h = (refl, h, refl)
notified-values (some v) id w h = (refl, ground (arith, ==_iff id id), refl)

-- A wait with a deadline enters an event that carries no payload yet, and several calls of Notify follow,
-- each with a payload or without. If the event wakes it for a notification, the wait is completed with
-- the payload of the first of them, or none if that had none: no later call overwrites it.
pub wait_deadline-first_payload :
    (deadline : ℕ) (world : World) (v : Option ℕ) (vs : List (Option ℕ)) (w : Waiter)
    (timer : Option ℕ)
    → w.values world.registry.new_id ≡ none
    → (wait_deadline deadline world (resumed 8) (notify_each (v ∷ vs)) w).entered
      ≡ some (world.registry.new_id, timer)
    → (wait_deadline deadline world (resumed 8) (notify_each (v ∷ vs)) w).result
      ≡ Outcome.gives WaitStatus.completed v
unfolding wait_deadline notify_each verdict
wait_deadline-first_payload deadline world v vs w timer h e =
    let id = world.registry.new_id in
    let x = occupy id (evict w) in
    let (active, value, hit) = notified-values v id (evict w) (ground arith) in
    let same = actives-stay vs (notify_any v x).0 active in
    let payload : (notify_each vs (notify_any v x).0).values id ≡ v = rw same value in
    elim (registered world.registry (timer_of (remain deadline world.later))) [
      | inl n ↦ ground arith
      | inr (t, q) ↦ ground arith
    ]
