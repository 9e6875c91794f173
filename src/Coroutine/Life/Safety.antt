-- ===== src/Coroutine/Life/Safety.antt =====
-- What holds of a coroutine at every place of its life.
pub mod Runs
pub mod Steps
use bbtools_coroutine.Base.{
  ℕ, ◌^◌, ◌≤◌, ◌≡◌, refl, ap, sym, subst, ◌∙◌, Bool, true, false, not, Option, none, some, List, [],
  ◌∷◌, ◌⊎◌, inl, inr, if-cases, if◌then◌else◌, arith,
}
use bbtools_coroutine.PollEvent.State.{Phase, inited, armed, parked, pending}
use bbtools_coroutine.Coroutine.{
  RunStatus, running, suspended, done, Disposition, event_wait, ready, at_end, AwaitEvent,
  Coroutine, next_demotions, wait_disposition, on_co_poll_event, yield_with_callback, yield_fails,
  latch, regist_at, regist_event, regist_await_event,
}
use bbtools_coroutine.Coroutine.Life.{
  Place, queued, in_body, waits, switched, returned, asleep, deleted, Life, Move, resumes, begins,
  suspends, checks, pushes, finishes, throws, commits, cancels, triggers, has_event, born,
  can_resume, is_running, wake, trigger_at, trigger_event, begin_wait, suspend, check, commit_phase,
  commit_event, commit_at, is_done, commit, resume_queued, push, step_at, step, run,
}

-- The phases before the registration, and after it.
abbrev pub IsNew : Option AwaitEvent → Type 0
IsNew none = true ≡ false
IsNew (some e) = (e.phase ≡ inited) ⊎ (e.phase ≡ pending)

abbrev pub IsRegistered : Option AwaitEvent → Type 0
IsRegistered none = true ≡ false
IsRegistered (some e) = (e.phase ≡ armed) ⊎ (e.phase ≡ pending)

abbrev pub IsParked : Option AwaitEvent → Type 0
IsParked none = true ≡ false
IsParked (some e) = e.phase ≡ parked

abbrev pub Returned : RunStatus → Disposition → Option AwaitEvent → Type 0
Returned done d e = e ≡ none
Returned suspended ready e = e ≡ none
Returned suspended event_wait e = IsRegistered e
Returned _ d e = true ≡ false

abbrev pub Stands : Place → Coroutine → Type 0
Stands queued c = (can_resume c.run_status ≡ true) × (c.await_event ≡ none)
Stands in_body c = (c.run_status ≡ running) × (c.await_event ≡ none)
Stands waits c = (c.run_status ≡ running) × IsNew c.await_event
Stands switched c =
    (c.run_status ≡ suspended) × (c.yield_disposition ≡ event_wait) × IsNew c.await_event
Stands returned c = Returned c.run_status c.yield_disposition c.await_event
Stands asleep c = (c.run_status ≡ suspended) × IsParked c.await_event
Stands deleted c = (c.run_status ≡ done) × (c.await_event ≡ none)

pub Fits : Life → Type 0
Fits l = (l.broken ≡ false) × (l.co.mlfq_demotions ≤ 3) × Stands l.place l.co

pub wake-Fits :
    (f : ℕ) (e : AwaitEvent) (l : Life)
    → l.broken ≡ false
    → l.co.mlfq_demotions ≤ 3
    → l.co.run_status ≡ suspended
    → Fits (wake f e l)
unfolding on_co_poll_event next_demotions Fits
wake-Fits f e l b d s = (b, ground (arith, d), (ap can_resume s, refl))

-- The events to which a trigger only adds its mask.
abbrev pub IsWaiting : Phase → Type 0
IsWaiting parked = true ≡ false
IsWaiting _ = Unit

pub latch-IsNew :
    (p : Phase) (f : ℕ) (e : AwaitEvent)
    → e.phase ≡ p
    → IsNew (some e)
    → IsNew (some (latch p f e)) × IsWaiting p
unfolding latch
latch-IsNew armed f e q h = (inr refl, tt)
latch-IsNew inited f e q h = (inr refl, tt)
latch-IsNew parked f e q h = absurd (ground (arith, q, h))
latch-IsNew _ f e q h = (h, tt)

pub latch-IsRegistered :
    (p : Phase) (f : ℕ) (e : AwaitEvent)
    → e.phase ≡ p
    → IsRegistered (some e)
    → IsRegistered (some (latch p f e)) × IsWaiting p
unfolding latch
latch-IsRegistered armed f e q h = (inr refl, tt)
latch-IsRegistered inited f e q h = (inr refl, tt)
latch-IsRegistered parked f e q h = absurd (ground (arith, q, h))
latch-IsRegistered _ f e q h = (h, tt)

pub Returned-wait :
    (s : RunStatus) (y : Disposition) (o : Option AwaitEvent)
    → s ≡ suspended
    → y ≡ event_wait
    → IsRegistered o
    → Returned s y o
Returned-wait s y o es ey h =
    subst (λ s. Returned s y o) (sym es) (subst (λ y. Returned suspended y o) (sym ey) h)
