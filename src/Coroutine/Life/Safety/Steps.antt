-- ===== src/Coroutine/Life/Safety/Steps.antt =====
-- What each call of a coroutine keeps.
use bbtools_coroutine.Base.{
  ℕ, ◌≤◌, ◌≡◌, refl, ap, sym, subst, ◌∙◌, Bool, false, not, Option, none, some, inl, inr, if-cases,
  if◌then◌else◌, arith,
}
use bbtools_coroutine.PollEvent.State.{Phase, inited, armed, parked, pending}
use bbtools_coroutine.Coroutine.{
  RunStatus, suspended, done, Disposition, event_wait, ready, at_end, AwaitEvent, Coroutine,
  wait_disposition, yield_with_callback, yield_fails, latch, regist_at, regist_event,
}
use bbtools_coroutine.Coroutine.Life.{
  Place, queued, in_body, waits, switched, returned, asleep, deleted, Life, has_event, can_resume,
  is_running, trigger_at, trigger_event, begin_wait, suspend, commit_phase, commit_event, commit_at,
  is_done, resume_queued, push,
}
use bbtools_coroutine.Coroutine.Life.Safety.{
  IsNew, IsRegistered, IsParked, Returned, Fits, wake-Fits, IsWaiting, latch-IsNew,
  latch-IsRegistered, Returned-wait,
}

module _ (c : Coroutine) (b : Bool) where
  abbrev pub at : Place → Life
  at p = record { co = c; place = p; broken = b }

  pub begin-Fits :
      (inits : Bool) (fd : Option ℕ) (epoch : ℕ)
      → Fits (at in_body)
      → Fits (begin_wait inits fd epoch (at in_body))
  unfolding begin_wait Fits
  begin-Fits inits fd epoch (f, d, (s, a)) =
      if-cases Fits c.cancel_requested (at in_body) _ (λ _. (f, d, (s, a)))
        (λ _.
          if-cases Fits (has_event c.await_event) _ _
            (λ t. absurd (ground (arith, t, ap has_event a)))
            (λ _.
              if-cases Fits inits _ (at in_body) (λ _. (f, d, (s, inl refl)))
                (λ _. (f, d, (s, a)))))

  wait_disposition-eq : (o : Option AwaitEvent) → IsNew o → wait_disposition o ≡ event_wait
  wait_disposition-eq none h = absurd (ground (arith, h))
  wait_disposition-eq (some e) h = refl

  pub suspend-Fits : (stores : Bool) → Fits (at waits) → Fits (suspend stores (at waits))
  unfolding suspend Fits yield_with_callback
  suspend-Fits stores (f, d, (s, a)) =
      if-cases Fits (not (is_running c.run_status)) _ _
        (λ t. absurd (ground (arith, t, ap is_running s)))
        (λ _.
          if-cases Fits stores _ _ (λ _. (f, d, (refl, wait_disposition-eq c.await_event a, a)))
            (λ _. (f, d, (refl, refl))))

  pub push-Fits : Fits (at in_body) → Fits (push (at in_body))
  unfolding push Fits
  push-Fits (f, d, (s, a)) =
      if-cases Fits (is_running c.run_status) _ _ (λ _. (f, d, a))
        (λ t. absurd (ground (arith, t, ap is_running s)))

  pub resume-Fits : (us : ℕ) → Fits (at queued) → Fits (resume_queued us (at queued))
  unfolding resume_queued Fits
  resume-Fits us (f, d, (s, a)) =
      if-cases Fits (can_resume c.run_status) _ _ (λ _. (f, d, (refl, a)))
        (λ t. absurd (ground (arith, t, s)))

  -- The callback of a wait, by the phase that it finds.
  check_at-Fits :
      (p : Phase) (registers : Bool) (e : AwaitEvent)
      → e.phase ≡ p
      → b ≡ false
      → c.mlfq_demotions ≤ 3
      → c.run_status ≡ suspended
      → c.yield_disposition ≡ event_wait
      → IsNew (some e)
      → let (ok, d) = regist_at p registers e c in
        Fits (
          if ok
          then record (at switched) { co = d; place = returned }
          else record (at switched) { co = yield_fails d; place = in_body })
  unfolding regist_at Fits
  check_at-Fits pending registers e q f d s y h =
      (f, d, Returned-wait c.run_status c.yield_disposition (some e) s y (inr q))
  check_at-Fits inited registers e q f d s y h =
      if-cases
        (λ (r : Bool × Coroutine). Fits (
          if r.0
          then record (at switched) { co = r.1; place = returned }
          else record (at switched) { co = yield_fails r.1; place = in_body }))
        registers _ _
        (λ _. (
          f,
          d,
          Returned-wait c.run_status c.yield_disposition (some (record e { phase = armed })) s y
              (inl refl),
        ))
        (λ _. (f, d, (refl, refl)))
  check_at-Fits _ registers e q f d s y h = absurd (ground (arith, q, h))

  pub check-Fits :
      (registers : Bool) (o : Option AwaitEvent)
      → c.await_event ≡ o
      → Fits (at switched)
      → let (ok, d) = regist_event registers o c in
        Fits (
          if ok
          then record (at switched) { co = d; place = returned }
          else record (at switched) { co = yield_fails d; place = in_body })
  unfolding regist_event Fits
  check-Fits registers none q (f, d, (s, y, h)) = absurd (ground (arith, subst IsNew q h))
  check-Fits registers (some e) q (f, d, (s, y, h)) =
      let new : IsNew (some e) = subst IsNew q h in
      if-cases
        (λ (e : AwaitEvent).
          let (ok, d) = regist_at e.phase registers e c in
          Fits (
            if ok
            then record (at switched) { co = d; place = returned }
            else record (at switched) { co = yield_fails d; place = in_body }))
        c.cancel_requested (latch e.phase 256 e) e
        (λ _.
          let l = latch e.phase 256 e in
          check_at-Fits l.phase registers l refl f d s y (latch-IsNew e.phase 256 e refl new).0)
        (λ _. check_at-Fits e.phase registers e refl f d s y new)

  commit_phase-Fits :
      (p : Phase) (e : AwaitEvent)
      → e.phase ≡ p
      → c.run_status ≡ suspended
      → b ≡ false
      → c.mlfq_demotions ≤ 3
      → IsRegistered (some e)
      → Fits (commit_phase p e (at returned))
  unfolding commit_phase Fits
  commit_phase-Fits armed e q s f d h = (f, d, (s, refl))
  commit_phase-Fits pending e q s f d h = wake-Fits e.flags e (at returned) f d s
  commit_phase-Fits _ e q s f d h = absurd (ground (arith, q, h))

  commit_event-Fits :
      (o : Option AwaitEvent)
      → c.run_status ≡ suspended
      → b ≡ false
      → c.mlfq_demotions ≤ 3
      → IsRegistered o
      → Fits (commit_event o (at returned))
  unfolding commit_event
  commit_event-Fits none s f d h = absurd (ground (arith, h))
  commit_event-Fits (some e) s f d h = commit_phase-Fits e.phase e refl s f d h

  pub commit-Fits :
      (s : RunStatus) (y : Disposition)
      → c.run_status ≡ s
      → c.yield_disposition ≡ y
      → b ≡ false
      → c.mlfq_demotions ≤ 3
      → Returned s y c.await_event
      → Fits (
          if is_done s
          then record (at returned) {
            co = record c { yield_disposition = at_end };
            place = deleted;
          }
          else commit_at y (at returned))
  unfolding commit_at Fits
  commit-Fits done y es ey f d h = (f, d, (es, h))
  commit-Fits suspended ready es ey f d h = (f, d, (ap can_resume es, h))
  commit-Fits suspended event_wait es ey f d h = commit_event-Fits c.await_event es f d h
  commit-Fits _ _ es ey f d h = absurd (ground (arith, h))

  latched-Fits :
      (p : Phase) (f : ℕ) (e : AwaitEvent) (l : Life)
      → IsWaiting p
      → Fits (record l { co = record (l.co) { await_event = some (latch p f e) } })
      → Fits (trigger_at p f e l)
  unfolding trigger_at
  latched-Fits parked f e l w h = absurd (ground (arith, w))
  latched-Fits _ f e l w h = h

  Returned-event :
      (s : RunStatus) (y : Disposition) (e : AwaitEvent)
      → Returned s y (some e)
      → (s ≡ suspended) × (y ≡ event_wait) × IsRegistered (some e)
  Returned-event done y e h = absurd (ground (arith, ap has_event h))
  Returned-event suspended ready e h = absurd (ground (arith, ap has_event h))
  Returned-event suspended event_wait e h = (refl, refl, h)
  Returned-event _ _ e h = absurd (ground (arith, h))

  wakes-Fits :
      (p : Phase) (f : ℕ) (e : AwaitEvent)
      → p ≡ parked
      → c.run_status ≡ suspended
      → b ≡ false
      → c.mlfq_demotions ≤ 3
      → Fits (trigger_at p f e (at asleep))
  unfolding trigger_at
  wakes-Fits parked f e q s g d = wake-Fits f e (at asleep) g d s
  wakes-Fits p f e q s g d =
      subst (λ p. Fits (trigger_at p f e (at asleep))) (sym q) (wake-Fits f e (at asleep) g d s)

  pub trigger-Fits :
      (p : Place) (f : ℕ) (o : Option AwaitEvent)
      → c.await_event ≡ o
      → Fits (at p)
      → Fits (trigger_event f o (at p))
  unfolding trigger_event Fits
  trigger-Fits p f none q h = h
  trigger-Fits queued f (some e) q (g, d, (s, a)) =
      absurd (ground (arith, ap has_event (sym a ∙ q)))
  trigger-Fits in_body f (some e) q (g, d, (s, a)) =
      absurd (ground (arith, ap has_event (sym a ∙ q)))
  trigger-Fits waits f (some e) q (g, d, (s, a)) =
      let (new, waiting) = latch-IsNew e.phase f e refl (subst IsNew q a) in
      latched-Fits e.phase f e (at waits) waiting (g, d, (s, new))
  trigger-Fits switched f (some e) q (g, d, (s, y, a)) =
      let (new, waiting) = latch-IsNew e.phase f e refl (subst IsNew q a) in
      latched-Fits e.phase f e (at switched) waiting (g, d, (s, y, new))
  trigger-Fits returned f (some e) q (g, d, h) =
      let (s, y, a) =
        Returned-event c.run_status c.yield_disposition e
          (subst (Returned c.run_status c.yield_disposition) q h) in
      let (new, waiting) = latch-IsRegistered e.phase f e refl a in
      latched-Fits e.phase f e (at returned) waiting
        (g, d, Returned-wait c.run_status c.yield_disposition (some (latch e.phase f e)) s y new)
  trigger-Fits asleep f (some e) q (g, d, (s, a)) =
      wakes-Fits e.phase f e (subst IsParked q a) s g d
  trigger-Fits deleted f (some e) q (g, d, (s, a)) =
      absurd (ground (arith, ap has_event (sym a ∙ q)))
