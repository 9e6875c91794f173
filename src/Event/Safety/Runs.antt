-- ===== src/Event/Safety/Runs.antt =====
-- The rounds of an event: nothing is registered or told twice in a round, and nothing is closed twice.
use bbtools_coroutine.Base.{
  ℕ, ◌+◌, ◌<◌, Bool, Option, none, some, List, [], ◌∷◌, sum, length, arith,
}
use bbtools_coroutine.Event.{
  Kind, Op, Handler, delivers, rewaits, closes, Interest, Event, create, cancel_listen, trigger,
  complete, go_on, take_at, Move, starts, cancels, triggered, completes, aborts, proceeds,
  completed, aborted, proceeded, step, run,
}
use bbtools_coroutine.Event.Safety.{
  hit, held, closing, Once, Single, Grows, Taken, take_at-Taken, call_event_callback-Grows,
  wait_again-Grows, start_listen-Grows,
}

module _ (i : Interest) (k : Kind) (r : ℕ) where
  cancel_listen-Grows :
      (c : Bool) (e : Event)
      → e.round + 1 < 18446744073709551616
      → Grows i k r e (cancel_listen c e)
  unfolding cancel_listen sum
  cancel_listen-Grows c e b = ground arith

  trigger-Grows : (flag : ℕ) (e : Event) → Grows i k r e (trigger flag e)
  unfolding trigger sum
  trigger-Grows flag e = ground arith

  completed-Grows :
      (e : Event) (t : Option (Op × List Op))
      → Taken (hit k r) e.pending t
      → Grows i k r e (completed t e)
  unfolding completed complete sum
  completed-Grows e none h = ground arith
  completed-Grows e (some (o, os)) h = ground (arith, h)

  aborted-Grows :
      (e : Event) (t : Option (Op × List Op))
      → Taken (hit k r) e.pending t
      → Grows i k r e (aborted t e)
  unfolding aborted sum
  aborted-Grows e none h = ground arith
  aborted-Grows e (some (o, os)) h = ground (arith, h)

  proceeded-Grows :
      (e : Event) (t : Option (Handler × List Handler))
      → Taken (held k r) e.running t
      → Taken closing e.running t
      → Grows i k r e (proceeded i t e)
  unfolding proceeded go_on sum
  proceeded-Grows e none h c = ground arith
  proceeded-Grows e (some (delivers o, hs)) h c =
      let g = call_event_callback-Grows i k r o (record e { running = hs }) in
      ground (arith, h, c, g)
  proceeded-Grows e (some (rewaits o, hs)) h c =
      let g = wait_again-Grows i k r o (record e { running = hs }) in ground (arith, h, c, g)
  proceeded-Grows e (some (closes f, hs)) h c = ground (arith, h, c)

  step-Grows :
      (m : Move) (e : Event) → e.round + 1 < 18446744073709551616 → Grows i k r e (step i m e)
  unfolding step
  step-Grows (starts now timeout) e b = start_listen-Grows i k r now timeout e b
  step-Grows (cancels c) e b = cancel_listen-Grows c e b
  step-Grows (triggered flag) e b = trigger-Grows flag e
  step-Grows (completes n) e b =
      completed-Grows e (take_at n e.pending) (take_at-Taken (hit k r) n e.pending)
  step-Grows (aborts n) e b =
      aborted-Grows e (take_at n e.pending) (take_at-Taken (hit k r) n e.pending)
  step-Grows (proceeds n) e b =
      proceeded-Grows e (take_at n e.running) (take_at-Taken (held k r) n e.running)
        (take_at-Taken closing n e.running)

  Grows-Once : (e d : Event) → Once i k r e → Grows i k r e d → Once i k r d
  Grows-Once e d h g = ground (arith, h, g)

  run-Once :
      (ms : List Move) (e : Event)
      → Once i k r e
      → e.round + length ms < 18446744073709551616
      → Once i k r (run i ms e)
  unfolding run
  run-Once [] e h b = h
  run-Once (m ∷ ms) e h b =
      let g = step-Grows m e (omega (arith, b)) in
      run-Once ms (step i m e) (Grows-Once e (step i m e) h g) (omega (arith, b, g.1))

-- An event is listened to, cancelled and triggered by any threads in fewer than 2^64 moves, while asio begins the
-- handler of each pending operation at most once. Then for each round and each of reading, writing and the timer at most
-- one operation is registered or in a handler, its callback included where the event does not register it again; and
-- of the user's descriptor, the closings under way and those done there is at most one.
pub run-Single :
    (i : Interest) (fd : Option ℕ) (ms : List Move) (k : Kind) (r : ℕ)
    → length ms < 18446744073709551616
    → Single i k r (run i ms (create i fd))
unfolding sum
run-Single i fd ms k r b =
    let start : Once i k r (create i fd) = ground arith in
    let (one, none_yet, closings) = run-Once i k r ms (create i fd) start (omega (arith, b)) in
    (one, closings)
