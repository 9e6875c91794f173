-- ===== src/Chan/Tests.antt =====
-- The channel at concrete runs.
use bbtools_coroutine.Base.{
  ℕ, ◌≡◌, ◌≤◌, refl, true, false, List, [], ◌∷◌, ◌++◌, length, All, bit, sum, arith,
}
use bbtools_coroutine.CoRwMutex.{member, remove}
use bbtools_coroutine.CoCond.{wake_one}
use bbtools_coroutine.Chan.{
  fresh, push, pop, close, on_enable_read, on_enable_write, register_write, enqueue_write,
  recheck_read, notify_each,
}
use bbtools_coroutine.Chan.System.{
  ok, idle, read_one, Move, writes, reads, try_reads, closes, goes_on, write_loop, write_locked,
  read_front, read_loop, try_read_front, try_read, try_read_begin, read_begin, go_on, step, step_at,
  run, all_idle,
}
use bbtools_coroutine.Chan.System.Safety.{claims, Waits}
use bbtools_coroutine.Chan.System.Safety.Runs.{run-fifo, run-wakes}
use bbtools_coroutine.Chan.Direct
use bbtools_coroutine.Chan.Direct.{new_direct, enqueue, take_front}
use bbtools_coroutine.Chan.Direct.Safety
use bbtools_coroutine.Chan.Direct.Safety.Runs.{run-direct}

abbrev on : Move ℕ
on = goes_on false true

-- A writer waits for room; a reader makes it, and the writer finds the channel open; before it takes the
-- lock again, the channel is closed.
abbrev close_behind : List (ℕ × Move ℕ)
close_behind =
    (0, writes false 5)
    ∷ (0, on)
    ∷ (1, writes false 6)
    ∷ (1, on)
    ∷ (1, on)
    ∷ (1, on)
    ∷ (2, try_reads)
    ∷ (2, on)
    ∷ (2, on)
    ∷ (1, on)
    ∷ (1, on)
    ∷ (2, closes)
    ∷ (1, on)
    ∷ []

-- Its item then goes into the closed channel, and the call reports success.
close_behind-run :
    let (ss, c) = run 1 close_behind (all_idle 3) fresh in
    (c.is_closed ≡ true) × (c.item_queue ≡ 6 ∷ []) × (ss ≡ idle ok ∷ idle ok ∷ idle ok ∷ [])
unfolding write_loop write_locked read_front read_loop try_read_front try_read try_read_begin
    read_begin go_on step step_at run push pop close on_enable_read on_enable_write register_write
    enqueue_write recheck_read notify_each member remove wake_one
close_behind-run = (refl, refl, refl)

-- A reader is suspended on an empty channel, and a writer gives it an item.
abbrev read_waits : List (ℕ × Move ℕ)
read_waits =
    (0, reads read_one)
    ∷ (0, on)
    ∷ (0, on)
    ∷ (0, on)
    ∷ (0, on)
    ∷ (1, writes false 7)
    ∷ (1, on)
    ∷ (0, on)
    ∷ (0, on)
    ∷ (0, on)
    ∷ []

read_waits-run :
    let (ss, c) = run 2 read_waits (all_idle 2) fresh in
    (c.received ≡ 7 ∷ []) × (ss ≡ idle ok ∷ idle ok ∷ [])
unfolding write_loop write_locked read_front read_loop try_read_front try_read try_read_begin
    read_begin go_on step step_at run push pop close on_enable_read on_enable_write register_write
    enqueue_write recheck_read notify_each member remove wake_one
read_waits-run = (refl, refl)

run-fifo_example :
    let (ss, c) = run 1 close_behind (all_idle 3) fresh in
    (c.received ++ c.item_queue ≡ c.sent) × (length c.item_queue ≤ 1)
run-fifo_example = run-fifo 1 3 close_behind

run-wakes_example :
    let (ss, c) = run 2 read_waits (all_idle 2) fresh in
    (sum claims ss ≡ bit c.is_reading) × All (λ s. Waits s c) ss
run-wakes_example = run-wakes 2 2 read_waits

-- A write whose wait fails, and a read after it.
abbrev failed_write : List (ℕ × Direct.Move ℕ)
failed_write =
    (0, Direct.writes 9)
    ∷ (0, Direct.goes_on true)
    ∷ (0, Direct.goes_on false)
    ∷ (1, Direct.reads)
    ∷ (1, Direct.goes_on true)
    ∷ (1, Direct.goes_on true)
    ∷ (1, Direct.goes_on true)
    ∷ []

-- The item is read although the write reported failure.
failed_write-run :
    let (ss, d) = Direct.run failed_write (Direct.all_idle 2) new_direct in
    (ss ≡ Direct.idle Direct.failed ∷ Direct.idle Direct.ok ∷ []) × (d.received ≡ 9 ∷ [])
unfolding Direct.run Direct.step_at Direct.step Direct.go_on enqueue take_front Direct.read_loop
    on_enable_read on_enable_write notify_each wake_one
failed_write-run = (refl, refl)

run-direct_example :
    let (ss, d) = Direct.run failed_write (Direct.all_idle 2) new_direct in
    ((d.received ++ d.item_cache_ref ≡ d.sent)
      × (d.read_idx ≡ length d.received)
      × (d.write_idx ≡ length d.sent))
    × (sum Safety.claims ss ≡ bit d.base.is_reading)
    × All (λ s. Safety.Waits s d) ss
run-direct_example = run-direct ℕ 2 failed_write (omega arith)
