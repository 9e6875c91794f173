-- ===== src/Hook/Tests.antt =====
-- System calls at concrete runs.
use bbtools_coroutine.Base.{
  ◌-◌, ◌≡◌, refl, ◌==◌, true, false, ◌⊎◌, sum, none, some, [], ◌∷◌, All, arith,
}
use bbtools_coroutine.Base.Map.{find, put, insert, replace, erase}
use bbtools_coroutine.PollEvent.Slots.{
  fd_key, touch, slot_at, fd_epoch, establish, begins, ends, begin_fd_close, end_fd_close, step,
  run,
}
use bbtools_coroutine.Coroutine.{
  create, fd_wait_epoch_valid, epoch_valid_at, on_co_poll_event, normalize_trigger_event,
}
use bbtools_coroutine.Hook.{eagain, ebadf, returned, failed, retries_read, retries_write}
use bbtools_coroutine.Hook.Io.{
  done, fails, cancelled, wakes, Round, io_timeout, woken, end_wait, co_wait_fd_ready, restore,
  after_wait, after_call, io_loop, on_table,
}
use bbtools_coroutine.Hook.Calls.{
  blocking, Entry, nonblock_guard, hook_read, settle_accepted, hook_accept, close_guard,
  hook_accept4, read, perform, falls_back,
}
use bbtools_coroutine.Hook.Io.Safety.{Within}
use bbtools_coroutine.Hook.Io.Safety.Calls.{perform-Ends}
use bbtools_coroutine.Hook.Sleeps.{
  for_ms, hook_usleep, hook_nanosleep, hook_clock_nanosleep, ns, Lasts, hook_sleeps-Last,
}
use bbtools_coroutine.Hook.Select.{
  no_revents, Kernel, sees, look_again, await_epoll, poll_waits, poll_first, poll_core, unlimited,
  count_ready, Sets, in_set, collect, mark, count_set, marked, select_core,
}
use bbtools_coroutine.Hook.Select.Marks.{Described, select_core-Described}

-- Descriptor 5 of an empty table is not ready; an event wakes the coroutine, and it reads 10 bytes.
abbrev waits_once : Round
waits_once = record {
  answer = fails eagain;
  before = [];
  remain_ms = 0;
  wait = wakes 2;
  during = [];
}

abbrev reads_ten : Round
reads_ten = record { answer = done 10; before = []; remain_ms = 0; wait = cancelled; during = [] }

-- The descriptor is closed while the coroutine is about to run on.
abbrev closed_meanwhile : Round
closed_meanwhile = record {
  answer = fails eagain;
  before = [];
  remain_ms = 0;
  wait = wakes 2;
  during = ((λ n. false), begins 5) ∷ ((λ n. false), ends 5) ∷ [];
}

abbrev blocking_fd : Entry
blocking_fd = record { flags = blocking none; timeout = none; seekable = false }

perform-Ends_example :
    let (o, s) =
      perform read 5 blocking_fd (waits_once ∷ closed_meanwhile ∷ []) (on_table [] create) in
    All (λ g. g ≡ fd_epoch 5 []) s.calls
    × Within (fd_epoch 5 []) s.offset_back
    × ((fd_epoch 5 s.table ≡ fd_epoch 5 []) ⊎ ((o ≡ failed ebadf) × (s.offset_back ≡ none)))
    × ((falls_back read ≡ true)
        ⊎ Within (fd_epoch 5 []) s.flags_back
          × ((fd_epoch 5 s.table ≡ fd_epoch 5 []) ⊎ (s.flags_back ≡ none)))
unfolding fd_epoch find
perform-Ends_example =
    perform-Ends read 5 blocking_fd (waits_once ∷ closed_meanwhile ∷ []) [] create tt (omega arith)
      ((tt, tt, omega arith), ((tt, tt, omega arith), tt))

closed_meanwhile-run :
    let (o, s) =
      perform read 5 blocking_fd (waits_once ∷ closed_meanwhile ∷ []) (on_table [] create) in
    (o ≡ failed ebadf) × (s.calls ≡ 0 ∷ 0 ∷ []) × (s.flags_back ≡ none)
unfolding perform hook_read nonblock_guard io_loop after_call after_wait co_wait_fd_ready end_wait
    woken restore io_timeout retries_read establish fd_wait_epoch_valid epoch_valid_at
    on_co_poll_event normalize_trigger_event run step begin_fd_close end_fd_close slot_at touch
    fd_epoch find put insert replace erase
closed_meanwhile-run = (refl, refl, refl)

-- Where the platform has no accept4, the outer guard writes the flags back to whatever the descriptor names now.
accept4_writes_back :
    let (o, s) =
      hook_accept4 false none none 5 blocking_fd (closed_meanwhile ∷ []) (on_table [] create) in
    (o ≡ failed ebadf) × (s.flags_back ≡ some 1)
unfolding hook_accept4 hook_accept settle_accepted close_guard nonblock_guard io_loop after_call
    after_wait co_wait_fd_ready end_wait woken restore io_timeout retries_write establish
    fd_wait_epoch_valid epoch_valid_at on_co_poll_event normalize_trigger_event run step
    begin_fd_close end_fd_close slot_at touch fd_epoch find put insert replace erase
accept4_writes_back = (refl, refl)

-- The absolute time is 1.5 seconds ahead of a realtime clock in the year 2025.
hook_sleeps-Last_example :
    Lasts 1000 2500 (hook_usleep 2500)
    × Lasts 1000000 (ns 1 500) (hook_nanosleep 1 500)
    × Lasts 1000000 (ns 1 500) (hook_clock_nanosleep false 1750000000000000000 1 500)
    × Lasts 1000000
        (ns 1750000001 500000000 - 1750000000000000000)
        (hook_clock_nanosleep true 1750000000000000000 1750000001 500000000)
hook_sleeps-Last_example =
    hook_sleeps-Last 2500 1 500 1750000001 500000000 1750000000000000000 (omega arith) (omega arith)
      (omega arith) (omega arith)

-- The largest argument of usleep wraps around.
usleep_wraps : hook_usleep 4294967295 ≡ for_ms 0
unfolding hook_usleep
usleep_wraps = refl

-- A select that waits for descriptor 3 to become writeable, and hears that it was hung up.
abbrev asks : Sets
asks = record { reads = some (λ fd. false); writes = some (λ fd. fd == 3); excepts = none }

abbrev hung_up : Kernel
hung_up = record {
  first = sees (λ fd. no_revents);
  epoll = none;
  takes = λ fd. true;
  wait = none;
  second = sees (λ fd. record no_revents { hup = true });
}

-- It is reported as readable too, although nobody asked.
hung_up-run :
    let (o, t) = select_core 4 asks unlimited hung_up in
    (o ≡ returned 2) × (in_set t.reads 3 ≡ true)
unfolding select_core marked poll_core poll_first poll_waits await_epoll look_again count_ready
    collect mark count_set sum
hung_up-run = (refl, refl)

select_core-Described_example : Described 4 asks hung_up (select_core 4 asks unlimited hung_up)
select_core-Described_example = select_core-Described 4 asks unlimited hung_up (omega arith)
