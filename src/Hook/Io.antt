-- ===== src/Hook/Io.antt =====
-- Reading, writing, accepting and connecting: a call is tried, and tried again when the descriptor is ready,
-- unless that was closed meanwhile. The table of descriptors is that of PollEvent/Slots.
pub mod Safety
use bbtools_coroutine.Base.{
  ℕ, zero, suc, ◌+◌, ◌*◌, ◌/◌, ◌%◌, ◌==◌, ltb, Bool, true, false, not, ◌&&◌, ◌||◌, Option, none,
  some, List, [], ◌∷◌, if◌then◌else◌,
}
use bbtools_coroutine.PollEvent.State.{final}
use bbtools_coroutine.PollEvent.Slots.{Slots, Op, fd_epoch, establish, run}
use bbtools_coroutine.Coroutine.{AwaitEvent, Coroutine, on_co_poll_event, fd_wait_epoch_valid}
use bbtools_coroutine.Hook.{
  Errno, eagain, ewouldblock, eintr, eisconn, ebadf, Outcome, returned, failed, thrown, waiting,
  retries_read, retries_write, retries_connect,
}

-- The calls on the table that other threads make, each with the weak pointers that are alive then.
abbrev pub Others : Type 0
Others = List ((ℕ → Bool) × Op)

-- The system call's own answer.
pub data Answer : Type 0 where
  done : ℕ → Answer
  fails : Errno → Answer

-- How a wait ends: the coroutine was cancelled before, the wait could not be set up, it threw, or an event woke it.
pub data Wait : Type 0 where
  cancelled not_set_up throws : Wait
  wakes : ℕ → Wait

-- One round: the call, what others do until the wait is set up, what is left of the time limit, how the wait ends, and
-- what others do until the descriptor's generation is compared.
pub record Round : Type 0 where
  pub answer : Answer
  pub before : Others
  pub remain_ms : ℕ
  pub wait : Wait
  pub during : Others

-- `calls`: the generation of the descriptor at each system call, newest first; `flags_back` and `offset_back`: that at
-- which its flags or its offset were written back; `resets`: the reads of SO_ERROR.
pub record Io : Type 0 where
  pub table : Slots
  pub coroutine : Coroutine
  pub calls : List ℕ
  pub flags_back : Option ℕ
  pub offset_back : Option ℕ
  pub resets : ℕ

-- The guards that stand: whether the flags are to be restored, and the offset.
pub record Guards : Type 0 where
  pub restores_flags : Bool
  pub restores_offset : Bool

-- A call: which errors it tries again, whether EISCONN is success, and whether a failed wait resets the socket.
pub record Kind : Type 0 where
  pub retries : Errno → Bool
  pub connects : Bool

abbrev pub reading : Kind
unfolding retries_read
reading = record { retries = retries_read; connects = false }

abbrev pub writing : Kind
unfolding retries_write
writing = record { retries = retries_write; connects = false }

abbrev pub connecting : Kind
unfolding retries_connect
connecting = record { retries = retries_connect; connects = true }

-- The limit of an `IoTimeout` in milliseconds, an `int`: none if it is not positive.
abbrev pub limit_ms : ℕ → ℕ → ℕ
limit_ms sec usec = (sec * 1000 + (usec + 999) / 1000) % 4294967296

unfoldable pub io_timeout : Option (ℕ × ℕ) → Option ℕ
io_timeout none = none
io_timeout (some (sec, usec)) =
    let ms = limit_ms sec usec in
    if (ltb 0 sec || ltb 0 usec) && ltb 0 ms && ltb ms 2147483648 then some ms else none

-- What `CoWaitFdReady` returns: 0, 2, or another number.
pub data Ready : Type 0 where
  ready replaced refused raised : Ready

-- The wake-up by an event whose wait was set up on the table as it is; a descriptor that is being closed takes none.
unfoldable pub woken : ℕ → ℕ → Others → Io → Ready × Io
woken fd event during s =
    let (m, epoch, closing) = establish fd s.table in
    let ev : AwaitEvent = record {
      phase = final;
      flags = event;
      fd = some fd;
      wait_epoch = epoch;
    } in
    let d = (on_co_poll_event event ev s.coroutine).1 in
    let after = run during m in
    if closing then (refused, record s { table = m }) else (
      if fd_wait_epoch_valid after fd d then ready else replaced,
      record s { table = after; coroutine = d },
    )

unfoldable pub end_wait : ℕ → Wait → Others → Io → Ready × Io
end_wait fd cancelled during s = (refused, s)
end_wait fd not_set_up during s = (refused, record s { table = run during s.table })
end_wait fd throws during s = (raised, record s { table = run during s.table })
end_wait fd (wakes event) during s = woken fd event during s

-- `CoWaitFdReady`
abbrev pub out_of_time : Option ℕ → ℕ → Bool
out_of_time none remain = false
out_of_time (some ms) remain = remain == 0

unfoldable pub co_wait_fd_ready : ℕ → Option ℕ → Round → Io → Ready × Io
co_wait_fd_ready fd limit r s =
    if out_of_time limit r.remain_ms then (refused, s) else end_wait fd r.wait r.during s

-- The destructors of the guards.
abbrev pub back : Bool → ℕ → Io → Option ℕ → Option ℕ
back true fd s old = some (fd_epoch fd s.table)
back false fd s old = old

unfoldable pub restore : Guards → ℕ → Io → Io
restore g fd s = record s {
  flags_back = back g.restores_flags fd s s.flags_back;
  offset_back = back g.restores_offset fd s s.offset_back;
}

abbrev pub dismiss_offset : Guards → Guards
dismiss_offset g = record g { restores_offset = false }

-- `ResetConnectState`, which only a connect calls.
abbrev pub reset_connect_state : Kind → Io → Io
reset_connect_state k s = if k.connects then record s { resets = s.resets + 1 } else s

abbrev pub called : ℕ → Io → Io
called fd s = record s { calls = fd_epoch fd s.table ∷ s.calls }

abbrev pub others : Others → Io → Io
others os s = record s { table = run os s.table }

abbrev pub is_connected : Kind → Errno → Bool
is_connected k eisconn = k.connects
is_connected k _ = false

-- What follows a wait; `rest` is the next round.
unfoldable pub after_wait :
    Kind → Guards → ℕ → Errno → (Io → Outcome × Io) → Ready × Io → Outcome × Io
after_wait k g fd e rest (ready, s) = rest s
after_wait k g fd e rest (replaced, s) = (failed ebadf, s)
after_wait k g fd e rest (refused, s) = (failed e, restore g fd (reset_connect_state k s))
after_wait k g fd e rest (raised, s) = (thrown, restore g fd (reset_connect_state k s))

unfoldable pub after_call :
    Kind → Guards → ℕ → Option ℕ → Round → (Io → Outcome × Io) → Answer → Io → Outcome × Io
after_call k g fd limit r rest (done n) s = (returned n, restore (dismiss_offset g) fd s)
after_call k g fd limit r rest (fails e) s =
    if is_connected k e
    then (returned 0, restore g fd s)
    else if not (k.retries e)
    then (failed e, restore g fd s)
    else after_wait k g fd e rest (co_wait_fd_ready fd limit r (others r.before s))

-- The loop, one round for each system call; when there are no more, it still waits.
unfoldable pub io_loop : Kind → Guards → ℕ → Option ℕ → List Round → Io → Outcome × Io
io_loop k g fd limit [] s = (waiting, s)
io_loop k g fd limit (r ∷ rs) s =
    after_call k g fd limit r (io_loop k g fd limit rs) r.answer (called fd s)

abbrev pub on_table : Slots → Coroutine → Io
on_table m c = record {
  table = m;
  coroutine = c;
  calls = [];
  flags_back = none;
  offset_back = none;
  resets = 0;
}
