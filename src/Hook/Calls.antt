-- ===== src/Hook/Calls.antt =====
-- The hooked calls: each changes the flags of the descriptor for its duration, and loops.
use bbtools_coroutine.Base.{ℕ, Bool, true, false, Option, none, some, List, [], ◌∷◌, if◌then◌else◌}
use bbtools_coroutine.Hook.{Errno, Outcome, returned, failed, waiting}
use bbtools_coroutine.Hook.Io.{
  done, fails, Round, Io, Guards, Kind, reading, writing, connecting, io_timeout, restore, called,
  io_loop,
}

-- What a call finds when it begins: the descriptor's flags, the limit of its kind, and whether it has an offset.
pub data Flags : Type 0 where
  unreadable : Errno → Flags
  nonblocking : Flags
  blocking : Option Errno → Flags

pub record Entry : Type 0 where
  pub flags : Flags
  pub timeout : Option (ℕ × ℕ)
  pub seekable : Bool

-- `CoIoNonblockGuard`: the flags are to be restored if they were changed.
unfoldable pub nonblock_guard : Flags → (Bool → Io → Outcome × Io) → Io → Outcome × Io
nonblock_guard (unreadable e) call s = (failed e, s)
nonblock_guard nonblocking call s = call false s
nonblock_guard (blocking none) call s = call true s
nonblock_guard (blocking (some e)) call s = (failed e, s)

abbrev pub guards : Bool → Bool → Guards
guards f o = record { restores_flags = f; restores_offset = o }

abbrev pub Hooked : Type 0
Hooked = ℕ → Entry → List Round → Io → Outcome × Io

unfoldable pub hook_read : Hooked
hook_read fd en rs s =
    nonblock_guard en.flags
      (λ f. io_loop reading (guards f en.seekable) fd (io_timeout en.timeout) rs) s

unfoldable pub hook_write : Hooked
hook_write fd en rs s =
    nonblock_guard en.flags
      (λ f. io_loop writing (guards f en.seekable) fd (io_timeout en.timeout) rs) s

unfoldable pub hook_readv : Hooked
hook_readv fd en rs s =
    nonblock_guard en.flags
      (λ f. io_loop reading (guards f en.seekable) fd (io_timeout en.timeout) rs) s

unfoldable pub hook_writev : Hooked
hook_writev fd en rs s =
    nonblock_guard en.flags
      (λ f. io_loop writing (guards f en.seekable) fd (io_timeout en.timeout) rs) s

-- The new descriptor is made non-blocking, or closed.
unfoldable pub settle_accepted : Option Errno → Outcome × Io → Outcome × Io
settle_accepted (some e) (returned n, s) = (failed e, s)
settle_accepted _ o = o

unfoldable pub hook_accept : Option Errno → Hooked
hook_accept settles fd en rs s =
    nonblock_guard en.flags
      (λ f s.
        settle_accepted settles (io_loop writing (guards f false) fd (io_timeout en.timeout) rs s))
      s

-- The outer guard of `Hook_Accept4` is never dismissed.
unfoldable pub close_guard : Bool → ℕ → Outcome × Io → Outcome × Io
close_guard f fd (waiting, s) = (waiting, s)
close_guard f fd (o, s) = (o, restore (guards f false) fd s)

-- `Hook_Accept4`, where the platform has accept4 and where not; the flags asked for may be refused.
unfoldable pub hook_accept4 : Bool → Option Errno → Option Errno → Hooked
hook_accept4 true applies settles fd en rs s = hook_accept settles fd en rs s
hook_accept4 false applies settles fd en rs s =
    nonblock_guard en.flags
      (λ f t.
        close_guard f fd (
          settle_accepted applies
            (hook_accept settles fd (record en { flags = nonblocking }) rs t)))
      s

-- A call with MSG_DONTWAIT is passed through.
unfoldable pub pass_through : ℕ → List Round → Io → Outcome × Io
pass_through fd [] s = (waiting, s)
pass_through fd (r ∷ rs) s =
    (elim r.answer [ done n ↦ returned n | fails e ↦ failed e ], called fd s)

unfoldable pub transfer : Kind → Bool → Hooked
transfer k dontwait fd en rs s =
    if dontwait
    then pass_through fd rs s
    else nonblock_guard en.flags (λ f. io_loop k (guards f false) fd (io_timeout en.timeout) rs) s

unfoldable pub hook_send : Bool → Hooked
hook_send = transfer writing

unfoldable pub hook_sendto : Bool → Hooked
hook_sendto = transfer writing

unfoldable pub hook_sendmsg : Bool → Hooked
hook_sendmsg = transfer writing

unfoldable pub hook_recv : Bool → Hooked
hook_recv = transfer reading

unfoldable pub hook_recvfrom : Bool → Hooked
hook_recvfrom = transfer reading

unfoldable pub hook_recvmsg : Bool → Hooked
hook_recvmsg = transfer reading

-- A connect has no limit.
unfoldable pub hook_connect : Hooked
hook_connect fd en rs s =
    nonblock_guard en.flags (λ f. io_loop connecting (guards f false) fd none rs) s

-- The calls that are tried again. An accept4 says whether the platform has it, and what comes of the flags asked for.
pub data Call : Type 0 where
  read write readv writev connect : Call
  accept : Option Errno → Call
  accept4 : Bool → Option Errno → Option Errno → Call
  send sendto sendmsg recv recvfrom recvmsg : Bool → Call

unfoldable pub perform : Call → Hooked
perform read = hook_read
perform write = hook_write
perform readv = hook_readv
perform writev = hook_writev
perform connect = hook_connect
perform (accept e) = hook_accept e
perform (accept4 has applies e) = hook_accept4 has applies e
perform (send b) = hook_send b
perform (sendto b) = hook_sendto b
perform (sendmsg b) = hook_sendmsg b
perform (recv b) = hook_recv b
perform (recvfrom b) = hook_recvfrom b
perform (recvmsg b) = hook_recvmsg b

-- The call that has a second guard of the flags.
abbrev pub falls_back : Call → Bool
falls_back (accept4 false applies e) = true
falls_back _ = false
