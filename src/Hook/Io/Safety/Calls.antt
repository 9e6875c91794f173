-- ===== src/Hook/Io/Safety/Calls.antt =====
-- Each of the hooked calls.
use bbtools_coroutine.Base.{
  ℕ, ◌<◌, ◌≡◌, refl, Bool, true, false, ◌⊎◌, inl, inr, if-cases, Bool-cases, Option, none, some,
  List, [], ◌∷◌, All,
}
use bbtools_coroutine.Base.Size.{word}
use bbtools_coroutine.Base.Map.{Unique}
use bbtools_coroutine.PollEvent.Slots.{fd_key, Slots, fd_epoch}
use bbtools_coroutine.Coroutine.{Coroutine}
use bbtools_coroutine.Hook.{Errno, ebadf, Outcome, returned, failed, thrown, waiting}
use bbtools_coroutine.Hook.Io.{
  done, fails, Round, Io, Kind, called, restore, reading, writing, connecting, io_timeout, io_loop,
  on_table,
}
use bbtools_coroutine.Hook.Calls.{
  Flags, unreadable, nonblocking, blocking, Entry, nonblock_guard, guards, hook_read, hook_write,
  hook_readv, hook_writev, settle_accepted, hook_accept, hook_accept4, pass_through, transfer,
  hook_send, hook_sendto, hook_sendmsg, hook_recv, hook_recvfrom, hook_recvmsg, hook_connect, Call,
  read, write, readv, writev, connect, accept, accept4, send, sendto, sendmsg, recv, recvfrom,
  recvmsg, perform, close_guard, falls_back,
}
use bbtools_coroutine.Hook.Io.Safety.{
  Settled, Within, Ends, EndsBeside, Holds, Ends-Beside, io_loop-Ends,
}

module _ (fd e : ℕ) where
  abbrev Fine : (Io → Outcome × Io) → Type 0
  Fine call = (s : Io) → Holds fd e s → Ends fd e (call s)

  unchanged : (o : Outcome) (s : Io) → Holds fd e s → Ends fd e (o, s)
  unchanged o s (u, n, lt, c, f, w) = (c, inl f, inl w, inl n)

  guard-Fine :
      (f : Flags) (call : Bool → Io → Outcome × Io)
      → ((b : Bool) → Fine (call b))
      → Fine (nonblock_guard f call)
  unfolding nonblock_guard
  guard-Fine (unreadable x) call h s = unchanged (failed x) s
  guard-Fine nonblocking call h s = h false s
  guard-Fine (blocking none) call h s = h true s
  guard-Fine (blocking (some x)) call h s = unchanged (failed x) s

  settle-Ends :
      (x : Option Errno) (o : Outcome × Io) → Ends fd e o → Ends fd e (settle_accepted x o)
  unfolding settle_accepted
  settle-Ends none o h = h
  settle-Ends (some x) (returned n, s) (c, f, w, inl k) = (c, f, w, inl k)
  settle-Ends (some x) (returned n, s) (c, f, w, inr (k, _, _)) = absurd (cc)
  settle-Ends (some x) (failed y, s) h = h
  settle-Ends (some x) (thrown, s) h = h
  settle-Ends (some x) (waiting, s) h = h

  pass-Fine : (rs : List Round) → Fine (pass_through fd rs)
  unfolding pass_through
  pass-Fine [] s h = unchanged waiting s h
  pass-Fine (r ∷ rs) s (u, n, lt, c, f, w) =
      unchanged (elim r.answer [ done k ↦ returned k | fails x ↦ failed x ]) (called fd s)
        (u, n, lt, (n, c), f, w)

  -- The outer guard of an accept4 that falls back.
  close_guard-Ends :
      (f : Bool) (o : Outcome × Io) → Ends fd e o → EndsBeside fd e (close_guard f fd o)
  unfolding close_guard restore
  close_guard-Ends true (returned n, s) h = Ends-Beside fd e (returned n, s) h
  close_guard-Ends true (failed x, s) h = Ends-Beside fd e (failed x, s) h
  close_guard-Ends true (thrown, s) h = Ends-Beside fd e (thrown, s) h
  close_guard-Ends true (waiting, s) h = Ends-Beside fd e (waiting, s) h
  close_guard-Ends false (returned n, s) h = Ends-Beside fd e (returned n, s) h
  close_guard-Ends false (failed x, s) h = Ends-Beside fd e (failed x, s) h
  close_guard-Ends false (thrown, s) h = Ends-Beside fd e (thrown, s) h
  close_guard-Ends false (waiting, s) h = Ends-Beside fd e (waiting, s) h

  -- The part of a call under a guard, by what it keeps.
  guard-EndsBeside :
      (f : Flags) (call : Bool → Io → Outcome × Io) (s : Io)
      → Holds fd e s
      → ((b : Bool) → EndsBeside fd e (call b s))
      → EndsBeside fd e (nonblock_guard f call s)
  unfolding nonblock_guard
  guard-EndsBeside (unreadable x) call s h g =
      Ends-Beside fd e (failed x, s) (unchanged (failed x) s h)
  guard-EndsBeside nonblocking call s h g = g false
  guard-EndsBeside (blocking none) call s h g = g true
  guard-EndsBeside (blocking (some x)) call s h g =
      Ends-Beside fd e (failed x, s) (unchanged (failed x) s h)

  module _ (en : Entry) (rs : List Round) (t : All (Settled fd) rs) where
    loop-Fine :
        (k : Kind) (o : Bool) (limit : Option ℕ)
        → Fine (nonblock_guard en.flags (λ f. io_loop k (guards f o) fd limit rs))
    loop-Fine k o limit =
        guard-Fine en.flags (λ f. io_loop k (guards f o) fd limit rs)
          (λ f s h. io_loop-Ends fd e k (guards f o) limit rs s t h)

    accept-Fine : (x : Option Errno) → Fine (hook_accept x fd en rs)
    unfolding hook_accept
    accept-Fine x = guard-Fine en.flags _ (λ f s h.
        settle-Ends x _
          (io_loop-Ends fd e writing (guards f false) (io_timeout en.timeout) rs s t h))

    transfer-Fine : (k : Kind) (b : Bool) → Fine (transfer k b fd en rs)
    unfolding transfer
    transfer-Fine k b s h =
        if-cases (Ends fd e) b _ _ (λ _. pass-Fine rs s h)
          (λ _. loop-Fine k false (io_timeout en.timeout) s h)

    fallback-Ends :
        (a x : Option Errno) (s : Io)
        → Holds fd e s
        → EndsBeside fd e (hook_accept4 false a x fd en rs s)
    unfolding hook_accept4 hook_accept nonblock_guard
    fallback-Ends a x s h = guard-EndsBeside en.flags _ s h (λ f. close_guard-Ends f _ (
        settle-Ends a _ (
          settle-Ends x _
            (io_loop-Ends fd e writing (guards false false) (io_timeout en.timeout) rs s t h))))

    perform-Fine : (c : Call) → falls_back c ≡ false → Fine (perform c fd en rs)
    unfolding perform hook_read hook_write hook_readv hook_writev hook_connect hook_accept4
        hook_send hook_sendto hook_sendmsg hook_recv hook_recvfrom hook_recvmsg
    perform-Fine read k = loop-Fine reading en.seekable (io_timeout en.timeout)
    perform-Fine write k = loop-Fine writing en.seekable (io_timeout en.timeout)
    perform-Fine readv k = loop-Fine reading en.seekable (io_timeout en.timeout)
    perform-Fine writev k = loop-Fine writing en.seekable (io_timeout en.timeout)
    perform-Fine connect k = loop-Fine connecting false none
    perform-Fine (accept x) k = accept-Fine x
    perform-Fine (accept4 true a x) k = accept-Fine x
    perform-Fine (accept4 false a x) k = absurd (cc)
    perform-Fine (send b) k = transfer-Fine writing b
    perform-Fine (sendto b) k = transfer-Fine writing b
    perform-Fine (sendmsg b) k = transfer-Fine writing b
    perform-Fine (recv b) k = transfer-Fine reading b
    perform-Fine (recvfrom b) k = transfer-Fine reading b
    perform-Fine (recvmsg b) k = transfer-Fine reading b

    perform-EndsBeside : (c : Call) (s : Io) → Holds fd e s → EndsBeside fd e (perform c fd en rs s)
    unfolding perform
    perform-EndsBeside (accept4 false a x) s h = fallback-Ends a x s h
    perform-EndsBeside c s h = Ends-Beside fd e (perform c fd en rs s) (perform-Fine c refl s h)

-- A coroutine reads, writes, sends, receives, accepts or connects on a descriptor, with any answers of the kernel and
-- any wake-ups. Other threads work on the table of descriptors meanwhile; they claim this one for closing only
-- while the coroutine awaits an event of it, and fewer than 2^64 times in one wait. Then every system call is made
-- in the generation that the descriptor had at first; its offset is written back in that one or not at all; and if its
-- generation is another one in the end, the call has failed with EBADF and has not written the offset back. The same
-- holds of its flags, except for an accept4 on a platform without it, which falls back on accept.
pub perform-Ends :
    (c : Call) (fd : ℕ) (en : Entry) (rs : List Round) (m : Slots) (d : Coroutine)
    → Unique m
    → fd_epoch fd m < word
    → All (Settled fd) rs
    → let e = fd_epoch fd m in
      let (o, s) = perform c fd en rs (on_table m d) in
      All (λ g. g ≡ e) s.calls
      × Within e s.offset_back
      × ((fd_epoch fd s.table ≡ e) ⊎ ((o ≡ failed ebadf) × (s.offset_back ≡ none)))
      × ((falls_back c ≡ true)
          ⊎ Within e s.flags_back × ((fd_epoch fd s.table ≡ e) ⊎ (s.flags_back ≡ none)))
perform-Ends c fd en rs m d u lt t =
    let e = fd_epoch fd m in
    let h : Holds fd e (on_table m d) = (u, refl, lt, tt, refl, refl) in
    let (calls, offset, moved) = perform-EndsBeside fd e en rs t c (on_table m d) h in
    (
      calls,
      offset,
      moved,
      elim (Bool-cases (falls_back c)) [
        | inl k ↦ inl k
        | inr k ↦
            let (_, flags, _, gone) = perform-Fine fd e en rs t c k (on_table m d) h in
            inr (flags, elim gone [ inl same ↦ inl same | inr (_, f, _) ↦ inr f ])
      ],
    )
