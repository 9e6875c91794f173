-- ===== src/Hook.antt =====
-- bbt/coroutine/detail/Hook.cc: the system calls as a coroutine makes them. What the kernel answers, the clock and what
-- other threads do to the descriptor meanwhile are arguments.
pub mod Io
pub mod Calls
pub mod Sleeps
pub mod Select
mod Tests
use bbtools_coroutine.Base.{ℕ, Bool, true, false}

pub data Errno : Type 0 where
  eagain ewouldblock eintr einprogress ealready eisconn ebadf enomem eio einval : Errno
  other : ℕ → Errno

pub data Outcome : Type 0 where
  returned : ℕ → Outcome
  failed : Errno → Outcome
  thrown waiting : Outcome

-- Which errors of a call mean that it is to be tried again: those of reading, writing, accepting, connecting.
unfoldable pub retries_read : Errno → Bool
retries_read eagain = true
retries_read einprogress = true
retries_read eintr = true
retries_read ewouldblock = true
retries_read _ = false

unfoldable pub retries_write : Errno → Bool
retries_write eagain = true
retries_write eintr = true
retries_write ewouldblock = true
retries_write _ = false

unfoldable pub retries_connect : Errno → Bool
retries_connect eintr = true
retries_connect einprogress = true
retries_connect ealready = true
retries_connect _ = false
