-- ===== src/PollEvent.antt =====
-- bbt/coroutine/detail/CoPollEvent.cc: one wait of a coroutine, and the table of the waits on each
-- file descriptor.
pub mod State
pub mod Slots
pub mod Machine
mod Tests
