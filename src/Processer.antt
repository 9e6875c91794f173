-- ===== src/Processer.antt =====
-- bbt/coroutine/detail/Processer.cc: who may put a coroutine into a processer's queue, how the processer
-- retires, and the driver bound to it. The run queue's order is CfsRunQueue's: here `Take` and `Pick` give
-- any of the queued coroutines, and so do the global queues, which are a library's. A coroutine is named by
-- its id.
pub mod Admission
pub mod Driver
pub mod Sleep
mod Tests
use bbtools_coroutine.Base.{ℕ, Bool, true, false, List, []}

pub data Lifecycle : Type 0 where
  preparing active retiring exited joined : Lifecycle

-- `global_queue` is the scheduler's. The history: `offered` is what was brought to the processer, `refused`
-- what its caller got back, `elsewhere` what another processer admitted, `gone` what ran and is suspended or
-- at its end; `drained` and `emptied`, how far the retirement has come.
pub record Processer : Type 0 where
  pub admission_open : Bool
  pub retire_requested : Bool
  pub lifecycle : Lifecycle
  pub enqueue_inflight : ℕ
  pub coroutine_queue : List ℕ
  pub global_queue : List ℕ
  pub offered : List ℕ
  pub refused : List ℕ
  pub elsewhere : List ℕ
  pub gone : List ℕ
  pub drained : Bool
  pub emptied : Bool

-- `_Init`, and `_Activate` on it.
abbrev pub init : Processer
init = record {
  admission_open = false;
  retire_requested = false;
  lifecycle = preparing;
  enqueue_inflight = 0;
  coroutine_queue = [];
  global_queue = [];
  offered = [];
  refused = [];
  elsewhere = [];
  gone = [];
  drained = false;
  emptied = false;
}

abbrev pub activate : Processer → Processer
activate p = record p { admission_open = true; lifecycle = active }

abbrev pub is_active : Lifecycle → Bool
is_active active = true
is_active _ = false
