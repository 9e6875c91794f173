-- ===== src/Chan/Direct.antt =====
-- bbt/coroutine/sync/__TChan.hpp: the channel without a buffer, Chan<T, 0>, whose Write waits until its item is
-- read. It inherits the flags and the queue of waiting writers; the calls that it takes over unchanged, on the
-- queue of the class above it, are those of Chan/System.
pub mod Safety
use bbtools_coroutine.Base.{
  ℕ, zero, suc, ◌+◌, ◌%◌, ◌^◌, Bool, true, false, not, ◌&&◌, ◌||◌, List, [], ◌∷◌, ◌++◌, leb, ltb,
  ◌==◌, if◌then◌else◌,
}
use bbtools_coroutine.CoRwMutex.{member, remove}
use bbtools_coroutine.Chan.{
  Chan, fresh, notify_each, on_enable_read, on_enable_write, register_write,
}

-- `sent` and `received` are the history.
pub record Direct (A : Type 0) : Type 0 where
  pub base : Chan A
  pub item_cache_ref : List A
  pub read_idx : ℕ
  pub write_idx : ℕ
  pub sent : List A
  pub received : List A

-- What a call gives: 0, -1, -2.
pub data Ret : Type 0 where
  ok closed failed : Ret

-- Where a coroutine stands: as in Chan/System, a writer with the index of its item and the id of its waiter.
-- `broken` is a read of the front of an empty queue.
pub data Stage (A : Type 0) : Type 0 where
  idle : Ret → Stage A
  write_locks : A → Stage A
  write_unlocked : ℕ → Stage A
  write_registered write_parked : ℕ → ℕ → Stage A
  read_checks read_locks read_unlocked read_registered read_parked read_gives_up : Stage A
  releases : Ret → Stage A
  broken : Stage A

pub data Move (A : Type 0) : Type 0 where
  writes : A → Move A
  reads closes expires : Move A
  goes_on : Bool → Move A

module _ {A : Type 0} where
  abbrev pub new_direct : Direct A
  new_direct = record {
    base = fresh;
    item_cache_ref = [];
    read_idx = 0;
    write_idx = 0;
    sent = [];
    received = [];
  }

  abbrev pub unread : Direct A → Bool
  unread d = ltb d.read_idx d.write_idx

  -- The critical section of `Write`.
  unfoldable pub enqueue : A → Direct A → Stage A × Direct A
  enqueue x d =
      let e : Direct A = record d {
        item_cache_ref = d.item_cache_ref ++ x ∷ [];
        write_idx = (d.write_idx + 1) % 2 ^ 64;
        sent = d.sent ++ x ∷ [];
      } in
      if d.base.is_reading && d.write_idx == d.read_idx
      then (idle ok, record e { base = on_enable_read d.base })
      else (write_unlocked d.write_idx, e)

  -- `_RegisterEnableWriteCond` with the predicate of `Write`.
  pub enqueue_write : ℕ → ℕ → Direct A → Direct A
  enqueue_write i id d =
      let c = d.base in
      if not c.is_closed && leb d.read_idx i
      then record d { base = record c { write_conds = c.write_conds ++ id ∷ [] } }
      else record d { base = record c { live = remove id c.live } }

  unfoldable pub take_front : List A → Direct A → Stage A × Direct A
  take_front [] d = (broken, d)
  take_front (x ∷ rest) d = (
    releases ok,
    record d {
      item_cache_ref = rest;
      read_idx = (d.read_idx + 1) % 2 ^ 64;
      base = on_enable_write d.base;
      received = d.received ++ x ∷ [];
    },
  )

  -- The loop of `Read` with the lock held, and what follows it.
  unfoldable pub read_loop : Direct A → Stage A × Direct A
  read_loop d =
      if unread d
      then take_front d.item_cache_ref d
      else (if d.base.is_closed then releases closed else read_unlocked, d)

  -- `Close`
  pub close : Direct A → Direct A
  close d =
      let c : Chan A = record (d.base) { is_closed = true } in
      let e = if c.is_reading then on_enable_read c else c in
      if d.base.is_closed then d else record d {
        base = record e { write_conds = []; live = notify_each d.base.write_conds d.base.live };
      }

  pub recheck_read : Direct A → Direct A
  recheck_read d =
      if unread d || d.base.is_closed
      then record d { base = record (d.base) { read_live = false } }
      else d

  unfoldable pub go_on : Bool → Stage A → Direct A → Stage A × Direct A
  go_on registers (write_locks x) d = enqueue x d
  go_on registers (write_unlocked i) d =
      if registers
      then (write_registered i d.base.next_id, record d { base = register_write d.base })
      else (idle failed, d)
  go_on registers (write_registered i id) d = (write_parked i id, enqueue_write i id d)
  go_on registers (write_parked i id) d =
      (if member id d.base.live then write_parked i id else idle ok, d)
  go_on registers read_checks d =
      (if d.base.is_closed && not (unread d) then releases closed else read_locks, d)
  go_on registers read_locks d = read_loop d
  go_on registers read_unlocked d =
      if registers
      then (read_registered, record d { base = record (d.base) { read_live = true } })
      else (read_gives_up, d)
  go_on registers read_registered d = (read_parked, recheck_read d)
  go_on registers read_parked d = (if d.base.read_live then read_parked else read_locks, d)
  go_on registers read_gives_up d = (releases failed, d)
  go_on registers (releases r) d =
      (idle r, record d { base = record (d.base) { is_reading = false } })
  go_on registers s d = (s, d)

  -- The timer of the reader's wait, which it looks away from, or a cancellation.
  pub expire : Stage A → Direct A → Stage A × Direct A
  expire (write_parked i id) d =
      (write_parked i id, record d { base = record (d.base) { live = remove id d.base.live } })
  expire read_parked d = (read_parked, record d { base = record (d.base) { read_live = false } })
  expire s d = (s, d)

  -- A move that the coroutine's stage does not allow does nothing.
  unfoldable pub step : Move A → Stage A → Direct A → Stage A × Direct A
  step (writes x) (idle r) d = (if d.base.is_closed then idle closed else write_locks x, d)
  step reads (idle r) d =
      if d.base.is_reading
      then (idle failed, d)
      else (read_checks, record d { base = record (d.base) { is_reading = true } })
  step closes (idle r) d = (idle ok, close d)
  step expires s d = expire s d
  step (goes_on registers) s d = go_on registers s d
  step m s d = (s, d)

  unfoldable pub step_at : ℕ → Move A → List (Stage A) → Direct A → List (Stage A) × Direct A
  step_at i m [] d = ([], d)
  step_at zero m (s ∷ ss) d = let (s', d') = step m s d in (s' ∷ ss, d')
  step_at (suc i) m (s ∷ ss) d = let (ss', d') = step_at i m ss d in (s ∷ ss', d')

  unfoldable pub run : List (ℕ × Move A) → List (Stage A) → Direct A → List (Stage A) × Direct A
  run [] ss d = (ss, d)
  run ((i, m) ∷ ms) ss d = let (ss', d') = step_at i m ss d in run ms ss' d'

abbrev pub all_idle : {A : Type 0} → ℕ → List (Stage A)
all_idle zero = []
all_idle (suc n) = idle ok ∷ all_idle n
