-- ===== src/Chan/System.antt =====
-- Coroutines that write to, read from and close a channel with a buffer, in any interleaving of their
-- critical sections and of their reads of the flag.
pub mod Safety
use bbtools_coroutine.Base.{
  ℕ, zero, suc, Bool, true, false, not, ◌&&◌, ◌||◌, List, [], ◌∷◌, if◌then◌else◌,
}
use bbtools_coroutine.CoRwMutex.{member, remove}
use bbtools_coroutine.Chan.{
  Chan, is_empty, is_full, push, pop, pop_all, close, add_read_watcher, remove_read_watcher,
  add_write_watcher, remove_write_watcher, register_write, enqueue_write, recheck_read,
}

-- What a call gives: 0, -1, -2, 1.
pub data Ret : Type 0 where
  ok closed failed timed_out : Ret

-- `Read`, `ReadAll` and the timed `TryRead`.
pub data Kind : Type 0 where
  read_one read_all read_timed : Kind

-- Where a coroutine stands. A writer has found the channel open; is between its unlock and the
-- registration of its event, between that and the callback, or suspended; has been woken; is about to take
-- the lock again. A reader has set the flag `m_is_reading`, and goes through the same; then it clears it.
pub data Stage (A : Type 0) : Type 0 where
  idle : Ret → Stage A
  write_locks : Bool → A → Stage A
  write_unlocked : Bool → A → Stage A
  write_registered write_parked : Bool → A → ℕ → Stage A
  write_expired : Stage A
  write_woken write_relocks : Bool → A → Stage A
  read_checks read_locks read_unlocked read_registered read_parked : Kind → Stage A
  try_read_locks read_gives_up : Stage A
  releases : Ret → Stage A

-- What a coroutine does next. `goes_on` carries what the surroundings answer: whether the clock says that
-- the limit has passed, and whether the event can be registered.
pub data Move (A : Type 0) : Type 0 where
  writes : Bool → A → Move A
  try_writes : A → Move A
  reads : Kind → Move A
  try_reads closes : Move A
  watches_read watches_write leaves_read leaves_write : ℕ → Move A
  expires : Move A
  goes_on : Bool → Bool → Move A

abbrev pub is_timed : Kind → Bool
is_timed read_timed = true
is_timed _ = false

module _ {A : Type 0} where
  abbrev pub taken : Kind → A → List A → Chan A → Chan A
  taken read_all x rest c = pop_all (x ∷ rest) c
  taken _ x rest c = pop x rest c

  -- The loop of the reads, with the lock held and the queue at `items`, and what follows it.
  unfoldable pub read_front : Bool → Kind → List A → Chan A → Stage A × Chan A
  read_front late kind (x ∷ rest) c = (releases ok, taken kind x rest c)
  read_front late kind [] c =
      if c.is_closed
      then (releases closed, c)
      else (if is_timed kind && late then releases timed_out else read_unlocked kind, c)

  unfoldable pub read_loop : Bool → Kind → Chan A → Stage A × Chan A
  read_loop late kind c = read_front late kind c.item_queue c

  unfoldable pub try_read_front : List A → Chan A → Stage A × Chan A
  try_read_front (x ∷ rest) c = (releases ok, pop x rest c)
  try_read_front [] c = (releases failed, c)

  unfoldable pub try_read : Chan A → Stage A × Chan A
  try_read c = try_read_front c.item_queue c

  -- A read begins. `ReadAll` does not look at the flag first, the timed one does so before it claims the
  -- reading side, and `Read` after it.
  unfoldable pub read_begin : Kind → Chan A → Stage A × Chan A
  read_begin kind c =
      let claims : Stage A → Stage A × Chan A =
        (λ s. if c.is_reading then (idle failed, c) else (s, record c { is_reading = true })) in
      elim kind [
        | read_one ↦ claims (read_checks read_one)
        | read_all ↦ claims (read_locks read_all)
        | read_timed ↦ if c.is_closed then (idle closed, c) else claims (read_locks read_timed)
      ]

  unfoldable pub try_read_begin : Chan A → Stage A × Chan A
  try_read_begin c =
      if c.is_closed
      then (idle closed, c)
      else if c.is_reading
      then (idle failed, c)
      else (try_read_locks, record c { is_reading = true })

  -- The timer or a cancellation ends a wait that has not been notified. A wait without a limit looks away
  -- from which it was, and so does a reader.
  pub expire : Stage A → Chan A → Stage A × Chan A
  expire (write_parked timed x id) c =
      if member id c.live
      then (
        if timed then write_expired else write_parked timed x id,
        record c { live = remove id c.live },
      )
      else (write_parked timed x id, c)
  expire (read_parked kind) c = (read_parked kind, record c { read_live = false })
  expire s c = (s, c)

module _ {A : Type 0} (max : ℕ) where
  -- The loop of `Write` and of the timed `TryWrite`, with the lock held.
  unfoldable pub write_loop : Bool → Bool → A → Chan A → Stage A × Chan A
  write_loop late timed x c =
      if is_full max c
      then (if timed && late then idle timed_out else write_unlocked timed x, c)
      else (idle ok, push x c)

  unfoldable pub write_locked : Bool → Bool → A → Chan A → Stage A × Chan A
  write_locked late timed x c = if c.is_closed then (idle closed, c) else write_loop late timed x c

  -- `TryWrite` after its first look at the flag.
  pub try_write : A → Chan A → Stage A × Chan A
  try_write x c =
      if c.is_closed
      then (idle closed, c)
      else if is_full max c
      then (idle failed, c)
      else (idle ok, push x c)

  unfoldable pub go_on : Bool → Bool → Stage A → Chan A → Stage A × Chan A
  go_on late registers (write_locks timed x) c = write_locked late timed x c
  go_on late registers (write_unlocked timed x) c =
      if registers then (write_registered timed x c.next_id, register_write c) else (idle failed, c)
  go_on late registers (write_registered timed x id) c =
      (write_parked timed x id, enqueue_write max id c)
  go_on late registers (write_parked timed x id) c =
      (if member id c.live then write_parked timed x id else write_woken timed x, c)
  go_on late registers (write_woken timed x) c =
      (if c.is_closed then idle closed else write_relocks timed x, c)
  go_on late registers (write_relocks timed x) c = write_loop late timed x c
  go_on late registers write_expired c = (idle timed_out, c)
  go_on late registers (read_checks kind) c =
      (if c.is_closed && is_empty c.item_queue then releases closed else read_locks kind, c)
  go_on late registers (read_locks kind) c = read_loop late kind c
  go_on late registers (read_unlocked kind) c =
      if registers
      then (read_registered kind, record c { read_live = true })
      else (read_gives_up, c)
  go_on late registers (read_registered kind) c = (read_parked kind, recheck_read c)
  go_on late registers (read_parked kind) c =
      (if c.read_live then read_parked kind else read_locks kind, c)
  go_on late registers try_read_locks c = try_read c
  go_on late registers read_gives_up c = (releases failed, c)
  go_on late registers (releases r) c = (idle r, record c { is_reading = false })
  go_on late registers (idle r) c = (idle r, c)

  -- A move that the coroutine's stage does not allow does nothing.
  unfoldable pub step : Move A → Stage A → Chan A → Stage A × Chan A
  step (writes timed x) (idle r) c = (if c.is_closed then idle closed else write_locks timed x, c)
  step (try_writes x) (idle r) c = try_write x c
  step (reads kind) (idle r) c = read_begin kind c
  step try_reads (idle r) c = try_read_begin c
  step closes (idle r) c = (idle ok, close c)
  step (watches_read w) (idle r) c = (idle ok, add_read_watcher w c)
  step (watches_write w) (idle r) c = (idle ok, add_write_watcher w c)
  step (leaves_read w) (idle r) c = (idle ok, remove_read_watcher w c)
  step (leaves_write w) (idle r) c = (idle ok, remove_write_watcher w c)
  step expires s c = expire s c
  step (goes_on late registers) s c = go_on late registers s c
  step _ s c = (s, c)

  unfoldable pub step_at : ℕ → Move A → List (Stage A) → Chan A → List (Stage A) × Chan A
  step_at i m [] c = ([], c)
  step_at zero m (s ∷ ss) c = let (s', c') = step m s c in (s' ∷ ss, c')
  step_at (suc i) m (s ∷ ss) c = let (ss', c') = step_at i m ss c in (s ∷ ss', c')

  unfoldable pub run : List (ℕ × Move A) → List (Stage A) → Chan A → List (Stage A) × Chan A
  run [] ss c = (ss, c)
  run ((i, m) ∷ ms) ss c = let (ss', c') = step_at i m ss c in run ms ss' c'

abbrev pub all_idle : {A : Type 0} → ℕ → List (Stage A)
all_idle zero = []
all_idle (suc n) = idle ok ∷ all_idle n
