-- ===== src/Chan.antt =====
-- bbt/coroutine/sync/__TChan.hpp: the channel with a buffer. Each definition is what one critical section
-- of `m_item_queue_mutex` does to it. The waiter of a writer is named by its id; it is live from its
-- registration until it is notified, times out or is cancelled. The one waiter of the reader is live while
-- `read_live`. The queue of the writers is scanned as that of CoCond is.
pub mod System
pub mod Direct
mod Tests
use bbtools_coroutine.Base.{
  ℕ, zero, suc, Bool, true, false, not, ◌&&◌, ◌||◌, List, [], ◌∷◌, ◌++◌, length, leb, ◌==◌,
  if◌then◌else◌,
}
use bbtools_coroutine.CoRwMutex.{remove}
use bbtools_coroutine.CoCond.{wake_one}

-- `sent` and `received` are the history: what was put into the buffer, and what was taken out of it.
pub record Chan (A : Type 0) : Type 0 where
  pub item_queue : List A
  pub is_closed : Bool
  pub is_reading : Bool
  pub read_live : Bool
  pub write_conds : List ℕ
  pub live : List ℕ
  pub next_id : ℕ
  pub read_watchers : List ℕ
  pub write_watchers : List ℕ
  pub watching : List ℕ
  pub sent : List A
  pub received : List A

abbrev pub none_watch : List ℕ → Bool
none_watch [] = true
none_watch (w ∷ ws) = false

-- `Notify` of each, whatever it returns.
unfoldable pub notify_each : List ℕ → List ℕ → List ℕ
notify_each [] live = live
notify_each (w ∷ ws) live = notify_each ws (remove w live)

module _ {A : Type 0} where
  abbrev pub fresh : Chan A
  fresh = record {
    item_queue = [];
    is_closed = false;
    is_reading = false;
    read_live = false;
    write_conds = [];
    live = [];
    next_id = 0;
    read_watchers = [];
    write_watchers = [];
    watching = [];
    sent = [];
    received = [];
  }

  abbrev pub is_empty : List A → Bool
  is_empty [] = true
  is_empty (x ∷ xs) = false

  abbrev pub is_full : ℕ → Chan A → Bool
  is_full max c = leb max (length c.item_queue)

  -- `_OnEnableRead`
  unfoldable pub on_enable_read : Chan A → Chan A
  on_enable_read c = record c {
    read_live = false;
    watching = notify_each c.read_watchers c.watching;
  }

  -- `_OnEnableWrite`
  unfoldable pub on_enable_write : Chan A → Chan A
  on_enable_write c =
      let (q, left, woke) = wake_one c.write_conds c.live in
      record c { write_conds = q; live = left; watching = notify_each c.write_watchers c.watching }

  -- The item goes into the queue, and whoever waits for one is told.
  unfoldable pub push : A → Chan A → Chan A
  push x c =
      let d : Chan A = record c { item_queue = c.item_queue ++ x ∷ []; sent = c.sent ++ x ∷ [] } in
      if d.is_reading || not (none_watch d.read_watchers) then on_enable_read d else d

  -- The front goes out of the queue, `rest` being what stands behind it.
  unfoldable pub pop : A → List A → Chan A → Chan A
  pop x rest c = on_enable_write (record c { item_queue = rest; received = c.received ++ x ∷ [] })

  -- The loop of `ReadAll`.
  pub pop_all : List A → Chan A → Chan A
  pop_all [] c = c
  pop_all (x ∷ xs) c = pop_all xs (pop x xs c)

  -- `Close`
  unfoldable pub close : Chan A → Chan A
  close c =
      let d : Chan A = record c { is_closed = true } in
      let e = if d.is_reading then on_enable_read d else d in
      if c.is_closed then c else record e {
        write_conds = [];
        live = notify_each c.write_conds c.live;
        watching = notify_each c.write_watchers (notify_each c.read_watchers e.watching);
      }

  -- `AddReadWatcher` and the three others.
  pub add_read_watcher : ℕ → Chan A → Chan A
  add_read_watcher w c = record c { read_watchers = c.read_watchers ++ w ∷ [] }

  pub remove_read_watcher : ℕ → Chan A → Chan A
  remove_read_watcher w c = record c { read_watchers = remove w c.read_watchers }

  pub add_write_watcher : ℕ → Chan A → Chan A
  add_write_watcher w c = record c { write_watchers = c.write_watchers ++ w ∷ [] }

  pub remove_write_watcher : ℕ → Chan A → Chan A
  remove_write_watcher w c = record c { write_watchers = remove w c.write_watchers }

  -- A writer's event is registered, and then `_RegisterEnableWriteCond`: the waiter is queued if the
  -- writer must still wait, and notified at once if not.
  unfoldable pub register_write : Chan A → Chan A
  register_write c = record c { live = c.next_id ∷ c.live; next_id = suc c.next_id }

  unfoldable pub enqueue_write : ℕ → ℕ → Chan A → Chan A
  enqueue_write max id c =
      if not c.is_closed && is_full max c
      then record c { write_conds = c.write_conds ++ id ∷ [] }
      else record c { live = remove id c.live }

  -- `_RecheckEnableRead`
  unfoldable pub recheck_read : Chan A → Chan A
  recheck_read c =
      if not (is_empty c.item_queue) || c.is_closed then record c { read_live = false } else c
