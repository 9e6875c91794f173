-- ===== src/Processer/Admission.antt =====
-- bbt/coroutine/detail/Processer.cc: coroutines come into a processer's queue, are run, stolen and pulled, and
-- the processer retires, in any interleaving of the atomic steps.
pub mod Safety
use bbtools_coroutine.Base.Bags.{take_at}
use bbtools_coroutine.Base.{
  ℕ, zero, suc, ◌-◌, ◌==◌, Bool, true, false, ◌&&◌, Option, none, some, List, [], ◌∷◌, ◌++◌,
  if◌then◌else◌,
}
use bbtools_coroutine.Processer.{Processer, Lifecycle, active, retiring, exited, joined, is_active}

-- Who enqueues: a caller that keeps a refused coroutine, one that puts it into the global queue instead, or the
-- processer itself, which then wants so many more from the global queue.
pub data Origin : Type 0 where
  caller forwarder : Origin
  worker : ℕ → Origin

-- Where a thread stands. `_EnqueueAdmitted`: it found the admission open; has counted itself; has found it
-- open again; is about to give its slot back. A thief wants so many more, or holds one that it took. The
-- processer itself runs a coroutine, pulls from the global queue, or retires.
pub data Stage : Type 0 where
  idle : Stage
  enqueues rechecks publishes : Origin → ℕ → Stage
  releases : Origin → ℕ → Bool → Stage
  returns : Origin → ℕ → Stage
  steals : ℕ → Stage
  hands : ℕ → ℕ → Stage
  working : Stage
  runs : ℕ → Stage
  pulls : ℕ → Stage
  quiesces drains : Stage
  drains_item : ℕ → Stage
  exits exited_at : Stage
  retires_lifecycle retires_requests : Stage

-- What a thread does next. `goes_on` carries what the surroundings answer: a position in a queue, and a yes
-- or no.
pub data Move : Type 0 where
  offers forwards robs polls picks : ℕ → Move
  retires : Move
  goes_on : ℕ → Bool → Move

abbrev pub after : Origin → Stage
after (worker n) = pulls n
after _ = idle

unfoldable pub rejected : Origin → ℕ → Processer → Stage × Processer
rejected caller x p = (idle, record p { refused = x ∷ p.refused })
rejected o x p = (returns o x, p)

unfoldable pub enqueue_begin : Origin → ℕ → Processer → Stage × Processer
enqueue_begin o x p = if p.admission_open then (enqueues o x, p) else rejected o x p

abbrev pub offer : ℕ → Processer → Processer
offer x p = record p { offered = x ∷ p.offered }

-- `_ReleaseEnqueueSlot`, and what the caller of `_EnqueueAdmitted` does with its answer.
unfoldable pub release : Origin → ℕ → Bool → Processer → Stage × Processer
release o x enqueued p =
    let q : Processer = record p { enqueue_inflight = p.enqueue_inflight - 1 } in
    if enqueued then (after o, q) else rejected o x q

-- One round of the loop of `Steal`.
pub steal_front : ℕ → Option (ℕ × List ℕ) → Processer → Stage × Processer
steal_front n none p = (idle, p)
steal_front n (some (x, rest)) p = (hands n x, record p { coroutine_queue = rest })

unfoldable pub drain_front : Option (ℕ × List ℕ) → Processer → Stage × Processer
drain_front none p = (exits, record p { emptied = true })
drain_front (some (x, rest)) p = (drains_item x, record p { coroutine_queue = rest })

pub pick_front : Option (ℕ × List ℕ) → Processer → Stage × Processer
pick_front none p = (working, p)
pick_front (some (x, rest)) p = (runs x, record p { coroutine_queue = rest })

-- A round of `GetCoroutineFromGlobal`.
pub pull_front : ℕ → Option (ℕ × List ℕ) → Processer → Stage × Processer
pull_front n none p = (working, p)
pull_front n (some (x, rest)) p = enqueue_begin (worker n) x (record p { global_queue = rest })

abbrev pub to_global : ℕ → Processer → Processer
to_global x p = record p { global_queue = p.global_queue ++ x ∷ [] }

unfoldable pub go_on : ℕ → Bool → Stage → Processer → Stage × Processer
go_on n agrees (enqueues o x) p =
    (rechecks o x, record p { enqueue_inflight = suc p.enqueue_inflight })
go_on n agrees (rechecks o x) p =
    (if p.admission_open then publishes o x else releases o x false, p)
go_on n agrees (publishes o x) p =
    if agrees
    then (releases o x true, record p { coroutine_queue = p.coroutine_queue ++ x ∷ [] })
    else (releases o x false, p)
go_on n agrees (releases o x enqueued) p = release o x enqueued p
go_on n agrees (returns o x) p = (after o, to_global x p)
go_on n agrees (steals zero) p = (idle, p)
go_on n agrees (steals (suc k)) p = steal_front k (take_at n p.coroutine_queue) p
go_on n agrees (hands k x) p =
    if agrees
    then (steals k, record p { elsewhere = x ∷ p.elsewhere })
    else (returns forwarder x, p)
go_on n agrees working p = (if p.retire_requested then quiesces else working, p)
go_on n agrees (runs x) p =
    if agrees then enqueue_begin (worker 0) x p else (working, record p { gone = x ∷ p.gone })
go_on n agrees (pulls zero) p = (working, p)
go_on n agrees (pulls (suc k)) p = pull_front k (take_at n p.global_queue) p
go_on n agrees quiesces p =
    if p.enqueue_inflight == 0 then (drains, record p { drained = true }) else (quiesces, p)
go_on n agrees drains p = drain_front (take_at n p.coroutine_queue) p
go_on n agrees (drains_item x) p = (drains, to_global x p)
go_on n agrees exits p = (exited_at, record p { lifecycle = exited })
go_on n agrees retires_lifecycle p = (retires_requests, record p { lifecycle = retiring })
go_on n agrees retires_requests p = (idle, record p { retire_requested = true })
go_on n agrees s p = (s, p)

-- `_TryGetCoroutineFromGlobal`, `Steal` and `_BeginRetire` up to their first look or store.
abbrev pub poll : ℕ → Processer → Stage × Processer
poll n p = (if p.admission_open then pulls n else working, p)

abbrev pub steal : ℕ → Processer → Stage × Processer
steal n p = (if p.admission_open && is_active p.lifecycle then steals n else idle, p)

abbrev pub begin_retire : Processer → Stage × Processer
begin_retire p = (retires_lifecycle, record p { admission_open = false })

-- A move that the thread's stage does not allow does nothing.
unfoldable pub step : Move → Stage → Processer → Stage × Processer
step (offers x) idle p = enqueue_begin caller x (offer x p)
step (forwards x) idle p = enqueue_begin forwarder x (offer x p)
step (robs n) idle p = steal n p
step retires idle p = begin_retire p
step (polls n) working p = poll n p
step (picks n) working p = pick_front (take_at n p.coroutine_queue) p
step (goes_on n agrees) s p = go_on n agrees s p
step _ s p = (s, p)

unfoldable pub step_at : ℕ → Move → List Stage → Processer → List Stage × Processer
step_at i m [] p = ([], p)
step_at zero m (s ∷ ss) p = let (s', p') = step m s p in (s' ∷ ss, p')
step_at (suc i) m (s ∷ ss) p = let (ss', p') = step_at i m ss p in (s ∷ ss', p')

unfoldable pub run : List (ℕ × Move) → List Stage → Processer → List Stage × Processer
run [] ss p = (ss, p)
run ((i, m) ∷ ms) ss p = let (ss', p') = step_at i m ss p in run ms ss' p'

-- The processer's own thread is the first one.
abbrev pub all_idle : ℕ → List Stage
all_idle zero = []
all_idle (suc n) = idle ∷ all_idle n

abbrev pub threads : ℕ → List Stage
threads n = working ∷ all_idle n
