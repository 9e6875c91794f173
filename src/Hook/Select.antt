-- ===== src/Hook/Select.antt =====
-- bbt/coroutine/detail/Hook.cc: poll and select in a coroutine: a look that does not wait, a wait on a descriptor of epoll that stands for all, and
-- a second look. What the kernel answers is an argument.
pub mod Marks
use bbtools_coroutine.Base.{
  ℕ, zero, suc, ◌+◌, ◌≤◌, ◌<◌, ◌≡◌, refl, ◌==◌, ==_iff, leb, ltb, bit, Bool, true, false, not, ◌&&◌,
  ◌||◌, Bool-cases, inl, inr, Option, none, some, List, [], ◌∷◌, map, length, sum, if◌then◌else◌,
  arith,
}
use bbtools_coroutine.Hook.{Errno, einval, Outcome, returned, failed}

-- The bits of `events` and `revents` that the code reads.
pub record Events : Type 0 where
  pub pollin : Bool
  pub pollout : Bool
  pub pollpri : Bool

pub record Revents : Type 0 where
  pub ready : Events
  pub hup : Bool
  pub err : Bool
  pub nval : Bool

pub record PollFd : Type 0 where
  pub fd : ℕ
  pub events : Events
  pub revents : Revents

abbrev pub no_revents : Revents
no_revents = record {
  ready = record { pollin = false; pollout = false; pollpri = false };
  hup = false;
  err = false;
  nval = false;
}

abbrev pub any_event : Events → Bool
any_event e = e.pollin || e.pollout || e.pollpri

abbrev pub is_ready : PollFd → Bool
is_ready p = any_event p.revents.ready || p.revents.hup || p.revents.err || p.revents.nval

-- A look: it fails, or says of each descriptor what is up.
pub data Look : Type 0 where
  look_fails : Errno → Look
  sees : (ℕ → Revents) → Look

-- What the kernel answers: two looks, whether epoll can be had and takes a descriptor, and how the wait ends.
pub record Kernel : Type 0 where
  pub first : Look
  pub epoll : Option Errno
  pub takes : ℕ → Bool
  pub wait : Option Errno
  pub second : Look

abbrev pub fill : (ℕ → Revents) → PollFd → PollFd
fill seen p = record p { revents = seen p.fd }

unfoldable pub count_ready : List PollFd → ℕ
unfolding sum
count_ready ps = sum (λ p. bit (is_ready p)) ps

unfoldable pub count_taken : (ℕ → Bool) → List PollFd → ℕ
unfolding sum
count_taken takes ps = sum (λ p. bit (any_event p.events && takes p.fd)) ps

-- The second look.
unfoldable pub look_again : Look → List PollFd → Outcome × List PollFd
look_again (look_fails e) ps = (failed e, ps)
look_again (sees f) ps = let qs = map (fill f) ps in (returned (count_ready qs), qs)

unfoldable pub await_epoll : Kernel → List PollFd → Outcome × List PollFd
await_epoll k ps = elim k.wait [
  | some e ↦ if count_taken k.takes ps == 0 then look_again k.second ps else (failed e, ps)
  | none ↦ look_again k.second ps
]

-- A time limit: 0, so many milliseconds, or a negative number.
pub data Limit : Type 0 where
  at_once positive unlimited : Limit

abbrev pub is_at_once : Limit → Bool
is_at_once at_once = true
is_at_once _ = false

-- With no descriptor only a positive limit is waited for.
unfoldable pub poll_nothing : Limit → Option Errno → Outcome × List PollFd
poll_nothing positive (some e) = (failed e, [])
poll_nothing _ _ = (returned 0, [])

unfoldable pub poll_waits : Limit → Kernel → List PollFd → Outcome × List PollFd
poll_waits limit k [] = poll_nothing limit k.wait
poll_waits limit k (p ∷ ps) = elim k.epoll [
  | some e ↦ (failed e, p ∷ ps)
  | none ↦ await_epoll k (p ∷ ps)
]

-- `PollCore`
unfoldable pub poll_first : Limit → Kernel → Look → List PollFd → Outcome × List PollFd
poll_first limit k (look_fails e) ps = (failed e, ps)
poll_first limit k (sees f) ps =
    let qs = map (fill f) ps in
    if ltb 0 (count_ready qs) || is_at_once limit
    then (returned (count_ready qs), qs)
    else poll_waits limit k qs

unfoldable pub poll_core : Limit → Kernel → List PollFd → Outcome × List PollFd
poll_core limit k ps = poll_first limit k k.first ps

abbrev pub FdSet : Type 0
FdSet = ℕ → Bool

pub record Sets : Type 0 where
  pub reads : Option FdSet
  pub writes : Option FdSet
  pub excepts : Option FdSet

abbrev pub in_set : Option FdSet → ℕ → Bool
in_set none fd = false
in_set (some s) fd = s fd

abbrev pub wanted : Sets → ℕ → Events
wanted s fd = record {
  pollin = in_set s.reads fd;
  pollout = in_set s.writes fd;
  pollpri = in_set s.excepts fd;
}

abbrev pub entry : Sets → ℕ → PollFd
entry s fd = record { fd = fd; events = wanted s fd; revents = no_revents }

-- The loop over the descriptors from `fd` on.
unfoldable pub collect : ℕ → ℕ → Sets → List PollFd
collect zero fd s = []
collect (suc n) fd s =
    let rest = collect n (suc fd) s in if any_event (wanted s fd) then entry s fd ∷ rest else rest

abbrev pub troubled : Revents → Bool
troubled r = r.hup || r.err || r.nval

abbrev pub shows_read : Revents → Bool
shows_read r = r.ready.pollin || troubled r

abbrev pub shows_write : Revents → Bool
shows_write r = r.ready.pollout || troubled r

abbrev pub shows_except : Revents → Bool
shows_except r = r.ready.pollpri

-- A set after it was cleared and marked.
unfoldable pub mark : (Revents → Bool) → List PollFd → FdSet
mark shows [] fd = false
mark shows (p ∷ ps) fd = (p.fd == fd && shows p.revents) || mark shows ps fd

abbrev pub write_back : (Revents → Bool) → List PollFd → Option FdSet → Option FdSet
write_back shows ps none = none
write_back shows ps (some s) = some (mark shows ps)

unfoldable pub count_set : ℕ → Option FdSet → ℕ
count_set zero s = 0
count_set (suc n) s = bit (in_set s n) + count_set n s

unfoldable pub marked : ℕ → Sets → Outcome × List PollFd → Outcome × Sets
marked nfds s (returned n, ps) =
    let t : Sets = record {
      reads = write_back shows_read ps s.reads;
      writes = write_back shows_write ps s.writes;
      excepts = write_back shows_except ps s.excepts;
    } in
    (returned (count_set nfds t.reads + count_set nfds t.writes + count_set nfds t.excepts), t)
marked nfds s (o, ps) = (o, s)

-- `SelectCore`, for a number of descriptors that is not negative.
unfoldable pub select_core : ℕ → Sets → Limit → Kernel → Outcome × Sets
select_core nfds s limit k =
    if ltb 1024 nfds
    then (failed einval, s)
    else marked nfds s (poll_core limit k (collect nfds 0 s))
