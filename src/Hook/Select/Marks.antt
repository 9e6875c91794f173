-- ===== src/Hook/Select/Marks.antt =====
-- Which descriptors select reports.
use bbtools_coroutine.Base.{
  ℕ, zero, suc, ◌+◌, ◌≤◌, ◌≡◌, refl, ap, ◌==◌, ==_iff, leb, ltb, Bool, true, false, ◌&&◌, ◌||◌, ◌⊎◌,
  inl, inr, if-cases, Option, none, some, List, [], ◌∷◌, map, if◌then◌else◌, arith,
}
use bbtools_coroutine.Hook.{Errno, Outcome, returned, failed, thrown, waiting}
use bbtools_coroutine.Hook.Select.{
  Revents, PollFd, any_event, Look, look_fails, sees, Kernel, fill, count_ready, count_taken,
  look_again, await_epoll, Limit, positive, at_once, unlimited, is_at_once, poll_nothing,
  poll_waits, poll_first, poll_core, FdSet, Sets, in_set, wanted, collect, shows_read, shows_write,
  shows_except, mark, write_back, count_set, marked, select_core,
}

mark-collect :
    (shows : Revents → Bool) (seen : ℕ → Revents) (s : Sets) (n fd j : ℕ)
    → mark shows (map (fill seen) (collect n fd s)) j
      ≡ (leb fd j && ltb j (fd + n) && any_event (wanted s j) && shows (seen j))
unfolding mark collect
mark-collect shows seen s zero fd j = ground arith
mark-collect shows seen s (suc n) fd j =
    ground (arith, mark-collect shows seen s n (suc fd) j, ==_iff fd j)

refill : (f g : ℕ → Revents) (ps : List PollFd) → map (fill g) (map (fill f) ps) ≡ map (fill g) ps
refill f g [] = refl
refill f g (p ∷ ps) = ap (λ (l : List PollFd). fill g p ∷ l) (refill f g ps)

-- What a poll that returns has seen, in one of its looks.
abbrev Saw : Kernel → List PollFd → Outcome × List PollFd → Type 0
Saw k ps (returned n, qs) =
    (seen : ℕ → Revents) × ((k.first ≡ sees seen) ⊎ (k.second ≡ sees seen))
    × (qs ≡ map (fill seen) ps)
Saw k ps (o, qs) = Unit

look_again-Saw :
    (k : Kernel) (f : ℕ → Revents) (ps : List PollFd) (l : Look)
    → k.second ≡ l
    → Saw k ps (look_again l (map (fill f) ps))
unfolding look_again
look_again-Saw k f ps (look_fails e) h = tt
look_again-Saw k f ps (sees g) h = (g, inr h, refill f g ps)

await_epoll-Saw :
    (k : Kernel) (f : ℕ → Revents) (ps : List PollFd) (w : Option Errno)
    → Saw k ps (elim w [
      | some e ↦
          if count_taken k.takes (map (fill f) ps) == 0
          then look_again k.second (map (fill f) ps)
          else (failed e, map (fill f) ps)
      | none ↦ look_again k.second (map (fill f) ps)
    ])
await_epoll-Saw k f ps none = look_again-Saw k f ps k.second refl
await_epoll-Saw k f ps (some e) =
    if-cases (Saw k ps) (count_taken k.takes (map (fill f) ps) == 0) _ _
      (λ _. look_again-Saw k f ps k.second refl) (λ _. tt)

poll_nothing-Saw :
    (k : Kernel) (f : ℕ → Revents) (limit : Limit) (w : Option Errno)
    → k.first ≡ sees f
    → Saw k [] (poll_nothing limit w)
unfolding poll_nothing
poll_nothing-Saw k f positive (some e) h = tt
poll_nothing-Saw k f positive none h = (f, inl h, refl)
poll_nothing-Saw k f at_once w h = (f, inl h, refl)
poll_nothing-Saw k f unlimited w h = (f, inl h, refl)

poll_waits-Saw :
    (k : Kernel) (f : ℕ → Revents) (limit : Limit) (ps : List PollFd)
    → k.first ≡ sees f
    → Saw k ps (poll_waits limit k (map (fill f) ps))
unfolding poll_waits await_epoll
poll_waits-Saw k f limit [] h = poll_nothing-Saw k f limit k.wait h
poll_waits-Saw k f limit (p ∷ ps) h = go k.epoll
  where
    go :
        (e : Option Errno)
        → Saw k (p ∷ ps) (elim e [
          | some e ↦ (failed e, map (fill f) (p ∷ ps))
          | none ↦ await_epoll k (map (fill f) (p ∷ ps))
        ])
    go none = await_epoll-Saw k f (p ∷ ps) k.wait
    go (some e) = tt

poll_core-Saw : (limit : Limit) (k : Kernel) (ps : List PollFd) → Saw k ps (poll_core limit k ps)
unfolding poll_core poll_first
poll_core-Saw limit k ps = go k.first refl
  where
    go : (l : Look) → k.first ≡ l → Saw k ps (poll_first limit k l ps)
    go (look_fails e) h = tt
    go (sees f) h =
        if-cases (Saw k ps) (ltb 0 (count_ready (map (fill f) ps)) || is_at_once limit) _ _
          (λ _. (f, inl h, refl)) (λ _. poll_waits-Saw k f limit ps h)

abbrev pub is_given : Option FdSet → Bool
is_given none = false
is_given (some s) = true

-- A descriptor is reported in a set that is given if it was asked about in any set and shows what the set is for.
abbrev pub Reported : ℕ → Sets → (ℕ → Revents) → Sets → Type 0
Reported nfds s seen t =
    (j : ℕ)
    → let asked = ltb j nfds && any_event (wanted s j) in
      (in_set t.reads j ≡ (is_given s.reads && (asked && shows_read (seen j))))
      × (in_set t.writes j ≡ (is_given s.writes && (asked && shows_write (seen j))))
      × (in_set t.excepts j ≡ (is_given s.excepts && (asked && shows_except (seen j))))

write_back-in_set :
    (shows : Revents → Bool) (seen : ℕ → Revents) (s : Sets) (nfds j : ℕ) (o : Option FdSet)
    → in_set (write_back shows (map (fill seen) (collect nfds 0 s)) o) j
      ≡ (is_given o && ((ltb j nfds && any_event (wanted s j)) && shows (seen j)))
write_back-in_set shows seen s nfds j none = refl
write_back-in_set shows seen s nfds j (some x) = ground (arith, mark-collect shows seen s nfds 0 j)

abbrev pub Described : ℕ → Sets → Kernel → Outcome × Sets → Type 0
Described nfds s k (returned n, t) =
    (seen : ℕ → Revents) × ((k.first ≡ sees seen) ⊎ (k.second ≡ sees seen))
    × Reported nfds s seen t
    × (n ≡ count_set nfds t.reads + count_set nfds t.writes + count_set nfds t.excepts)
Described nfds s k (o, t) = t ≡ s

marked-Described :
    (nfds : ℕ) (s : Sets) (k : Kernel) (o : Outcome × List PollFd)
    → Saw k (collect nfds 0 s) o
    → Described nfds s k (marked nfds s o)
unfolding marked
marked-Described nfds s k (returned n, ps) (seen, h, e) = rw e (
  seen,
  h,
  (λ j. (
    write_back-in_set shows_read seen s nfds j s.reads,
    write_back-in_set shows_write seen s nfds j s.writes,
    write_back-in_set shows_except seen s nfds j s.excepts,
  )),
  refl,
)
marked-Described nfds s k (failed x, ps) h = refl
marked-Described nfds s k (thrown, ps) h = refl
marked-Described nfds s k (waiting, ps) h = refl

-- A select of a coroutine on at most 1024 descriptors, with any answers of the kernel. If it returns, it reports what
-- the kernel showed in one of the two looks: a descriptor stands in a set that was given exactly if it was asked about in
-- any of the sets and shows what the set is for, a hang-up, an error or a closed descriptor counting for reading
-- and for writing; and the number is that of the marks. If it does not return, the sets are as they were.
pub select_core-Described :
    (nfds : ℕ) (s : Sets) (limit : Limit) (k : Kernel)
    → nfds ≤ 1024
    → Described nfds s k (select_core nfds s limit k)
unfolding select_core
select_core-Described nfds s limit k h =
    if-cases (Described nfds s k) (ltb 1024 nfds) _ _ (λ e. absurd (ground (arith, e)))
      (λ _.
        marked-Described nfds s k (poll_core limit k (collect nfds 0 s))
          (poll_core-Saw limit k (collect nfds 0 s)))
