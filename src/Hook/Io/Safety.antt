-- ===== src/Hook/Io/Safety.antt =====
-- A call stays with the file that the descriptor named when it began.
pub mod Calls
use bbtools_coroutine.Base.{
  ℕ, zero, suc, ◌+◌, ◌%◌, ◌≤◌, ◌<◌, ◌≡◌, refl, sym, ap, ◌∙◌, ◌==◌, ltb, Bool, true, false, not,
  ◌&&◌, ◌||◌, ◌⊎◌, inl, inr, Bool-cases, if-cases, Option, none, some, List, [], ◌∷◌, length, All,
  if◌then◌else◌, arith,
}
use bbtools_coroutine.Base.Size.{word}
use bbtools_coroutine.Base.Map.{Unique}
use bbtools_coroutine.PollEvent.State.{final}
use bbtools_coroutine.PollEvent.Slots.{
  fd_key, Slots, Op, begins, tracks, untracks, ends, establishes, fd_epoch, establish, step, run,
  claim, claims, fd_is_closing,
}
use bbtools_coroutine.PollEvent.Slots.Laws.{step-Refines}
use bbtools_coroutine.PollEvent.Slots.Closing.{fd_epoch-run}
use bbtools_coroutine.Coroutine.{AwaitEvent, Coroutine, on_co_poll_event, fd_wait_epoch_valid}
use bbtools_coroutine.Coroutine.Wakes.{fd_wait_epoch_valid-claims}
use bbtools_coroutine.Hook.{Errno, eisconn, ebadf, Outcome, returned, failed, thrown, waiting}
use bbtools_coroutine.Hook.Io.{
  Others, Answer, done, fails, Wait, cancelled, not_set_up, throws, wakes, Round, Io, Guards, Kind,
  Ready, ready, replaced, refused, raised, woken, end_wait, out_of_time, co_wait_fd_ready, back,
  restore, dismiss_offset, reset_connect_state, called, others, is_connected, after_wait,
  after_call, io_loop,
}

-- None of these calls claims the descriptor for closing.
abbrev pub is_begin : ℕ → Op → Bool
is_begin fd (begins j) = j == fd
is_begin fd _ = false

abbrev pub Quiet : ℕ → Others → Type 0
Quiet fd [] = Unit
Quiet fd ((alive, o) ∷ os) = (is_begin fd o ≡ false) × Quiet fd os

claims-Quiet : (fd : ℕ) (os : Others) (m : Slots) → Quiet fd os → claims os fd m ≡ 0
unfolding claims
claims-Quiet fd [] m q = refl
claims-Quiet fd ((alive, tracks w) ∷ os) m (b, q) = omega (arith, claims-Quiet fd os _ q)
claims-Quiet fd ((alive, untracks w) ∷ os) m (b, q) = omega (arith, claims-Quiet fd os _ q)
claims-Quiet fd ((alive, ends j) ∷ os) m (b, q) = omega (arith, claims-Quiet fd os _ q)
claims-Quiet fd ((alive, establishes j) ∷ os) m (b, q) = omega (arith, claims-Quiet fd os _ q)
claims-Quiet fd ((alive, begins j) ∷ os) m (b, q) =
    ground (arith, b, claims-Quiet fd os (step alive (begins j) m) q)

claim-le : (fd : ℕ) (o : Op) (m : Slots) → claim o fd m ≤ 1
claim-le fd (tracks w) m = omega arith
claim-le fd (untracks w) m = omega arith
claim-le fd (ends j) m = omega arith
claim-le fd (establishes j) m = omega arith
claim-le fd (begins j) m = ground arith

claims-le : (fd : ℕ) (os : Others) (m : Slots) → claims os fd m ≤ length os
unfolding claims
claims-le fd [] m = omega arith
claims-le fd ((alive, o) ∷ os) m = omega (arith, claim-le fd o m, claims-le fd os (step alive o m))

run-Unique : (os : Others) (m : Slots) → Unique m → Unique (run os m)
unfolding run
run-Unique [] m u = u
run-Unique ((alive, o) ∷ os) m u = run-Unique os (step alive o m) (step-Refines alive 0 m u o).1

-- What others do in a round: they claim the descriptor for closing only while an event is awaited.
abbrev pub Awaited : Wait → ℕ → Others → Type 0
Awaited (wakes event) fd os = Unit
Awaited _ fd os = Quiet fd os

abbrev pub Settled : ℕ → Round → Type 0
Settled fd r = Quiet fd r.before × Awaited r.wait fd r.during × (length r.during < word)

-- A write-back that was not made, or made in the generation `e`.
abbrev pub Within : ℕ → Option ℕ → Type 0
Within e o = (o ≡ none) ⊎ (o ≡ some e)

-- What holds of a call in the generation `e`, at its end.
abbrev pub Ends : ℕ → ℕ → Outcome × Io → Type 0
Ends fd e (o, s) =
    All (λ c. c ≡ e) s.calls
    × Within e s.flags_back
    × Within e s.offset_back
    × ((fd_epoch fd s.table ≡ e)
        ⊎ ((o ≡ failed ebadf) × (s.flags_back ≡ none) × (s.offset_back ≡ none)))

-- The same without a word on the flags.
abbrev pub EndsBeside : ℕ → ℕ → Outcome × Io → Type 0
EndsBeside fd e (o, s) =
    All (λ c. c ≡ e) s.calls
    × Within e s.offset_back
    × ((fd_epoch fd s.table ≡ e) ⊎ ((o ≡ failed ebadf) × (s.offset_back ≡ none)))

pub Ends-Beside : (fd e : ℕ) (x : Outcome × Io) → Ends fd e x → EndsBeside fd e x
Ends-Beside fd e (o, s) (c, f, w, inl k) = (c, w, inl k)
Ends-Beside fd e (o, s) (c, f, w, inr (k, g, v)) = (c, w, inr (k, v))

-- And before.
abbrev pub Holds : ℕ → ℕ → Io → Type 0
Holds fd e s =
    Unique s.table
    × (fd_epoch fd s.table ≡ e)
    × (e < word)
    × All (λ c. c ≡ e) s.calls
    × (s.flags_back ≡ none)
    × (s.offset_back ≡ none)

module _ (fd e : ℕ) where
  Quiet-Holds : (os : Others) (s : Io) → Quiet fd os → Holds fd e s → Holds fd e (others os s)
  Quiet-Holds os s q (u, n, lt, c, f, o) =
      let kept = fd_epoch-run os fd s.table u (omega (arith, n, lt)) in
      (
        run-Unique os s.table u,
        omega (arith, kept, claims-Quiet fd os s.table q, n, lt),
        lt,
        c,
        f,
        o,
      )

  back-Ends : (g : Guards) (o : Outcome) (s : Io) → Holds fd e s → Ends fd e (o, restore g fd s)
  unfolding restore
  back-Ends g o s (u, n, lt, c, f, w) = (c, ground (arith, n, f), ground (arith, n, w), inl n)

  restore-Ends :
      (g : Guards) (k : Kind) (o : Outcome) (s : Io)
      → Holds fd e s
      → Ends fd e (o, restore g fd (reset_connect_state k s))
  restore-Ends g k o s h =
      if-cases (λ (t : Io). Ends fd e (o, restore g fd t)) k.connects _ s
        (λ _. back-Ends g o (record s { resets = s.resets + 1 }) h) (λ _. back-Ends g o s h)

  -- What a wait leaves: the same generation, or the answer that the descriptor was replaced.
  abbrev Waited : Ready × Io → Type 0
  Waited (replaced, s) = All (λ c. c ≡ e) s.calls × (s.flags_back ≡ none) × (s.offset_back ≡ none)
  Waited (_, s) = Holds fd e s

  woken-Waited :
      (event : ℕ) (during : Others) (s : Io)
      → length during < word
      → Holds fd e s
      → Waited (woken fd event during s)
  unfolding woken establish run claims step
  woken-Waited event during s len (u, n, lt, c, f, w) =
      let os : Others = ((λ j. true), establishes fd) ∷ during in
      let m = (establish fd s.table).0 in
      let ev : AwaitEvent = record {
        phase = final;
        flags = event;
        fd = some fd;
        wait_epoch = (establish fd s.table).1;
      } in
      let d = (on_co_poll_event event ev s.coroutine).1 in
      let few = claims-le fd during m in
      let told =
        fd_wait_epoch_valid-claims os s.table fd fd event ev s.coroutine u (omega (arith, n, lt))
          refl refl (omega (arith, few, len)) in
      let kept = fd_epoch-run os fd s.table u (omega (arith, n, lt)) in
      let after : Io = record s { table = run during m; coroutine = d } in
      if-cases Waited (establish fd s.table).2 (refused, record s { table = m })
        (if fd_wait_epoch_valid (run during m) fd d then ready else replaced, after)
        (λ _. Quiet-Holds (((λ j. true), establishes fd) ∷ []) s (refl, tt) (u, n, lt, c, f, w))
        (λ _.
          if-cases (λ (r : Ready). Waited (r, after)) (fd_wait_epoch_valid (run during m) fd d)
            ready replaced
            (λ valid.
              (run-Unique os s.table u, ground (arith, kept, told, valid, n, lt), lt, c, f, w))
            (λ _. (c, f, w)))

  wait-Waited :
      (limit : Option ℕ) (r : Round) (s : Io)
      → Awaited r.wait fd r.during
      → length r.during < word
      → Holds fd e s
      → Waited (co_wait_fd_ready fd limit r s)
  unfolding co_wait_fd_ready
  wait-Waited limit r s a len h =
      if-cases Waited (out_of_time limit r.remain_ms) (refused, s) (end_wait fd r.wait r.during s)
        (λ _. h) (λ _. go r.wait a)
    where
      go : (w : Wait) → Awaited w fd r.during → Waited (end_wait fd w r.during s)
      go cancelled q = unfold end_wait in h
      go not_set_up q = unfold end_wait in Quiet-Holds r.during s q h
      go throws q = unfold end_wait in Quiet-Holds r.during s q h
      go (wakes event) q = unfold end_wait in woken-Waited event r.during s len h

  -- The rounds that follow keep what they are to keep.
  abbrev Goes : (Io → Outcome × Io) → Type 0
  Goes rest = (s : Io) → Holds fd e s → Ends fd e (rest s)

  after_wait-Ends :
      (k : Kind) (g : Guards) (x : Errno) (rest : Io → Outcome × Io) (o : Ready × Io)
      → Goes rest
      → Waited o
      → Ends fd e (after_wait k g fd x rest o)
  unfolding after_wait
  after_wait-Ends k g x rest (ready, s) go h = go s h
  after_wait-Ends k g x rest (replaced, s) go (c, f, w) = (c, inl f, inl w, inr (refl, f, w))
  after_wait-Ends k g x rest (refused, s) go h = restore-Ends g k (failed x) s h
  after_wait-Ends k g x rest (raised, s) go h = restore-Ends g k thrown s h

  after_call-Ends :
      (k : Kind) (g : Guards) (limit : Option ℕ) (r : Round) (rest : Io → Outcome × Io) (a : Answer)
      (s : Io)
      → Settled fd r
      → Goes rest
      → Holds fd e s
      → Ends fd e (after_call k g fd limit r rest a s)
  unfolding after_call
  after_call-Ends k g limit r rest (done n) s t go h = back-Ends (dismiss_offset g) (returned n) s h
  after_call-Ends k g limit r rest (fails x) s (q, a, len) go h =
      if-cases (Ends fd e) (is_connected k x) _ _ (λ _. back-Ends g (returned 0) s h)
        (λ _.
          if-cases (Ends fd e) (not (k.retries x)) _ _ (λ _. back-Ends g (failed x) s h)
            (λ _.
              after_wait-Ends k g x rest (co_wait_fd_ready fd limit r (others r.before s)) go
                (wait-Waited limit r (others r.before s) a len (Quiet-Holds r.before s q h))))

  pub io_loop-Ends :
      (k : Kind) (g : Guards) (limit : Option ℕ) (rs : List Round) (s : Io)
      → All (Settled fd) rs
      → Holds fd e s
      → Ends fd e (io_loop k g fd limit rs s)
  unfolding io_loop
  io_loop-Ends k g limit [] s t (u, n, lt, c, f, w) = (c, inl f, inl w, inl n)
  io_loop-Ends k g limit (r ∷ rs) s (t, ts) (u, n, lt, c, f, w) =
      after_call-Ends k g limit r (io_loop k g fd limit rs) r.answer (called fd s) t
        (λ s' h'. io_loop-Ends k g limit rs s' ts h') (u, n, lt, (n, c), f, w)
