-- ===== src/Event/Safety.antt =====
-- What is counted of an event: operations of a kind and a round, and closings; what a call adds to the counts.
pub mod Runs
use bbtools_coroutine.Base.{
  ℕ, zero, suc, ◌+◌, ◌%◌, ◌==◌, ◌≤◌, ◌<◌, ◌≡◌, refl, Bool, true, false, ◌&&◌, Option, none, some,
  List, [], ◌∷◌, sym, ap, ◌∙◌, sum, length, bit, ◌⊎◌, inl, inr, ltb, if◌then◌else◌, arith,
}
use bbtools_coroutine.Event.{
  Kind, reads, writes, times, triggers, Op, Handler, delivers, rewaits, closes, Interest, Event,
  create, is_some, operation, do_async_wait, arm_timer, when, start_timer, new_round, start_listen,
  cancel_listen, trigger, complete, waits_again, call_event_callback, wait_again, go_on, put_back,
  take_at, Move, starts, cancels, triggered, completes, aborts, proceeds, completed, aborted,
  proceeded, step, run,
}

abbrev pub same : Kind → Kind → Bool
same reads reads = true
same writes writes = true
same times times = true
same _ _ = false

-- Operations of a kind and a round: registered, in a handler, and, unless the event registers them again, told.
abbrev pub hit : Kind → ℕ → Op → ℕ
hit k r o = bit (same k o.kind && o.round == r)

abbrev pub held : Kind → ℕ → Handler → ℕ
held k r (delivers o) = hit k r o
held k r (rewaits o) = hit k r o
held k r (closes fd) = 0

abbrev pub told : Interest → Kind → ℕ → Event → ℕ
told i k r e = if waits_again i k then 0 else sum (hit k r) e.called

abbrev pub total : Interest → Kind → ℕ → Event → ℕ
total i k r e = sum (hit k r) e.pending + sum (held k r) e.running + told i k r e

abbrev pub closing : Handler → ℕ
closing (closes fd) = bit (is_some fd)
closing _ = 0

abbrev pub fds : Event → ℕ
fds e = bit (is_some e.fd) + sum closing e.running + length e.closed

-- For a kind and a round: at most one, and none in a round to come.
abbrev pub Once : Interest → Kind → ℕ → Event → Type 0
Once i k r e = (total i k r e ≤ 1) × (e.round < r → total i k r e ≡ 0) × (fds e ≤ 1)

abbrev pub Single : Interest → Kind → ℕ → Event → Type 0
Single i k r e = (total i k r e ≤ 1) × (fds e ≤ 1)

-- What a move may do.
abbrev pub Grows : Interest → Kind → ℕ → Event → Event → Type 0
Grows i k r e d =
    (e.round ≤ d.round)
    × (d.round ≤ e.round + 1)
    × (fds d ≤ fds e)
    × (total i k r d ≤ total i k r e + bit (d.round == r && e.round + 1 == r))

abbrev pub Taken : {A : Type 0} → (A → ℕ) → List A → Option (A × List A) → Type 0
Taken f xs none = Unit
Taken f xs (some (y, ys)) = sum f xs ≡ f y + sum f ys

put_back-Taken :
    {A : Type 0} (f : A → ℕ) (x : A) (xs : List A) (t : Option (A × List A))
    → Taken f xs t
    → Taken f (x ∷ xs) (put_back x t)
unfolding put_back sum
put_back-Taken f x xs none h = tt
put_back-Taken f x xs (some (y, ys)) h = omega (arith, h)

pub take_at-Taken : {A : Type 0} (f : A → ℕ) (n : ℕ) (xs : List A) → Taken f xs (take_at n xs)
unfolding take_at sum
take_at-Taken f n [] = tt
take_at-Taken f zero (x ∷ xs) = refl
take_at-Taken f (suc n) (x ∷ xs) = put_back-Taken f x xs (take_at n xs) (take_at-Taken f n xs)

same-again : (i : Interest) (k l : Kind) → (same k l ≡ false) ⊎ (waits_again i k ≡ waits_again i l)
same-again i reads reads = inr refl
same-again i reads writes = inr refl
same-again i reads times = inl refl
same-again i reads (triggers n) = inl refl
same-again i writes reads = inr refl
same-again i writes writes = inr refl
same-again i writes times = inl refl
same-again i writes (triggers n) = inl refl
same-again i times reads = inl refl
same-again i times writes = inl refl
same-again i times times = inr refl
same-again i times (triggers m) = inr refl
same-again i (triggers n) reads = inl refl
same-again i (triggers n) writes = inl refl
same-again i (triggers n) times = inr refl
same-again i (triggers n) (triggers m) = inl refl

module _ (i : Interest) (k : Kind) (r : ℕ) where
  pub call_event_callback-Grows :
      (o : Op) (e : Event)
      → (total i k r (call_event_callback i o e) ≤ total i k r e + hit k r o)
        × (fds (call_event_callback i o e) ≡ fds e)
        × ((call_event_callback i o e).round ≡ e.round)
  unfolding call_event_callback sum
  call_event_callback-Grows o e = elim (same-again i k o.kind) [
    | inl h ↦ ground (arith, h)
    | inr h ↦ ground (arith, h)
  ]

  pub wait_again-Grows :
      (o : Op) (e : Event)
      → (total i k r (wait_again o e) ≤ total i k r e + hit k r o)
        × (fds (wait_again o e) ≡ fds e)
        × ((wait_again o e).round ≡ e.round)
  unfolding wait_again sum
  wait_again-Grows o e = ground arith

  do_async_wait-Grows :
      (b : Bool) (l : Kind) (e : Event)
      → (total i k r (when b (do_async_wait l) e) ≤ total i k r e + hit k r (operation l e.fd e))
        × (fds (when b (do_async_wait l) e) ≡ fds e)
        × ((when b (do_async_wait l) e).round ≡ e.round)
  unfolding sum
  do_async_wait-Grows b l e = ground arith

  start_timer-Grows :
      (b : Bool) (e : Event)
      → (total i k r (start_timer b e) ≤ total i k r e + hit k r (operation times none e))
        × (fds (start_timer b e) ≡ fds e)
        × ((start_timer b e).round ≡ e.round)
  unfolding sum
  start_timer-Grows b e = ground arith

  -- One more round: the operations registered for it are of different kinds.
  kinds-differ :
      (f : Option ℕ) (e : Event)
      → hit k r (operation reads f e)
          + hit k r (operation writes f e)
          + hit k r (operation times none e)
        ≤ bit (e.round == r)
  kinds-differ f e = elim k [
    | reads ↦ ground arith
    | writes ↦ ground arith
    | times ↦ ground arith
    | triggers n ↦ ground arith
  ]

  hit-operation :
      (l : Kind) (f g : Option ℕ) (d e : Event)
      → d.round ≡ e.round
      → hit k r (operation l f d) ≡ hit k r (operation l g e)
  hit-operation l f g d e h = ap (λ n. bit (same k l && n == r)) h

  mounted-Grows :
      (limited : Bool) (n : Event)
      → let d =
          start_timer limited
            (when i.write (do_async_wait writes) (when i.read (do_async_wait reads) n)) in
        (total i k r d ≤ total i k r n + bit (n.round == r)) × (fds d ≡ fds n) × (d.round ≡ n.round)
  mounted-Grows limited n =
      let a = when i.read (do_async_wait reads) n in
      let w = when i.write (do_async_wait writes) a in
      let (la, fa, ra) = do_async_wait-Grows i.read reads n in
      let (lw, fw, rw) = do_async_wait-Grows i.write writes a in
      let (lt, ft, rt) = start_timer-Grows limited w in
      let hw = hit-operation writes a.fd n.fd a n ra in
      let ht = hit-operation times none none w n (rw ∙ ra) in
      (omega (arith, la, lw, lt, hw, ht, kinds-differ n.fd n), ft ∙ fw ∙ fa, rt ∙ rw ∙ ra)

  pub start_listen-Grows :
      (now timeout : ℕ) (e : Event)
      → e.round + 1 < 18446744073709551616
      → Grows i k r e (start_listen i now timeout e)
  unfolding start_listen
  start_listen-Grows now timeout e b =
      let limit = if ltb 0 timeout then some (now + timeout + 1) else none in
      let n : Event = record (new_round e) { deadline = limit } in
      ground (arith, mounted-Grows (ltb 0 timeout) n, b)
