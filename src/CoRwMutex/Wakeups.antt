-- ===== src/CoRwMutex/Wakeups.antt =====
-- Whom the lock's notifications wake.
use bbtools_coroutine.Base.{
  ℕ, ◌≡◌, refl, Bool, true, false, not, ◌&&◌, ◌||◌, Option, none, some, List, [], ◌∷◌, ◌==◌, ==_iff,
  if◌then◌else◌, arith, inl, inr, Bool-cases, if-cases,
}
use bbtools_coroutine.CoRwMutex.{
  free, rlocked, Mutex, member, remove, notify, wake_first, notify_one, wake_all, notify_all,
  is_nil, dec, runlock, wunlock,
}

-- The first waiter of a queue that still waits.
unfoldable pub first_live : List (Option ℕ) → List ℕ → Option ℕ
first_live [] live = none
first_live (none ∷ q) live = first_live q live
first_live (some x ∷ q) live = if member x live then some x else first_live q live

abbrev pub Scanned : Option ℕ → List ℕ → List (Option ℕ) × List ℕ × Bool → Type 0
Scanned none live x = (x.0 ≡ []) × (x.1 ≡ live) × (x.2 ≡ false)
Scanned (some w) live x = (x.1 ≡ remove w live) × (x.2 ≡ true)

pub wake_first-Scanned :
    (q : List (Option ℕ)) (live : List ℕ) → Scanned (first_live q live) live (wake_first q live)
unfolding wake_first first_live notify
wake_first-Scanned [] live = (refl, refl, refl)
wake_first-Scanned (none ∷ q) live = wake_first-Scanned q live
wake_first-Scanned (some x ∷ q) live = elim (Bool-cases (member x live)) [
  | inl t ↦ rw (t, wake_first, first_live) (refl, refl)
  | inr f ↦ rw (f, wake_first, first_live) (wake_first-Scanned q live)
]

-- The first writer and the first reader that still wait, and what a notification leaves.
abbrev pub WakesOne : Option ℕ → Option ℕ → Mutex → Mutex × Bool → Type 0
WakesOne (some x) r m (n, woke) =
    (n.live ≡ remove x m.live) × (n.read_queue ≡ m.read_queue) × (woke ≡ true)
WakesOne none (some y) m (n, woke) =
    (n.write_queue ≡ []) × (n.live ≡ remove y m.live) × (woke ≡ true)
WakesOne none none m (n, woke) =
    (n.write_queue ≡ []) × (n.read_queue ≡ []) × (n.live ≡ m.live) × (woke ≡ false)

notify_one-split :
    (m : Mutex) (w r : Option ℕ)
    → Scanned w m.live (wake_first m.write_queue m.live)
    → Scanned r m.live (wake_first m.read_queue m.live)
    → WakesOne w r m (notify_one m)
unfolding notify_one
notify_one-split m (some x) r a b = ground arith
notify_one-split m none (some y) a b = ground arith
notify_one-split m none none a b = ground arith

-- A notification wakes the first waiter in the writers' queue that still waits, and touches no
-- reader; when no queued writer waits any more, it empties the writers' queue and wakes the first
-- such reader; when there is none either, it empties both and wakes nobody, and reports that.
pub notify_one_lem :
    (m : Mutex)
    → WakesOne (first_live m.write_queue m.live) (first_live m.read_queue m.live) m (notify_one m)
notify_one_lem m =
    notify_one-split m (first_live m.write_queue m.live) (first_live m.read_queue m.live)
      (wake_first-Scanned m.write_queue m.live) (wake_first-Scanned m.read_queue m.live)

pub member-remove : (x y : ℕ) (l : List ℕ) → member y (remove x l) ≡ (member y l && not (x == y))
unfolding member remove
member-remove x y [] = refl
member-remove x y (z ∷ l) = ground (arith, member-remove x y l, ==_iff z x, ==_iff z y, ==_iff x y)

queued : ℕ → List (Option ℕ) → Bool
queued y [] = false
queued y (none ∷ q) = queued y q
queued y (some x ∷ q) = x == y || queued y q

member-wake_all :
    (y : ℕ) (q : List (Option ℕ)) (l : List ℕ)
    → member y (wake_all q l) ≡ (member y l && not (queued y q))
unfolding wake_all queued notify
member-wake_all y [] l = ground arith
member-wake_all y (none ∷ q) l = member-wake_all y q l
member-wake_all y (some x ∷ q) l =
    ground (arith, member-wake_all y q (remove x l), member-remove x y l)

first_live-queued :
    (x : ℕ) (q : List (Option ℕ)) (l : List ℕ)
    → first_live q l ≡ some x
    → (queued x q ≡ true) × (is_nil q ≡ false)
unfolding first_live queued
first_live-queued x [] l h = ground arith
first_live-queued x (none ∷ q) l h = ((first_live-queued x q l h).0, refl)
first_live-queued x (some y ∷ q) l h = ground (arith, first_live-queued x q l, ==_iff y x)

first_live-nil : (q : List (Option ℕ)) (l : List ℕ) → not (is_nil q) ≡ false → first_live q l ≡ none
unfolding first_live
first_live-nil [] l h = refl
first_live-nil (x ∷ q) l h = ground arith

-- The waiter whose turn it is: writers before readers, in the order they came.
abbrev pub turn : Option ℕ → Option ℕ → Option ℕ
turn (some x) r = some x
turn none r = r

WakesOne-turn :
    (w r : Option ℕ) (m : Mutex) (n : Mutex × Bool) (x : ℕ)
    → turn w r ≡ some x
    → WakesOne w r m n
    → n.0.live ≡ remove x m.live
WakesOne-turn (some y) r m n x e h = ground arith
WakesOne-turn none (some y) m n x e h = ground arith
WakesOne-turn none none m n x e h = ground arith

module _ (m : Mutex) (x : ℕ)
    (e : turn (first_live m.write_queue m.live) (first_live m.read_queue m.live) ≡ some x) where
  notify_one-turn :
      (n : Mutex)
      → (n.live ≡ m.live) × (n.write_queue ≡ m.write_queue) × (n.read_queue ≡ m.read_queue)
      → member x (notify_one n).0.live ≡ false
  notify_one-turn n (a, b, c) =
      let woken =
        WakesOne-turn (first_live n.write_queue n.live) (first_live n.read_queue n.live) n
          (notify_one n) x (rw (a, b, c) e) (notify_one_lem n) in
      ground (arith, member-remove x x n.live)

  -- When the last reader unlocks and some queued waiter still waits, then the one whose turn it is
  -- (writers before readers, each in the order they came) waits no more.
  pub runlock-turn : m.rlock_hold_num ≡ 1 → member x (runlock m).live ≡ false
  unfolding runlock
  runlock-turn h =
      let held = dec m.rlock_hold_num in
      let freed : Mutex = record m {
        rlock_hold_num = held;
        status = (if held == 0 then free else rlocked);
      } in
      if-cases (λ (n : Mutex). member x n.live ≡ false) (held == 0) _ _
        (λ t. notify_one-turn freed (refl, refl, refl)) (λ f. ground arith)

  all_readers : not (is_nil m.write_queue) ≡ false → member x (wake_all m.read_queue m.live) ≡ false
  all_readers f = ground (
    arith,
    first_live-queued x m.read_queue m.live,
    first_live-nil m.write_queue m.live f,
    member-wake_all x m.read_queue m.live,
  )

  -- When the writer unlocks and some queued waiter still waits, then the one whose turn it is (writers
  -- before readers, each in the order they came) waits no more.
  wunlock-turn : member x (wunlock m).live ≡ false
  unfolding wunlock notify_all
  wunlock-turn =
      let freed : Mutex = record m { status = free } in
      if-cases (λ (n : Mutex). member x n.live ≡ false) (not (is_nil m.write_queue)) _ _
        (λ t. notify_one-turn freed (refl, refl, refl))
        (λ f.
          if-cases (λ (n : Mutex). member x n.live ≡ false) (not (is_nil m.read_queue)) _ _
            (λ t. all_readers f)
            (λ g. ground (
              arith,
              first_live-queued x m.read_queue m.live,
              first_live-nil m.write_queue m.live f,
            )))
