-- ===== src/CoPool/Safety/Runs.antt =====
-- A pool and any number of its clients, in any interleaving.
use bbtools_coroutine.Base.Bags.{count}
use bbtools_coroutine.Base.{
  ℕ, zero, suc, ◌+◌, ◌≤◌, ◌≡◌, refl, sym, false, List, [], ◌∷◌, All, sum, ◌⊎◌, inl, arith,
}
use bbtools_coroutine.CoPool.{
  CoPool, create, Stage, Move, step, step_at, run, workers, with_clients,
}
use bbtools_coroutine.CoPool.Safety.{
  counted, latched, held, is_past, total, Agrees, Stands, step-Fine,
}

All-Stands :
    (ss : List Stage) (p d : CoPool)
    → d.latch ≤ p.latch
    → All (λ s. Stands s p) ss
    → All (λ s. Stands s d) ss
All-Stands [] p d le t = tt
All-Stands (s ∷ ss) p d le (t, ts) = (ground (arith, t), All-Stands ss p d le ts)

-- The pool, beside coroutines and clients that are elsewhere.
Counted : ℕ → ℕ → ℕ → ℕ → List Stage × CoPool → Type 0
Counted x r l h (ss, p) =
    Agrees x (r + sum counted ss) (l + sum latched ss) (h + sum (held x) ss) p
    × All (λ s. Stands s p) ss

cast :
    (x : ℕ) {r r' l l' h h' : ℕ} (p : CoPool)
    → r ≡ r'
    → l ≡ l'
    → h ≡ h'
    → Agrees x r l h p
    → Agrees x r' l' h' p
cast x p er el eh a = rw (sym er, sym el, sym eh) a

step_at-Counted :
    (x i : ℕ) (m : Move) (ss : List Stage) (p : CoPool) (r l h : ℕ)
    → Counted x r l h (ss, p)
    → Counted x r l h (step_at i m ss p) × ((step_at i m ss p).1.latch ≤ p.latch)
unfolding step_at sum Counted
step_at-Counted x i m [] p r l h a = (a, omega arith)
step_at-Counted x zero m (s ∷ ss) p r l h (a, (t, ts)) =
    let (kept, t', le) =
      step-Fine x (r + sum counted ss) (l + sum latched ss) (h + sum (held x) ss) p m s
        (cast x p (omega arith) (omega arith) (omega arith) a, t) in
    let (s', d) = step m s p in
    ((cast x d (omega arith) (omega arith) (omega arith) kept, (t', All-Stands ss p d le ts)), le)
step_at-Counted x (suc i) m (s ∷ ss) p r l h (a, (t, ts)) =
    let ((kept, ts'), le) =
      step_at-Counted x i m ss p (r + counted s) (l + latched s) (h + held x s)
        (cast x p (omega arith) (omega arith) (omega arith) a, ts) in
    let (ss', d) = step_at i m ss p in
    let t' : Stands s d = ground (arith, t, le) in
    ((cast x d (omega arith) (omega arith) (omega arith) kept, (t', ts')), le)

run-Counted :
    (x : ℕ) (ms : List (ℕ × Move)) (ss : List Stage) (p : CoPool)
    → Counted x 0 0 0 (ss, p)
    → Counted x 0 0 0 (run ms ss p)
unfolding run
run-Counted x [] ss p a = a
run-Counted x ((i, m) ∷ ms) ss p a =
    let (ss', d) = step_at i m ss p in run-Counted x ms ss' d (step_at-Counted x i m ss p 0 0 0 a).0

-- The sums over the threads at the start.
workers-sums :
    (x n : ℕ) (p : CoPool)
    → (sum counted (workers n) ≡ 0)
      × (sum latched (workers n) ≡ n + 1)
      × (sum (held x) (workers n) ≡ 0)
      × All (λ s. Stands s p) (workers n)
unfolding sum
workers-sums x zero p = (refl, refl, refl, (inl refl, tt))
workers-sums x (suc n) p =
    let (a, b, c, t) = workers-sums x n p in
    (omega (arith, a), omega (arith, b), omega (arith, c), (inl refl, t))

with_clients-sums :
    (x k n : ℕ) (p : CoPool)
    → let ss = with_clients k (workers n) in
      (sum counted ss ≡ 0)
      × (sum latched ss ≡ n + 1)
      × (sum (held x) ss ≡ 0)
      × All (λ s. Stands s p) ss
unfolding sum
with_clients-sums x zero n p = workers-sums x n p
with_clients-sums x (suc k) n p =
    let (a, b, c, t) = with_clients-sums x k n p in
    (omega (arith, a), omega (arith, b), omega (arith, c), (inl refl, t))

start-Counted : (x k n : ℕ) → Counted x 0 0 0 (with_clients k (workers n), create n)
unfolding Counted Agrees count
start-Counted x k n =
    let (a, b, c, t) = with_clients-sums x k n (create n) in
    ((omega (arith, a), omega (arith, b), omega (arith, c)), t)

-- A pool of `n` workers and its monitor, and `k` clients that submit works, release the pool and destroy it,
-- in any interleaving of the atomic steps and with any failures of the works and of the queue. At every
-- point each work is, as often as it was submitted, in the queue, executed, discarded, refused, or in the hands
-- of one worker or client: none is lost, and none is executed twice. The counter and the latch are the
-- numbers of the pool's coroutines in their loops and of those that have not ended. And when a release drains the
-- queue or has returned, none of the pool's coroutines is left.
pub run-accounts :
    (n k x : ℕ) (ms : List (ℕ × Move))
    → let (ss, p) = run ms (with_clients k (workers n)) (create n) in
      (total x p + sum (held x) ss ≡ count x p.submitted)
      × (p.running_co_num ≡ sum counted ss)
      × (p.latch ≡ sum latched ss)
      × All (λ s. (is_past s ≡ false) ⊎ (p.latch ≡ 0)) ss
unfolding Counted Agrees
run-accounts n k x ms =
    let (ss, p) = run ms (with_clients k (workers n)) (create n) in
    let (a, t) = run-Counted x ms (with_clients k (workers n)) (create n) (start-Counted x k n) in
    (omega (arith, a.2), omega (arith, a.0), omega (arith, a.1), t)
