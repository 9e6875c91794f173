-- ===== src/StackPool/Size/Laws.antt =====
-- The size of a stack is the least multiple of the page size that holds the request.
use native.Mathlib.Nat.{mod-lt, mod_self, zero-mod, mod-add-mod}
use bbtools_coroutine.Base.{ℕ, ◌+◌, ◌%◌, ◌≤◌, ◌<◌, ◌≡◌, Bool, some, arith, if◌then◌else◌}
use bbtools_coroutine.StackPool.Size.{
  Platform, Stack, Answers, ok, padding, normalize_size, make_stack,
}

padding-lt : (h : Platform) (size : ℕ) → 0 < h.page_size → padding h size < h.page_size
padding-lt h size p = ground (arith, mod-lt size {m = h.page_size})

-- The aligned size is a multiple of the page size.
padding-aligns :
    (h : Platform) (size : ℕ) → 0 < h.page_size → (size + padding h size) % h.page_size ≡ 0
padding-aligns h size p = ground (
  arith,
  mod-add-mod size h.page_size (padding h size),
  mod-lt size {m = h.page_size},
  mod_self h.page_size,
  zero-mod h.page_size,
)

-- A request that is accepted gets the least multiple of the page size that holds it, and one that is no
-- larger than the limit of pointer differences. The page size is positive.
normalize_size-eq-ok :
    (h : Platform) (size : ℕ) {n : ℕ}
    → 0 < h.page_size
    → normalize_size h size ≡ ok n
    → (size ≤ n) × (n < size + h.page_size) × (n % h.page_size ≡ 0) × (n ≤ h.pointer_diff_limit)
unfolding normalize_size
normalize_size-eq-ok h size p e = ground (arith, padding-lt h size, padding-aligns h size)

-- A stack that is made has the normalized size and the protection asked for, and stands in a chunk that
-- the allocator gave for that size and, if it is protected, one page more.
make_stack-eq-ok :
    (h : Platform) (a : Answers) (size : ℕ) (protect : Bool) {s : Stack}
    → make_stack h a size protect ≡ ok s
    → (normalize_size h size ≡ ok s.useable)
      × (s.protect ≡ protect)
      × (s.chunk_size ≡ s.useable + (if protect then h.page_size else 0))
      × (a.alloc s.chunk_size ≡ some s.chunk)
unfolding make_stack
make_stack-eq-ok h a size protect e = ground arith
