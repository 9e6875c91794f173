-- ===== src/StackPool/Size.antt =====
-- bbt/coroutine/detail/Stack.cc: the size that a stack gets, and what its constructor can throw.
-- The page size and the limit of pointer differences come from the platform, and are arguments;
-- so are the results of the allocator and of `mprotect`.
pub mod Laws
use bbtools_coroutine.Base.{
  ℕ, ◌+◌, ◌-◌, ◌*◌, ◌/◌, ◌%◌, ◌≤◌, ◌<◌, ◌≡◌, ◌⊎◌, refl, Bool, true, false, Option, none, some,
  arith, ltb, ◌==◌, if◌then◌else◌,
}
use bbtools_coroutine.Base.Size.{word}

pub data StackError : Type 0 where
  invalid_argument length_error bad_alloc system_error : StackError

pub data Result {ℓ} (A : Type ℓ) : Type ℓ where
  ok : A → Result A
  err : StackError → Result A

pub record Platform : Type 0 where
  pub page_size : ℕ
  pub pointer_diff_limit : ℕ

abbrev pub padding : Platform → ℕ → ℕ
padding h size =
    let remainder = size % h.page_size in if remainder == 0 then 0 else h.page_size - remainder

unfoldable pub normalize_size : Platform → ℕ → Result ℕ
normalize_size h size =
    if size == 0
    then err invalid_argument
    else let pad = padding h size in
      if ltb (word - 1 - pad) size
      then err length_error
      else if ltb h.pointer_diff_limit (size + pad)
      then err length_error
      else ok (size + pad)

pub record Stack : Type 0 where
  pub chunk : ℕ  -- m_mem_chunk, the address
  pub chunk_size : ℕ
  pub useable : ℕ
  pub protect : Bool

-- What the platform answers to one construction.
pub record Answers : Type 0 where
  pub alloc : ℕ → Option ℕ  -- of a size; `none` is the null pointer
  pub mprotect : Bool  -- whether the guard page is made

chunk_size : Platform → Bool → ℕ → Result ℕ
chunk_size h true useable =
    if ltb (h.pointer_diff_limit - h.page_size) useable
    then err length_error
    else ok (useable + h.page_size)
chunk_size h false useable = ok useable

alloc_chunk : Answers → Bool → ℕ → ℕ → Result Stack
alloc_chunk a protect useable size = elim (a.alloc size) [
  | none ↦ err bad_alloc
  | some p ↦
      let made : Stack = record {
        chunk = p;
        chunk_size = size;
        useable = useable;
        protect = protect;
      } in
      let refused = if a.mprotect then ok made else err system_error in
      if protect then refused else ok made
]

-- The constructor of `Stack`.
unfoldable pub make_stack : Platform → Answers → ℕ → Bool → Result Stack
unfolding normalize_size chunk_size alloc_chunk
make_stack h a size protect = elim (normalize_size h size) [
  | err e ↦ err e
  | ok useable ↦ elim (chunk_size h protect useable) [
    | err e ↦ err e
    | ok total ↦ alloc_chunk a protect useable total
  ]
]
