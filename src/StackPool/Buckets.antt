-- ===== src/StackPool/Buckets.antt =====
-- bbt/coroutine/detail/StackPool.hpp: the buckets of the pool and their keys.
use bbtools_coroutine.Base.{
  ℕ, Bool, true, false, not, ◌&&◌, ◌||◌, Option, none, some, List, [], ◌∷◌, ltb, ◌==◌, ==_iff,
  arith, ◌≡◌, ◌↔◌,
}
use bbtools_coroutine.Base.Map.{Key}
use bbtools_coroutine.StackPool.Size.{Stack}

-- `BucketKey`: the useable size and the protection.
pub record BucketKey : Type 0 where
  pub size : ℕ
  pub protect : Bool

abbrev pub same : Bool → Bool → Bool
same true b = b
same false b = not b

abbrev pub key_eq : BucketKey → BucketKey → Bool
key_eq a b = a.size == b.size && same a.protect b.protect

-- `<` of std::pair.
abbrev pub key_lt : BucketKey → BucketKey → Bool
key_lt a b = ltb a.size b.size || (a.size == b.size && (not a.protect && b.protect))

pub key_eq_iff : (a b : BucketKey) → (key_eq a b ≡ true) ↔ (a ≡ b)
key_eq_iff a b = ground (arith, ==_iff a.size b.size)

instance abbrev pub bucket_key : Key BucketKey
bucket_key = record { eqb = key_eq; before = key_lt; eqb_iff = key_eq_iff }

pub record Bucket : Type 0 where
  pub pool : List Stack  -- the back of the vector first
  pub live : ℕ
  pub idle : ℕ
  pub borrowed : ℕ
  pub pending : ℕ

abbrev pub empty_bucket : Bucket
empty_bucket = record { pool = []; live = 0; idle = 0; borrowed = 0; pending = 0 }

-- `Bucket::Push`; `grows` is false where `push_back` throws.
abbrev pub push : Bool → Stack → Bucket → Bucket × Bool
push true s b = (record b { pool = s ∷ b.pool }, true)
push false s b = (b, false)

-- `Bucket::Pop`
abbrev pub pop : Bucket → Option (Stack × Bucket)
pop b = elim b.pool [ [] ↦ none | s ∷ rest ↦ some (s, record b { pool = rest }) ]

abbrev pub bucket_of : Option Bucket → Bucket
bucket_of none = empty_bucket
bucket_of (some b) = b
