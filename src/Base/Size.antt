-- ===== src/Base/Size.antt =====
-- size_t and uint64_t counters: 64 bits, wrapping.
use Prim.Native.Nat.{ℕ, ◌+◌, ◌-◌, ◌%◌, ◌^◌}

abbrev pub word : ℕ
word = 2 ^ 64

-- `++n` and `--n`.
abbrev pub inc : ℕ → ℕ
inc n = (n + 1) % word

abbrev pub dec : ℕ → ℕ
dec n = (n + (word - 1)) % word
