-- ===== src/Base/Words.antt =====
-- Unsigned integers of 32 and 64 bits, which wrap.
use Prim.Native.Nat.{ℕ, ◌+◌, ◌-◌, ◌%◌, ◌^◌}

-- `++n` and `--n` of a `uint32_t`.
abbrev pub inc_32 : ℕ → ℕ
inc_32 n = (n + 1) % 2 ^ 32

abbrev pub dec_32 : ℕ → ℕ
dec_32 n = (n + (2 ^ 32 - 1)) % 2 ^ 32

-- The difference of two `uint64_t`.
abbrev pub sub_64 : ℕ → ℕ → ℕ
sub_64 a b = (a + (2 ^ 64 - b)) % 2 ^ 64
