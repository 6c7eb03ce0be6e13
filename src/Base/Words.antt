-- ===== src/Base/Words.antt =====
-- Machine words: what an operation leaves of its result.
use Prim.Native.Nat.{ℕ, ◌%◌, ◌^◌}

-- uint32_t and uint64_t arithmetic
abbrev pub u32 : ℕ → ℕ
u32 n = n % 2 ^ 32

abbrev pub u64 : ℕ → ℕ
u64 n = n % 2 ^ 64
