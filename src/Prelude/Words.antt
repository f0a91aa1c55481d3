-- ===== src/Prelude/Words.antt =====
-- Machine integers: `uint64_t`, and the conversions between it and `int`, with their wrap-around.
use Prim.Native.Nat.{ℕ, ◌+◌, ◌-◌, ◌%◌, ◌^◌}
use artdaq.Prelude.Tests.{ltb, if◌then◌else◌}
use artdaq.Prelude.Int.{ℤ, pos, negsuc}

abbrev pub u64 : ℕ → ℕ
u64 n = n % 2 ^ 64

-- The bits of a 32-bit `int` that goes past the end.
abbrev pub u32 : ℕ → ℕ
u32 n = n % 2 ^ 32

-- `a - b` on `uint64_t`, for a `b` below 2 ^ 64.
abbrev pub sub64 : ℕ → ℕ → ℕ
sub64 a b = u64 (a + 2 ^ 64 - b)

-- The conversion of an unsigned value to a 32-bit `int`: its low 32 bits, in two's complement.
abbrev pub to_int : ℕ → ℤ
to_int n = if ltb (n % 2 ^ 32) (2 ^ 31) then pos (n % 2 ^ 32) else negsuc (2 ^ 32 - 1 - n % 2 ^ 32)

-- The conversion of an `int` to `uint64_t` or `size_t`.
abbrev pub to_u64 : ℤ → ℕ
to_u64 (pos n) = u64 n
to_u64 (negsuc n) = u64 (2 ^ 64 - 1 - n)
