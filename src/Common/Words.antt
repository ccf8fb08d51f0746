-- ===== src/Common/Words.antt =====
-- Go's 64-bit integers. A uint64 is a number below 2 ^ 64 and its arithmetic wraps; an int64 is
-- read from the bit pattern, and back.
use Prim.Native.Nat.{ℕ, suc, ◌+◌, ◌-◌, ◌*◌, ◌/◌, ◌%◌}
use mathlib.Core.Option.{Option, none, some}
use chaind.Common.Tests.{ltb, ◌==◌, if◌then◌else◌}
use chaind.Common.Int.{ℤ, pos, negsuc}

abbrev pub two63 : ℕ
two63 = 9_223_372_036_854_775_808

abbrev pub two64 : ℕ
two64 = 18_446_744_073_709_551_616

abbrev pub u64 : ℕ → ℕ
u64 n = n % two64

abbrev pub add64 : ℕ → ℕ → ℕ
add64 a b = (a + b) % two64

abbrev pub sub64 : ℕ → ℕ → ℕ
sub64 a b = (a + two64 - b) % two64

abbrev pub mul64 : ℕ → ℕ → ℕ
mul64 a b = (a * b) % two64

-- `a / b` on uint64; `none` is the run-time panic of a division by zero.
abbrev pub div64 : ℕ → ℕ → Option ℕ
div64 a b = if b == 0 then none else some (a / b)

-- int64(x) of a uint64.
abbrev pub to_int64 : ℕ → ℤ
to_int64 n = if ltb n two63 then pos n else negsuc (two64 - n - 1)

-- uint64(x) of an int64.
abbrev pub of_int64 : ℤ → ℕ
of_int64 (pos n) = n % two64
of_int64 (negsuc n) = (two64 - suc n % two64) % two64

-- An unwrapped integer as the int64 that it wraps to.
abbrev pub wrap_int64 : ℤ → ℤ
wrap_int64 z = to_int64 (of_int64 z)
