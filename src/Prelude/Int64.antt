-- ===== src/Prelude/Int64.antt =====
-- The source's int64 (and time.Duration, which is one): a bit pattern below 2 ^ 64, in two's
-- complement, so that a pattern from 2 ^ 63 on stands for a negative number.
use Prim.Native.Nat.{ℕ, ◌+◌, ◌-◌, ◌%◌}
use mathlib.Core.Bool.{Bool}
use sindri.Prelude.Tests.{ltb, leb}

abbrev pub Int64 : Type 0
Int64 = ℕ

abbrev pub two63 : ℕ
two63 = 9223372036854775808

abbrev pub two64 : ℕ
two64 = 18446744073709551616

abbrev pub max_int64 : Int64
max_int64 = 9223372036854775807

-- a + b and a - b, wrapping.
abbrev pub add64 : Int64 → Int64 → Int64
add64 a b = (a + b) % two64

abbrev pub sub64 : Int64 → Int64 → Int64
sub64 a b = (a + two64 - b) % two64

-- The order of the signed values: adding 2 ^ 63 turns it into the order of the patterns.
abbrev pub bias : Int64 → ℕ
bias a = (a + two63) % two64

abbrev pub lt64 : Int64 → Int64 → Bool
lt64 a b = ltb (bias a) (bias b)

abbrev pub le64 : Int64 → Int64 → Bool
le64 a b = leb (bias a) (bias b)
