-- ===== src/Id/Words.antt =====
-- Go's operators on int64, as the generator uses them, on two's complement bit patterns.
use Prim.Native.Nat.{bit_and, bit_or}
use lesser.Common.{ℕ, ◌+◌, ◌-◌, ◌*◌, ◌/◌, ◌%◌, ◌^◌, ltb, if◌then◌else◌}

abbrev pub sub64 : ℕ → ℕ → ℕ
sub64 a b = (a + 2 ^ 64 - b) % 2 ^ 64

abbrev pub shl64 : ℕ → ℕ → ℕ
shl64 a k = a * 2 ^ k % 2 ^ 64

-- `>>` copies the sign bit.
abbrev pub sar64 : ℕ → ℕ → ℕ
sar64 a k = if ltb a (2 ^ 63) then a / 2 ^ k else a / 2 ^ k + (2 ^ 64 - 2 ^ 64 / 2 ^ k)

abbrev pub and64 : ℕ → ℕ → ℕ
and64 = bit_and

abbrev pub or64 : ℕ → ℕ → ℕ
or64 = bit_or
