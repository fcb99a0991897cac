-- ===== src/Base/Int.antt =====
-- Signed integers over the native numbers.
use Prim.Native.Nat.{ℕ, ◌+◌, ◌-◌}
use mathlib.Core.Bool.{Bool, true, false}
use mates_os.Base.Tests.{if◌then◌else◌, leb, ◌==◌}

-- `pos n` is n and `negsuc n` is - n - 1.
pub data ℤ : Type 0 where
  pos : ℕ → ℤ
  negsuc : ℕ → ℤ

abbrev pub minus : ℕ → ℕ → ℤ
minus a b = if leb b a then pos (a - b) else negsuc (b - a - 1)

abbrev pub add_nat : ℤ → ℕ → ℤ
add_nat (pos n) d = pos (n + d)
add_nat (negsuc n) d = minus d (n + 1)

abbrev pub sub_nat : ℤ → ℕ → ℤ
sub_nat (pos n) d = minus n d
sub_nat (negsuc n) d = negsuc (n + d)

-- `a < b`
abbrev pub ltz : ℤ → ℤ → Bool
ltz (pos a) (pos b) = leb (a + 1) b
ltz (pos a) (negsuc b) = false
ltz (negsuc a) (pos b) = true
ltz (negsuc a) (negsuc b) = leb (b + 1) a

-- `a == 0`
abbrev pub is_zero : ℤ → Bool
is_zero (pos n) = n == 0
is_zero (negsuc n) = false
