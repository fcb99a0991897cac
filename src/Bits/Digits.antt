-- ===== src/Bits/Digits.antt =====
-- `bit_and` and `bit_or` stand for `bitwise`, which goes through the binary digits on fuel. One
-- equation for the lowest digit frees what follows from the fuel.
use Prim.Native.Nat.{digits, bitwise, bit_and-bitwise, bit_or-bitwise}
use mates_os.Base.{
  ℕ, zero, suc, ◌+◌, ◌*◌, ◌/◌, ◌%◌, ◌≤◌, min, max, bit_and, bit_or, ◌≡◌, refl, arith,
}

module _ (z : ℕ → ℕ) (f : ℕ → ℕ → ℕ) where
  -- Any two amounts of fuel that cover the first operand give the same digits.
  digits-digits : (a b n m : ℕ) → a ≤ n → a ≤ m → digits z f n a b ≡ digits z f m a b
  digits-digits zero b zero zero p q = refl
  digits-digits zero b zero (suc m) p q = refl
  digits-digits zero b (suc n) zero p q = refl
  digits-digits zero b (suc n) (suc m) p q = refl
  digits-digits (suc a) b (suc n) (suc m) p q =
      let rest = digits-digits (suc a / 2) (b / 2) n m (omega arith) (omega arith) in rw rest
  digits-digits (suc a) b zero m p q = absurd (omega arith)
  digits-digits (suc a) b (suc n) zero p q = absurd (omega arith)

  -- The digits of a number that is not zero: the lowest, and those of its half.
  lowest_digit :
      (a b : ℕ)
      → f (suc a % 2) (b % 2) + 2 * bitwise z f (suc a / 2) (b / 2) ≡ bitwise z f (suc a) b
  lowest_digit a b =
      let half = digits-digits (suc a / 2) (b / 2) a (suc a / 2) (omega arith) (omega arith) in
      omega (arith, half)

pub bit_and_halves : (a b : ℕ) → bit_and a b ≡ bit_and (a / 2) (b / 2) * 2 + min (a % 2) (b % 2)
bit_and_halves zero b = rw (bit_and-bitwise 0 b, bit_and-bitwise (0 / 2) (b / 2)) (omega arith)
bit_and_halves (suc a) b =
    rw (bit_and-bitwise (suc a) b, bit_and-bitwise (suc a / 2) (b / 2))
      (omega (arith, lowest_digit (λ y. 0) min a b))

pub bit_or_halves : (a b : ℕ) → bit_or a b ≡ bit_or (a / 2) (b / 2) * 2 + max (a % 2) (b % 2)
bit_or_halves zero b = rw (bit_or-bitwise 0 b, bit_or-bitwise (0 / 2) (b / 2)) (omega arith)
bit_or_halves (suc a) b =
    rw (bit_or-bitwise (suc a) b, bit_or-bitwise (suc a / 2) (b / 2))
      (omega (arith, lowest_digit (λ y. y) max a b))

pub zero-bit_and : (b : ℕ) → bit_and 0 b ≡ 0
zero-bit_and b = rw (bit_and-bitwise 0 b)

pub zero-bit_or : (b : ℕ) → bit_or 0 b ≡ b
zero-bit_or b = rw (bit_or-bitwise 0 b)

below_right : (n a b : ℕ) → a ≤ n → bit_and a b ≤ b
below_right n zero b h = omega (arith, zero-bit_and b)
below_right zero (suc a) b h = absurd (omega arith)
below_right (suc n) (suc a) b h =
    omega (arith, bit_and_halves (suc a) b, below_right n (suc a / 2) (b / 2) (omega arith))

below_left : (n a b : ℕ) → a ≤ n → bit_and a b ≤ a
below_left n zero b h = omega (arith, zero-bit_and b)
below_left zero (suc a) b h = absurd (omega arith)
below_left (suc n) (suc a) b h =
    omega (arith, bit_and_halves (suc a) b, below_left n (suc a / 2) (b / 2) (omega arith))

or_zero : (n a : ℕ) → a ≤ n → bit_or a 0 ≡ a
or_zero n zero h = refl
or_zero zero (suc a) h = absurd (omega arith)
or_zero (suc n) (suc a) h =
    omega (arith, bit_or_halves (suc a) 0, or_zero n (suc a / 2) (omega arith))

pub bit_and-le_right : (a b : ℕ) → bit_and a b ≤ b
bit_and-le_right a b = below_right a a b (omega arith)

pub bit_and-le_left : (a b : ℕ) → bit_and a b ≤ a
bit_and-le_left a b = below_left a a b (omega arith)

pub bit_or-zero : (a : ℕ) → bit_or a 0 ≡ a
bit_or-zero a = or_zero a a (omega arith)
