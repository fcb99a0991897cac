-- ===== src/Bits.antt =====
-- Binary digits: what `&`, `|`, `~`, shifts and masks do to each digit, at every width. All reasoning
-- on flags, masks and fields goes through these.
mod Digits
pub mod Fields
use Digits.{bit_and_halves, bit_or_halves, bit_or-zero}
use native.Mathlib.Nat.{pow-suc, one-le-pow, div-div-eq-div-mul, mul_comm}
use mates_os.Base.{
  ℕ, zero, suc, ◌+◌, ◌-◌, ◌*◌, ◌/◌, ◌%◌, ◌^◌, ◌≤◌, ◌<◌, min, max, bit_and, bit_or, ◌≡◌, ◌≢◌, refl,
  ap, ◌∙◌, arith, ◌==◌, if◌then◌else◌,
}
pub use Digits.{bit_and-le_right, bit_and-le_left, zero-bit_or}
use mathlib.Core.WellFounded

-- The binary digit at an index, lowest first.
abbrev pub bit : ℕ → ℕ → ℕ
bit a zero = a % 2
bit a (suc i) = bit (a / 2) i

pub bit-lt : (a i : ℕ) → bit a i < 2
bit-lt a zero = omega arith
bit-lt a (suc i) = bit-lt (a / 2) i

pub bit-bit_and : (i a b : ℕ) → bit (bit_and a b) i ≡ min (bit a i) (bit b i)
bit-bit_and zero a b = omega (arith, bit_and_halves a b)
bit-bit_and (suc i) a b =
    ap (λ t. bit t i) (omega (arith, bit_and_halves a b)) ∙ bit-bit_and i (a / 2) (b / 2)

pub bit-bit_or : (i a b : ℕ) → bit (bit_or a b) i ≡ max (bit a i) (bit b i)
bit-bit_or zero a b = omega (arith, bit_or_halves a b)
bit-bit_or (suc i) a b =
    ap (λ t. bit t i) (omega (arith, bit_or_halves a b)) ∙ bit-bit_or i (a / 2) (b / 2)

pub bit-zero : (i : ℕ) → bit 0 i ≡ 0
bit-zero zero = refl
bit-zero (suc i) = bit-zero i

pub bit-two_pow : (k i : ℕ) → bit (2 ^ k) i ≡ (if k == i then 1 else 0)
bit-two_pow zero zero = refl
bit-two_pow zero (suc i) = bit-zero i ∙ ground arith
bit-two_pow (suc k) zero = ground (arith, pow-suc 2 k)
bit-two_pow (suc k) (suc i) =
    ap (λ t. bit t i) (omega (arith, pow-suc 2 k)) ∙ (bit-two_pow k i ∙ ground arith)

-- `~x` of an n-bit word turns over each of its digits.
pub bit-complement : (n i x : ℕ) → x < 2 ^ n → i < n → bit (2 ^ n - 1 - x) i ≡ 1 - bit x i
bit-complement zero i x h p = absurd (omega arith)
bit-complement (suc n) zero x h p = omega (arith, pow-suc 2 n)
bit-complement (suc n) (suc i) x h p =
    ap (λ t. bit t i) (omega (arith, pow-suc 2 n))
    ∙ bit-complement n i (x / 2) (omega (arith, pow-suc 2 n)) (omega arith)

-- Words of n bits with the same digits are the same.
pub bit_ext : (n a b : ℕ) → a < 2 ^ n → b < 2 ^ n → ((i : ℕ) → i < n → bit a i ≡ bit b i) → a ≡ b
bit_ext zero a b ha hb h = omega arith
bit_ext (suc n) a b ha hb h =
    let low = h 0 (omega arith) in
    let high =
      bit_ext n (a / 2) (b / 2) (omega (arith, pow-suc 2 n)) (omega (arith, pow-suc 2 n))
        (λ i p. h (suc i) (omega arith)) in
    omega arith

halved : (k : ℕ) → 2 ^ suc k / 2 ≡ 2 ^ k
halved k = omega (arith, pow-suc 2 k)

-- The test `(x & (1 << k)) > 0` reads digit k.
pub bit_and-two_pow : (k x : ℕ) → bit_and x (2 ^ k) ≡ bit x k * 2 ^ k
bit_and-two_pow zero x = omega (arith, bit_and_halves x 1, bit_and-le_right (x / 2) 0)
bit_and-two_pow (suc k) x = omega (
  arith,
  bit_and_halves x (2 ^ suc k),
  ap (λ (t : ℕ). bit_and (x / 2) t) (halved k),
  bit_and-two_pow k (x / 2),
  ap (λ (t : ℕ). bit (x / 2) k * t) (pow-suc 2 k),
  pow-suc 2 k,
)

pub div-halves : (x p : ℕ) → 0 < p → x / 2 / p ≡ x / (p * 2)
div-halves x p h = div-div-eq-div-mul x 2 p ∙ ap (λ t. x / t) (mul_comm 2 p)

pub mod-halves : (x p : ℕ) → 0 < p → x % (p * 2) ≡ x / 2 % p * 2 + x % 2
mod-halves x p h = grind arith

pub mask_halved : (n : ℕ) → (2 ^ suc n - 1) / 2 ≡ 2 ^ n - 1
mask_halved n = omega (arith, pow-suc 2 n)

-- A mask of `n` low digits takes the remainder.
pub bit_and-low_mask : (n x : ℕ) → bit_and x (2 ^ n - 1) ≡ x % 2 ^ n
bit_and-low_mask zero x = omega (arith, bit_and-le_right x 0)
bit_and-low_mask (suc n) x = omega (
  arith,
  bit_and_halves x (2 ^ suc n - 1),
  ap (λ (t : ℕ). bit_and (x / 2) t) (mask_halved n),
  bit_and-low_mask n (x / 2),
  mod-halves x (2 ^ n) (one-le-pow n 2 (omega arith)),
  ap (λ (t : ℕ). x % t) (pow-suc 2 n),
  pow-suc 2 n,
  one-le-pow n 2 (omega arith),
)

pub double_mul : (hi k : ℕ) → hi * 2 ^ suc k ≡ hi * 2 ^ k * 2
double_mul hi k = omega (arith, ap (λ (t : ℕ). hi * t) (pow-suc 2 k))

pub half_mul : (hi k : ℕ) → hi * 2 ^ suc k / 2 ≡ hi * 2 ^ k
half_mul hi k = omega (arith, double_mul hi k)

-- A mask of `m` digits above the `k` lowest.
pub bit_and-field_mask : (k m x : ℕ) → bit_and x ((2 ^ m - 1) * 2 ^ k) ≡ x / 2 ^ k % 2 ^ m * 2 ^ k
bit_and-field_mask zero m x =
    let e : (2 ^ m - 1) * 1 ≡ 2 ^ m - 1 = omega arith in
    let e' : x / 1 ≡ x = omega arith in rw (e, e', bit_and-low_mask m x) (omega arith)
bit_and-field_mask (suc k) m x = omega (
  arith,
  bit_and_halves x ((2 ^ m - 1) * 2 ^ suc k),
  double_mul (2 ^ m - 1) k,
  ap (λ (t : ℕ). bit_and (x / 2) t) (half_mul (2 ^ m - 1) k),
  bit_and-field_mask k m (x / 2),
  ap (λ (t : ℕ). t % 2 ^ m * 2 ^ k) (div-halves x (2 ^ k) (one-le-pow k 2 (omega arith))),
  ap (λ (t : ℕ). x / t % 2 ^ m * 2 ^ k) (pow-suc 2 k),
  double_mul (x / 2 ^ suc k % 2 ^ m) k,
)

-- `(hi << k) | lo` with `lo` below `2 ^ k` is a sum.
pub bit_or-fields : (k hi lo : ℕ) → lo < 2 ^ k → bit_or (hi * 2 ^ k) lo ≡ hi * 2 ^ k + lo
bit_or-fields zero hi lo h =
    let e : lo ≡ 0 = omega arith in
    let e' : hi * 1 ≡ hi = omega arith in rw (e, e', bit_or-zero hi) (omega arith)
bit_or-fields (suc k) hi lo h = omega (
  arith,
  bit_or_halves (hi * 2 ^ suc k) lo,
  double_mul hi k,
  ap (λ (t : ℕ). bit_or t (lo / 2)) (half_mul hi k),
  bit_or-fields k hi (lo / 2) (omega (arith, pow-suc 2 k)),
)

pub bit_or-lt : (n a b : ℕ) → a < 2 ^ n → b < 2 ^ n → bit_or a b < 2 ^ n
bit_or-lt zero a b ha hb =
    let e : a ≡ 0 = omega arith in let e' : b ≡ 0 = omega arith in rw (e, e') (omega arith)
bit_or-lt (suc n) a b ha hb = omega (
  arith,
  bit_or_halves a b,
  pow-suc 2 n,
  bit_or-lt n (a / 2) (b / 2) (omega (arith, pow-suc 2 n)) (omega (arith, pow-suc 2 n)),
)

-- A mask and its complement split a word in two.
pub bit_and-split :
    (n x m : ℕ) → x < 2 ^ n → m < 2 ^ n → bit_and x m + bit_and x (2 ^ n - 1 - m) ≡ x
bit_and-split zero x m hx hm = omega (arith, bit_and-le_left x m, bit_and-le_left x (0 - m))
bit_and-split (suc n) x m hx hm = omega (
  arith,
  bit_and_halves x m,
  bit_and_halves x (2 ^ suc n - 1 - m),
  ap (λ (t : ℕ). bit_and (x / 2) t) (halved_complement n m hm),
  bit_and-split n (x / 2) (m / 2) (omega (arith, pow-suc 2 n)) (omega (arith, pow-suc 2 n)),
  pow-suc 2 n,
)
  where
    halved_complement : (n m : ℕ) → m < 2 ^ suc n → (2 ^ suc n - 1 - m) / 2 ≡ 2 ^ n - 1 - m / 2
    halved_complement n m h = omega (arith, pow-suc 2 n)
