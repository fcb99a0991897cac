-- ===== src/Bits/Fields.antt =====
-- The digits of shifted words, of remainders and of masks.
use mathlib.Core.Path.{◌≡⟨◌⟩◌, ◌∎}
use native.Mathlib.Nat.{pow-suc, one-le-pow}
use mates_os.Bits.{bit, bit-zero, div-halves, mod-halves, double_mul, mask_halved, half_mul}
use mates_os.Base.{
  ℕ, zero, suc, ◌+◌, ◌-◌, ◌*◌, ◌/◌, ◌%◌, ◌^◌, ◌≡◌, ap, ◌∙◌, arith, ltb, leb, if◌then◌else◌, sym,
}

pub bit-shift_right : (k x i : ℕ) → bit (x / 2 ^ k) i ≡ bit x (k + i)
bit-shift_right zero x i =
    let e : x / 1 ≡ x = omega arith in let e' : 0 + i ≡ i = omega arith in rw (e, e')
bit-shift_right (suc k) x i =
    bit (x / 2 ^ suc k) i
    ≡⟨ ap (λ t. bit t i)
        (ap (λ t. x / t) (pow-suc 2 k)
          ∙ sym (div-halves x (2 ^ k) (one-le-pow k 2 (omega arith)))) ⟩
      bit (x / 2 / 2 ^ k) i
    ≡⟨ bit-shift_right k (x / 2) i ⟩ bit (x / 2) (k + i)
    ≡⟨ ap (λ (j : ℕ). bit x j) (suc_out k i) ⟩ bit x (suc k + i) ∎
  where
    suc_out : (k i : ℕ) → suc (k + i) ≡ suc k + i
    suc_out k i = omega arith

pub bit-shift_left : (k x i : ℕ) → bit (x * 2 ^ k) i ≡ (if leb k i then bit x (i - k) else 0)
bit-shift_left zero x i = ground (arith, ap (λ t. bit t i) (one x), ap (bit x) (zero_less i))
  where
    one : (x : ℕ) → x * 2 ^ 0 ≡ x
    one x = omega arith

    zero_less : (i : ℕ) → i - 0 ≡ i
    zero_less i = omega arith
bit-shift_left (suc k) x zero = ground (arith, double_mul x k)
bit-shift_left (suc k) x (suc i) =
    ap (λ t. bit t i) (half_mul x k)
    ∙ (bit-shift_left k x i ∙ ground (arith, ap (bit x) (less i k)))
  where
    less : (i k : ℕ) → i - k ≡ suc i - suc k
    less i k = omega arith

pub bit-mod : (n x i : ℕ) → bit (x % 2 ^ n) i ≡ (if ltb i n then bit x i else 0)
bit-mod zero x i = ap (λ t. bit t i) (omega arith) ∙ (bit-zero i ∙ ground arith)
bit-mod (suc n) x zero = ground (
  arith,
  mod-halves x (2 ^ n) (one-le-pow n 2 (omega arith)),
  ap (λ (t : ℕ). x % t) (pow-suc 2 n),
)
bit-mod (suc n) x (suc i) =
    ap (λ t. bit t i)
      (omega (
        arith,
        mod-halves x (2 ^ n) (one-le-pow n 2 (omega arith)),
        ap (λ (t : ℕ). x % t) (pow-suc 2 n),
      ))
    ∙ (bit-mod n (x / 2) i ∙ ground arith)

pub bit-low_mask : (n i : ℕ) → bit (2 ^ n - 1) i ≡ (if ltb i n then 1 else 0)
bit-low_mask zero i = bit-zero i ∙ ground arith
bit-low_mask (suc n) zero = ground (arith, pow-suc 2 n, one-le-pow n 2)
bit-low_mask (suc n) (suc i) = ap (λ t. bit t i) (mask_halved n) ∙ (bit-low_mask n i ∙ ground arith)
