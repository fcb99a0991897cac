-- ===== src/Bitmap/Laws.antt =====
-- `Get` after `Set`, for every pair of indices.
use mates_os.Base.{
  ℕ, zero, suc, ◌-◌, ◌*◌, ◌/◌, ◌%◌, ◌^◌, ◌<◌, bit_and, ◌≡◌, refl, ap, arith, Bool, true, false,
  ◌&&◌, not, ltb, ◌==◌, if◌then◌else◌, u64, ◌>>>◌, Bool-cases, inl, inr,
}
use native.Mathlib.Nat.{pow-le-pow_right, one-le-pow}
use mates_os.Bits.{
  bit, bit-lt, bit-bit_and, bit-bit_or, bit-two_pow, bit-complement, bit_and-two_pow,
}
use mates_os.Bitmap.{Bitmap, get, set, set_in_byte, bit_indexer}

-- The place of an index in its byte.
abbrev place : ℕ → ℕ
place index = 7 - index % 8

indexer_pow : (k : ℕ) → k < 8 → 0b10000000 >>> k ≡ 2 ^ (7 - k)
indexer_pow zero h = refl
indexer_pow (suc zero) h = refl
indexer_pow (suc (suc zero)) h = refl
indexer_pow (suc (suc (suc zero))) h = refl
indexer_pow (suc (suc (suc (suc zero)))) h = refl
indexer_pow (suc (suc (suc (suc (suc zero))))) h = refl
indexer_pow (suc (suc (suc (suc (suc (suc zero)))))) h = refl
indexer_pow (suc (suc (suc (suc (suc (suc (suc zero))))))) h = refl
indexer_pow (suc (suc (suc (suc (suc (suc (suc (suc k)))))))) h = absurd (omega arith)

-- The test of `Get` on a byte.
abbrev test_byte : ℕ → ℕ → Bool
test_byte byte index = ltb 0 (bit_and byte (bit_indexer index))

indexer_place : (i : ℕ) → bit_indexer i ≡ 2 ^ place i
indexer_place i = indexer_pow (i % 8) (omega arith)

pow_place-lt : (i : ℕ) → 2 ^ place i < 2 ^ 8
pow_place-lt i =
    omega (arith, pow-le-pow_right {n = 2} (omega arith) {i = place i} {j = 7} (omega arith))

test_byte-bit : (byte i : ℕ) → test_byte byte i ≡ ltb 0 (bit byte (place i))
test_byte-bit byte i =
    rw (indexer_place i, bit_and-two_pow (place i) byte)
      (ground (arith, bit-lt byte (place i), one-le-pow (place i) 2))

bit-set_in_byte :
    (byte i k : ℕ) (v : Bool)
    → k < 8
    → bit (set_in_byte byte (bit_indexer i) v) k
      ≡ (if place i == k then (if v then 1 else 0) else bit byte k)
bit-set_in_byte byte i k true h = ground (
  arith,
  indexer_place i,
  bit-bit_or k (bit_and byte (255 - bit_indexer i)) (bit_indexer i),
  bit-bit_and k byte (255 - bit_indexer i),
  ap (λ (t : ℕ). bit (255 - t) k) (indexer_place i),
  ap (λ (t : ℕ). bit t k) (indexer_place i),
  bit-complement 8 k (2 ^ place i) (pow_place-lt i) h,
  bit-two_pow (place i) k,
  bit-lt byte k,
)
bit-set_in_byte byte i k false h = ground (
  arith,
  indexer_place i,
  bit-bit_and k byte (255 - bit_indexer i),
  ap (λ (t : ℕ). bit (255 - t) k) (indexer_place i),
  bit-complement 8 k (2 ^ place i) (pow_place-lt i) h,
  bit-two_pow (place i) k,
  bit-lt byte k,
)

test-set_in_byte :
    (byte i j : ℕ) (v : Bool)
    → test_byte (set_in_byte byte (bit_indexer i) v) j
      ≡ (if i % 8 == j % 8 then v else test_byte byte j)
test-set_in_byte byte i j true = ground (
  arith,
  test_byte-bit (set_in_byte byte (bit_indexer i) true) j,
  test_byte-bit byte j,
  bit-set_in_byte byte i (place j) true (omega arith),
)
test-set_in_byte byte i j false = ground (
  arith,
  test_byte-bit (set_in_byte byte (bit_indexer i) false) j,
  test_byte-bit byte j,
  bit-set_in_byte byte i (place j) false (omega arith),
)

-- After `Set`, whatever the bitmap, `Get` of the same index in range gives the value that was set, and
-- `Get` of any other index what it gave before. In range is every index up to `Size * 8`, which is one
-- more than the bits of the bitmap.
pub get-set :
    (b : Bitmap) (i j : ℕ) (v : Bool)
    → get (set b i v).0 j ≡ (if not (ltb (u64 (b.size * 8)) i) && (i == j) then v else get b j)
unfolding get set
get-set b i j v = elim (Bool-cases (ltb (u64 (b.size * 8)) i)) [
  | inl out ↦ rw out
  | inr in_range ↦ rw in_range (ground (arith, test-set_in_byte (b.buffer (i / 8)) i j v))
]

pub size-set : (b : Bitmap) (i : ℕ) (v : Bool) → (set b i v).0.size ≡ b.size
unfolding set
size-set b i v = ground arith

-- Whether `Set` says that it wrote: exactly up to the index `Size * 8`.
pub set-in_range : (b : Bitmap) (i : ℕ) (v : Bool) → (set b i v).1 ≡ not (ltb (u64 (b.size * 8)) i)
unfolding set
set-in_range b i v = ground arith

-- The guard `index > Size * 8` lets the index `Size * 8` through: for every bitmap below the address
-- limit, `Set` of that index succeeds, leaves every byte of the bitmap as it was, and puts the value
-- into the top bit of the byte that follows the bitmap.
pub set_past_end :
    (b : Bitmap) (v : Bool)
    → b.size < 2 ^ 61
    → let (b', done) = set b (b.size * 8) v in
      (done ≡ true)
      × ((i : ℕ) → i < b.size → b'.buffer i ≡ b.buffer i)
      × (bit (b'.buffer b.size) 7 ≡ (if v then 1 else 0))
unfolding set
set_past_end b v h = (
  ground arith,
  (λ i p. ground arith),
  ground (arith, bit-set_in_byte (b.buffer (b.size * 8 / 8)) (b.size * 8) 7 v (omega arith)),
)
