-- ===== src/Bitmap/Count.antt =====
-- The number of set bits below a bound, and how one `Set` changes it.
use mates_os.Base.{
  ℕ, zero, suc, ◌+◌, ◌*◌, ◌≤◌, ◌<◌, ◌≡◌, refl, arith, Bool, true, ◌==◌, if◌then◌else◌, u64,
  Bool-cases, inl, inr, false, ◌∙◌,
}
use mates_os.Bitmap.{Bitmap, get, set}
use mates_os.Bitmap.Laws.{get-set}

abbrev pub to_nat : Bool → ℕ
to_nat v = if v then 1 else 0

-- How many of the first `n` indices are set.
unfoldable pub count : Bitmap → ℕ → ℕ
count b zero = 0
count b (suc n) = count b n + to_nat (get b n)

pub count-le : (b : Bitmap) (n : ℕ) → count b n ≤ n
unfolding count
count-le b zero = omega arith
count-le b (suc n) = ground (arith, count-le b n)

count-set_above :
    (b : Bitmap) (i : ℕ) (v : Bool) (n : ℕ) → n ≤ i → count (set b i v).0 n ≡ count b n
unfolding count
count-set_above b i v zero h = refl
count-set_above b i v (suc n) h = ground (arith, count-set_above b i v n, get-set b i n v)

pub count-set :
    (b : Bitmap) (i : ℕ) (v : Bool) (n : ℕ)
    → i ≤ u64 (b.size * 8)
    → i < n
    → count (set b i v).0 n + to_nat (get b i) ≡ count b n + to_nat v
unfolding count
count-set b i v zero h p = absurd (omega arith)
count-set b i v (suc n) h p = elim (Bool-cases (i == n)) [
  | inl same ↦ ground (arith, count-set_above b i v n, get-set b i n v)
  | inr other ↦ ground (arith, count-set b i v n h, get-set b i n v)
]

-- All of the first `n` indices are set exactly when they count to `n`.
pub count-full : (b : Bitmap) (n : ℕ) → ((j : ℕ) → j < n → get b j ≡ true) → count b n ≡ n
unfolding count
count-full b zero h = refl
count-full b (suc n) h = ground (arith, count-full b n (λ j p. h j (omega arith)), h n)

pub count_ext :
    (b c : Bitmap) (n : ℕ) → ((j : ℕ) → j < n → get b j ≡ get c j) → count b n ≡ count c n
unfolding count
count_ext b c zero h = refl
count_ext b c (suc n) h = ground (arith, count_ext b c n (λ j p. h j (omega arith)), h n)

pub count-empty : (b : Bitmap) (n : ℕ) → ((j : ℕ) → j < n → get b j ≡ false) → count b n ≡ 0
unfolding count
count-empty b zero h = refl
count-empty b (suc n) h = ground (arith, count-empty b n (λ j p. h j (omega arith)), h n)

count-mark_above :
    (b c : Bitmap) (i n : ℕ)
    → ((j : ℕ) → get c j ≡ (if i == j then true else get b j))
    → n ≤ i
    → count c n ≡ count b n
count-mark_above b c i n h p = count_ext c b n (λ j q. h j ∙ ground arith)

-- One more bit set adds one to the count.
pub count-mark :
    (b c : Bitmap) (i n : ℕ)
    → ((j : ℕ) → get c j ≡ (if i == j then true else get b j))
    → get b i ≡ false
    → i < n
    → count c n ≡ count b n + 1
unfolding count
count-mark b c i zero h f p = absurd (omega arith)
count-mark b c i (suc n) h f p = elim (Bool-cases (i == n)) [
  | inl same ↦ ground (arith, count-mark_above b c i n h, h n, f)
  | inr other ↦ ground (arith, count-mark b c i n h f, h n)
]
