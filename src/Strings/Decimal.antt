-- ===== src/Strings/Decimal.antt =====
-- What kernel/src/library/string/to_string.cpp writes is the decimal form of the number.
use mates_os.Base.{
  ℕ, suc, ◌<◌, ◌*◌, ◌+◌, ◌≡◌, ◌≤◌, arith, some, ◌-◌, ◌⊎◌, Bool-cases, ltb, ◌/◌, false, inl, u8, ap,
  ◌%◌, inr, true, ◌∙◌, refl, zero, ◌^◌,
}
use mates_os.Strings.Number.{digit_loop, size_loop, put, to_string_at}

abbrev ten_pow : ℕ → ℕ
ten_pow zero = 1
ten_pow (suc k) = 10 * ten_pow k

-- The number that `count` digits from `start` on stand for.
abbrev decimal : (ℕ → ℕ) → ℕ → ℕ → ℕ
decimal b start zero = 0
decimal b start (suc count) = decimal b start count * 10 + (b (start + count) - 48)

-- From `start` on, the buffer holds `v` in digits, without a leading zero, then the terminator.
abbrev pub IsDecimal : (ℕ → ℕ) → ℕ → ℕ → Type 0
IsDecimal b start v =
    (k : ℕ) × (k < 20)
    × ((j : ℕ) → j ≤ k → (48 ≤ b (start + j)) × (b (start + j) ≤ 57))
    × (decimal b start (suc k) ≡ v)
    × ((k ≡ 0) ⊎ (48 < b start))
    × (b (start + k + 1) ≡ 0)

HasSize : ℕ → ℕ → Type 0
HasSize k v = (v < ten_pow (suc k)) × ((k ≡ 0) ⊎ (ten_pow k ≤ v))

size_loop_lem :
    (fuel v size : ℕ)
    → v < ten_pow fuel
    → 0 < fuel
    → size + fuel < 256
    → (k : ℕ) × (n : ℕ) × (size_loop fuel v size ≡ some n)
      × (n ≡ size + k)
      × (k < fuel)
      × HasSize k v
unfolding size_loop HasSize
size_loop_lem zero v size h p q = ground arith
size_loop_lem (suc fuel) v size h p q = elim (Bool-cases (ltb 0 (v / 10))) [
  | inl e ↦
      let (k, n, r, s, t, o) =
        size_loop_lem fuel (v / 10) (size + 1) (ground arith) (ground arith) (omega arith) in
      let w : u8 (size + 1) ≡ size + 1 = omega arith in
      (
        suc k,
        n,
        rw e (ap (λ i. size_loop fuel (v / 10) i) w ∙ r),
        omega arith,
        omega arith,
        (ground arith, inr (ground arith)),
      )
  | inr e ↦ (0, size, rw e refl, omega arith, omega arith, (ground arith, inl refl))
]

decimal_ext :
    (b c : ℕ → ℕ) (start n : ℕ)
    → ((i : ℕ) → i < start + n → b i ≡ c i)
    → decimal b start n ≡ decimal c start n
decimal_ext b c start zero h = refl
decimal_ext b c start (suc n) h =
    rw (decimal_ext b c start n (λ i p. h i (omega arith)), h (start + n) (omega arith)) refl

digit_loop_lem :
    (fuel k start size index v : ℕ) (b : ℕ → ℕ)
    → k < fuel
    → index + k ≡ size
    → size < 255
    → HasSize k v
    → (b' : ℕ → ℕ) × (digit_loop fuel start size index v b ≡ some b')
      × ((j : ℕ) → j ≤ k → (48 ≤ b' (start + j)) × (b' (start + j) ≤ 57))
      × (decimal b' start (suc k) ≡ v)
      × ((k ≡ 0) ⊎ (48 < b' start))
      × ((i : ℕ) → (i < start) ⊎ (start + k < i) → b' i ≡ b i)
unfolding digit_loop HasSize
digit_loop_lem zero k start size index v b p q r (s, t) = ground arith
digit_loop_lem (suc fuel) zero start size index v b p q r (s, t) =
    let e : ltb 0 (v / 10) ≡ false = ground arith in
    (
      put b (start + size - index) (v % 10 + 48),
      rw e refl,
      λ j l. ground arith,
      ground arith,
      inl refl,
      λ i l. ground arith,
    )
digit_loop_lem (suc fuel) (suc k) start size index v b p q r (s, t) =
    let e : ltb 0 (v / 10) ≡ true = ground arith in
    let n : u8 (index + 1) ≡ index + 1 = omega arith in
    let w : ℕ → ℕ = put b (start + size - index) (v % 10 + 48) in
    let (b', x, y, z, l, o) =
      digit_loop_lem fuel k start size (index + 1) (v / 10) w (omega arith) (omega arith) r
        (ground arith, ground arith) in
    let d : b' (start + suc k) ≡ v % 10 + 48 = ground (arith, o (start + suc k)) in
    (
      b',
      rw e (ap (λ i. digit_loop fuel start size i (v / 10) w) n ∙ x),
      λ j m. ground (arith, y j),
      ground arith,
      ground arith,
      λ i m. ground (arith, o i),
    )

pub to_string_at_lem :
    (start v : ℕ) (b : ℕ → ℕ)
    → v < 2 ^ 64
    → (b' : ℕ → ℕ) × (to_string_at start v b ≡ some b')
      × IsDecimal b' start v
      × ((i : ℕ) → i < start → b' i ≡ b i)
unfolding to_string_at HasSize
to_string_at_lem start v b h =
    let (k, n, r, q, s, t) = size_loop_lem 20 v 0 (omega arith) (omega arith) (omega arith) in
    let (b', x, y, z, l, o) = digit_loop_lem 20 k start n 0 v b s (omega arith) (omega arith) t in
    let kept : decimal (put b' (start + n + 1) 0) start (suc k) ≡ decimal b' start (suc k) =
      decimal_ext (put b' (start + n + 1) 0) b' start (suc k) (λ i p. ground arith) in
    (
      put b' (start + n + 1) 0,
      rw (r, x) refl,
      (k, s, λ j m. ground (arith, y j), kept ∙ z, ground arith, ground arith),
      λ i p. ground (arith, o i),
    )
