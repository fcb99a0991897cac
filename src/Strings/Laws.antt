-- ===== src/Strings/Laws.antt =====
-- What kernel/src/library/string computes.
use mates_os.Base.{
  inl, inr, ℕ, ◌<◌, ap, ◌^◌, ◌≡◌, arith, some, ◌∙◌, ◌⊎◌, ◌≤◌, ◌-◌, Bool-cases, ltb, ltb→lt, ltb→ge,
  u64, ◌==◌, refl, lt→ltb,
}
use mates_os.Strings.Number.{
  to_string, to_string_int, put, to_string_at, size_loop, to_string_int_at, digit_loop_int,
}
use mates_os.Strings.Decimal.{IsDecimal, to_string_at_lem}

-- Whatever the number and the old contents of the buffer, `to_string` ends, and the buffer then
-- holds the decimal form of the number, without leading zeros, and the terminator.
pub to_string-IsDecimal :
    (v : ℕ) (b : ℕ → ℕ) → v < 2 ^ 64 → (b' : ℕ → ℕ) × (to_string v b ≡ some b') × IsDecimal b' 0 v
unfolding to_string
to_string-IsDecimal v b h = let (b', e, d, k) = to_string_at_lem 0 v b h in (b', e, d)

-- A word that is not negative is written as an unsigned one.
to_string_int_at-positive :
    (start v : ℕ) (b : ℕ → ℕ) → v < 2 ^ 63 → to_string_int_at start v b ≡ to_string_at start v b
unfolding to_string_int_at digit_loop_int to_string_at
to_string_int_at-positive start v b h = rw (lt→ltb v (2 ^ 63) h)

smallest_size : size_loop 20 (2 ^ 63) 0 ≡ some 18
unfolding size_loop
smallest_size = refl

smallest_lem :
    (b : ℕ → ℕ)
    → to_string_int_at 1 (2 ^ 63) (put b 0 45) ≡ some (put (put (put b 0 45) 19 40) 20 0)
unfolding to_string_int_at digit_loop_int
smallest_lem b = rw smallest_size refl

-- What the buffer holds for the smallest word: a minus sign, what stood there before, a bracket.
abbrev pub IsCut : (ℕ → ℕ) → (ℕ → ℕ) → Type 0
IsCut b b' = (b' 0 ≡ 45) × ((i : ℕ) → 1 ≤ i → i < 19 → b' i ≡ b i) × (b' 19 ≡ 40) × (b' 20 ≡ 0)

-- `to_string` of a signed word ends, with the decimal form of a word below 2 ^ 63, and with a minus sign
-- before that of its absolute value for a word above. For 2 ^ 63 itself, which is the smallest number, the
-- negation overflows and the loop ends at once: a minus sign, 18 characters that the buffer held before, an
-- opening bracket and the terminator are there.
pub to_string_int-IsDecimal :
    (v : ℕ) (b : ℕ → ℕ)
    → v < 2 ^ 64
    → (b' : ℕ → ℕ) × (to_string_int v b ≡ some b')
      × ((v < 2 ^ 63) × IsDecimal b' 0 v
          ⊎ ((2 ^ 63 < v) × (b' 0 ≡ 45) × IsDecimal b' 1 (2 ^ 64 - v) ⊎ (v ≡ 2 ^ 63) × IsCut b b'))
unfolding to_string_int
to_string_int-IsDecimal v b h = elim (Bool-cases (ltb v (2 ^ 63))) [
  | inl e ↦
      let (b', x, d, k) = to_string_at_lem 0 v b h in
      let lt = ltb→lt v (2 ^ 63) e in
      (b', rw e (to_string_int_at-positive 0 v b lt ∙ x), inl (lt, d))
  | inr e ↦ elim (Bool-cases (v == 2 ^ 63)) [
    | inr f ↦
        let p : 2 ^ 63 < v = ground (arith, ltb→ge v (2 ^ 63) e) in
        let q : u64 (2 ^ 64 - v) ≡ 2 ^ 64 - v = omega arith in
        let (b', x, d, k) = to_string_at_lem 1 (2 ^ 64 - v) (put b 0 45) (omega arith) in
        (
          b',
          rw e (
              ap (λ (n : ℕ). to_string_int_at 1 n (put b 0 45)) q
              ∙ (to_string_int_at-positive 1 (2 ^ 64 - v) (put b 0 45) (omega arith) ∙ x)),
          inr (inl (p, k 0 (omega arith), d)),
        )
    | inl f ↦
        let same : v ≡ 2 ^ 63 = ground arith in
        (
          put (put (put b 0 45) 19 40) 20 0,
          rw e (
              ap (λ (n : ℕ). to_string_int_at 1 (u64 (2 ^ 64 - n)) (put b 0 45)) same
              ∙ smallest_lem b),
          inr (inr (same, (refl, (λ i p q. ground arith), refl, refl))),
        )
  ]
]
