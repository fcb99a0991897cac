-- ===== src/Timer.antt =====
-- kernel/src/scheduling/pit/pit.hpp and pit.cpp: the divisor and the frequency of the timer.
use mathlib.Core.Path.{ap₂}
use native.Mathlib.Nat.{le-div_iff_mul-le, mul-div-le, mul-le-mul_right, mul-le-mul_left}
use mates_os.Base.{
  some, none, refl, inl, inr, ℕ, List, Option, if◌then◌else◌, ◌/◌, ◌<◌, ◌≤◌, ltb, u8, ◌≡◌, bit_and,
  ◌==◌, ◌∷◌, [], u16, ◌>>>◌, arith, ◌%◌, ◌^◌, ◌*◌, Bool-cases, ap, false, ltb→ge,
}
use mates_os.Bits.{bit_and-low_mask, bit_and-field_mask}

-- `BaseFrequency`
abbrev pub base_frequency : ℕ
base_frequency = 1193182

-- `Divisor` between its two bounds.
abbrev pub clamp_divisor : ℕ → ℕ
clamp_divisor divisor =
    let low = if ltb 100 divisor then 100 else divisor in if ltb low 1 then 1 else low

-- `SetDivisor`: the divisor that is kept, and the writes of bytes to ports, in order.
unfoldable pub set_divisor : ℕ → ℕ × List (ℕ × ℕ)
set_divisor divisor =
    let d = clamp_divisor divisor in
    (d, (0x40, u8 (bit_and d 0x00ff)) ∷ (0x40, u8 (bit_and d 0xff00 >>> 8)) ∷ [])

-- `GetFrequency`
abbrev pub get_frequency : ℕ → ℕ
get_frequency divisor = base_frequency / divisor

-- `SetFrequency`; a division by 0 raises an exception, and has no value.
unfoldable pub set_frequency : ℕ → Option (ℕ × List (ℕ × ℕ))
set_frequency frequency =
    let f = if ltb base_frequency frequency then base_frequency else frequency in
    if f == 0 then none else some (set_divisor (u16 (base_frequency / f)))

set_divisor-bytes :
    (divisor : ℕ)
    → (1 ≤ clamp_divisor divisor)
      × (clamp_divisor divisor ≤ 100)
      × ((set_divisor divisor).1 ≡ (0x40, clamp_divisor divisor) ∷ (0x40, 0) ∷ [])
unfolding set_divisor
set_divisor-bytes divisor =
    let low : 1 ≤ clamp_divisor divisor = ground arith in
    let high : clamp_divisor divisor ≤ 100 = ground arith in
    let a : bit_and (clamp_divisor divisor) 0x00ff ≡ clamp_divisor divisor % 2 ^ 8 =
      bit_and-low_mask 8 (clamp_divisor divisor) in
    let b : bit_and (clamp_divisor divisor) 0xff00 ≡ clamp_divisor divisor / 2 ^ 8 % 2 ^ 8 * 2 ^ 8 =
      bit_and-field_mask 8 8 (clamp_divisor divisor) in
    let first : u8 (bit_and (clamp_divisor divisor) 0x00ff) ≡ clamp_divisor divisor =
      omega (arith, a) in
    let second : u8 (bit_and (clamp_divisor divisor) 0xff00 >>> 8) ≡ 0 = omega (arith, b) in
    (low, high, ap₂ (λ (x y : ℕ). (0x40, x) ∷ (0x40, y) ∷ []) first second)

get_frequency-least : (d : ℕ) → 1 ≤ d → d ≤ 100 → 11931 ≤ get_frequency d
get_frequency-least d p q = (le-div_iff_mul-le p).1 (omega arith)

-- What is kept for a frequency of at least 19.
clamp_divisor-frequency :
    (f : ℕ)
    → 19 ≤ f
    → f ≤ base_frequency
    → (f ≤ get_frequency (clamp_divisor (u16 (base_frequency / f))))
      × (f ≤ 11813 → clamp_divisor (u16 (base_frequency / f)) ≡ 100)
clamp_divisor-frequency f low high =
    let d = base_frequency / f in
    let most : f * d ≤ base_frequency = mul-div-le base_frequency f in
    let some_times : 1 ≤ d =
      (le-div_iff_mul-le {k = f} {x = 1} {y = base_frequency} (omega arith)).1 (omega arith) in
    let few : 19 * d ≤ f * d = mul-le-mul_right d low in
    let same : u16 d ≡ d = omega arith in
    elim (Bool-cases (ltb 100 d)) [
      | inl t ↦
          let above : f * 101 ≤ f * d = mul-le-mul_left f (ground arith) in
          let e : clamp_divisor (u16 d) ≡ 100 = rw (same, t) refl in
          (rw e (le_step (omega arith)), λ q. e)
      | inr t ↦
          let small : ltb d 1 ≡ false = ground arith in
          let e : clamp_divisor (u16 d) ≡ d = rw (same, t, small) refl in
          (
            rw e ((le-div_iff_mul-le {k = d} {x = f} {y = base_frequency} some_times).1 most),
            λ q. absurd (
                too_many (ltb→ge 100 d t) (
                  (le-div_iff_mul-le {k = f} {x = 101} {y = base_frequency} (omega arith)).1
                    (omega arith))),
          )
    ]
  where
    le_step : f ≤ 11813 → f ≤ base_frequency / 100
    le_step q = omega arith

    too_many : {d : ℕ} → d ≤ 100 → 101 ≤ d → ⊥
    too_many a b = omega arith

-- `SetFrequency` of any frequency but 0: the divisor is from 1 to 100, its two bytes are written in
-- order, and the timer runs at 11931 Hz or more; it runs at no less than what was asked for, up to
-- its base frequency, when that is 19 Hz or more, and at just 11931 Hz for all from 19 to 11813.
pub set_frequency_lem :
    (frequency : ℕ)
    → 0 < frequency
    → (d : ℕ) × (set_frequency frequency ≡ some (d, (0x40, d) ∷ (0x40, 0) ∷ []))
      × (1 ≤ d)
      × (d ≤ 100)
      × (11931 ≤ get_frequency d)
      × (19 ≤ frequency → frequency ≤ base_frequency → frequency ≤ get_frequency d)
      × (19 ≤ frequency → frequency ≤ 11813 → get_frequency d ≡ 11931)
unfolding set_frequency set_divisor
set_frequency_lem frequency positive = elim (Bool-cases (ltb base_frequency frequency)) [
  | inl t ↦
      let (one, most, bytes) = set_divisor-bytes (u16 (base_frequency / base_frequency)) in
      let d = clamp_divisor (u16 (base_frequency / base_frequency)) in
      (
        d,
        rw t (ap (λ (l : List (ℕ × ℕ)). some (d, l)) bytes),
        one,
        most,
        get_frequency-least d one most,
        λ p q. absurd (ground arith),
        λ p q. absurd (ground arith),
      )
  | inr t ↦
      let (one, most, bytes) = set_divisor-bytes (u16 (base_frequency / frequency)) in
      let d = clamp_divisor (u16 (base_frequency / frequency)) in
      let u : (frequency == 0) ≡ false = ground arith in
      (
        d,
        rw (t, u) (ap (λ (l : List (ℕ × ℕ)). some (d, l)) bytes),
        one,
        most,
        get_frequency-least d one most,
        λ p q. (clamp_divisor-frequency frequency p q).0,
        λ p q. ap get_frequency ((clamp_divisor-frequency frequency p (omega arith)).1 q),
      )
]
