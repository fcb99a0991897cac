-- ===== src/Ahci/Engine.antt =====
-- `StopCMD` and `StartCMD` of kernel/src/ahci/ahci.cpp. The register `cmdSts` is the controller's: the
-- value that its n-th read gives is a parameter, and what is written to it is listed.
use mathlib.Core.Bool.{true≢false}
use mates_os.Base.{
  some, none, zero, suc, ℕ, Option, ◌≤◌, List, ◌+◌, bit_and, bit_or, if◌then◌else◌, ◌≡◌, false, ◌^◌,
  ◌∷◌, [], ◌-◌, ◌<◌, arith, Bool-cases, true, ◌==◌, inl, ltb, refl, ltb→lt, inr, ◌∙◌, ap, max, sym,
  ltb→ge, min,
}
use mates_os.Base.Partial.{◌>>=◌}
use mates_os.Ahci.{has, bit_and, false, [], true}
use mates_os.Bits.{bit, bit-lt, bit-bit_or, bit-two_pow, bit-bit_and, bit-complement}

-- `HBA_PxCMD_ST`, `HBA_PxCMD_FRE`, `HBA_PxCMD_FR` and `HBA_PxCMD_CR`
abbrev pub start_bit : ℕ
start_bit = 0x0001

abbrev pub receive_bit : ℕ
receive_bit = 0x0010

abbrev pub receiving_bit : ℕ
receiving_bit = 0x4000

abbrev pub running_bit : ℕ
running_bit = 0x8000

-- The loop of `StopCMD` from the n-th read on, and the reads when it is left.
unfoldable pub stop_wait : ℕ → (ℕ → ℕ) → ℕ → Option ℕ
stop_wait zero status n = none
stop_wait (suc fuel) status n =
    let again = stop_wait fuel status (n + 1) in
    let later = stop_wait fuel status (n + 2) in
    if has (status n) receiving_bit
    then again
    else if has (status (n + 1)) running_bit
    then later
    else some (n + 2)

-- The loop of `StartCMD`
unfoldable pub start_wait : ℕ → (ℕ → ℕ) → ℕ → Option ℕ
start_wait zero status n = none
start_wait (suc fuel) status n =
    let again = start_wait fuel status (n + 1) in
    if has (status n) running_bit then again else some (n + 1)

-- `StopCMD`: the reads after it, and the two values that it writes.
unfoldable pub stop_cmd : ℕ → (ℕ → ℕ) → ℕ → Option (ℕ × List ℕ)
stop_cmd fuel status n = stop_wait fuel status (n + 2) >>= λ m. some (
  m,
  bit_and (status n) (2 ^ 32 - 1 - start_bit)
      ∷ bit_and (status (n + 1)) (2 ^ 32 - 1 - receive_bit)
      ∷ [],
)

-- `StartCMD`
unfoldable pub start_cmd : ℕ → (ℕ → ℕ) → ℕ → Option (ℕ × List ℕ)
start_cmd fuel status n = start_wait fuel status n >>= λ m.
    some (m + 2, bit_or (status m) receive_bit ∷ bit_or (status (m + 1)) start_bit ∷ [])

-- Where both bits stay clear from some read on, the loop of `StopCMD` is left.
stop_wait-ends :
    (fuel : ℕ) (status : ℕ → ℕ) (n k : ℕ)
    → ((i : ℕ)
        → k ≤ i
        → (has (status i) receiving_bit ≡ false) × (has (status i) running_bit ≡ false))
    → k < n + fuel
    → 0 < fuel
    → (j : ℕ) × (stop_wait fuel status n ≡ some (j + 2))
      × (n ≤ j)
      × (has (status j) receiving_bit ≡ false)
      × (has (status (j + 1)) running_bit ≡ false)
unfolding stop_wait
stop_wait-ends zero status n k h q pos = absurd (omega arith)
stop_wait-ends (suc fuel) status n k h q pos = elim (Bool-cases (has (status n) receiving_bit)) [
  | inl t ↦
      let before : n < k = before_clear receiving_bit n t (λ i p. (h i p).0) in
      let (j, e, le, x, y) = stop_wait-ends fuel status (n + 1) k h (omega arith) (omega arith) in
      (j, rw t e, omega arith, x, y)
  | inr t ↦ elim (Bool-cases (has (status (n + 1)) running_bit)) [
    | inl u ↦
        let before : n + 1 < k = before_clear running_bit (n + 1) u (λ i p. (h i p).1) in
        let (j, e, le, x, y) = stop_wait-ends fuel status (n + 2) k h (omega arith) (omega arith) in
        (j, rw (t, u) e, omega arith, x, y)
    | inr u ↦ (n, rw (t, u) refl, omega arith, t, u)
  ]
]
  where
    before_clear :
        (mask i : ℕ)
        → has (status i) mask ≡ true
        → ((i : ℕ) → k ≤ i → has (status i) mask ≡ false)
        → i < k
    before_clear mask i t clear = elim (Bool-cases (ltb i k)) [
      | inl l ↦ ltb→lt i k l
      | inr l ↦ absurd (true≢false (sym t ∙ clear i (ltb→ge i k l)))
    ]

start_wait-ends :
    (fuel : ℕ) (status : ℕ → ℕ) (n k : ℕ)
    → ((i : ℕ) → k ≤ i → has (status i) running_bit ≡ false)
    → k < n + fuel
    → 0 < fuel
    → (j : ℕ) × (start_wait fuel status n ≡ some (j + 1))
      × (n ≤ j)
      × (has (status j) running_bit ≡ false)
unfolding start_wait
start_wait-ends zero status n k h q pos = absurd (omega arith)
start_wait-ends (suc fuel) status n k h q pos = elim (Bool-cases (has (status n) running_bit)) [
  | inl t ↦
      let before : n < k = elim (Bool-cases (ltb n k)) [
        | inl l ↦ ltb→lt n k l
        | inr l ↦ absurd (true≢false (sym t ∙ h n (ltb→ge n k l)))
      ] in
      let (j, e, le, x) = start_wait-ends fuel status (n + 1) k h (omega arith) (omega arith) in
      (j, rw t e, omega arith, x)
  | inr t ↦ (n, rw t refl, omega arith, t)
]

bit-cleared :
    (v k i : ℕ)
    → 2 ^ k < 2 ^ 32
    → i < 32
    → bit (bit_and v (2 ^ 32 - 1 - 2 ^ k)) i ≡ (if k == i then 0 else bit v i)
bit-cleared v k i small q =
    let b = bit-lt v i in
    bit-bit_and i v (2 ^ 32 - 1 - 2 ^ k)
    ∙ ap (min (bit v i))
        (bit-complement 32 i (2 ^ k) small q ∙ ap (λ (n : ℕ). 1 - n) (bit-two_pow k i))
    ∙ ground arith

bit-added : (v k i : ℕ) → bit (bit_or v (2 ^ k)) i ≡ (if k == i then 1 else bit v i)
bit-added v k i =
    let b = bit-lt v i in
    bit-bit_or i v (2 ^ k) ∙ ap (max (bit v i)) (bit-two_pow k i) ∙ ground arith

-- `StopCMD` of a controller whose two bits stay clear from some read on ends, at reads where they are
-- clear. It writes two values: what was read with the start bit clear, then with the receive bit
-- clear, every other bit as it was. `StartCMD`, in the same way, ends and writes two values with
-- these bits set.
pub stop_cmd-Stops :
    (fuel : ℕ) (status : ℕ → ℕ) (n k : ℕ)
    → ((i : ℕ)
        → k ≤ i
        → (has (status i) receiving_bit ≡ false) × (has (status i) running_bit ≡ false))
    → k < fuel
    → ((j : ℕ) × (a : ℕ) × (b : ℕ) × (stop_cmd fuel status n ≡ some (j + 2, a ∷ b ∷ []))
        × (has (status j) receiving_bit ≡ false)
        × (has (status (j + 1)) running_bit ≡ false)
        × ((i : ℕ)
            → i < 32
            → (bit a i ≡ (if 0 == i then 0 else bit (status n) i))
              × (bit b i ≡ (if 4 == i then 0 else bit (status (n + 1)) i))))
      × ((j : ℕ) × (a : ℕ) × (b : ℕ) × (start_cmd fuel status n ≡ some (j + 3, a ∷ b ∷ []))
          × (has (status j) running_bit ≡ false)
          × ((i : ℕ)
              → (bit a i ≡ (if 4 == i then 1 else bit (status (j + 1)) i))
                × (bit b i ≡ (if 0 == i then 1 else bit (status (j + 2)) i))))
unfolding stop_cmd start_cmd
stop_cmd-Stops fuel status n k h q =
    let (j, e, le, x, y) = stop_wait-ends fuel status (n + 2) k h (omega arith) (omega arith) in
    let (l, f, ge, z) =
      start_wait-ends fuel status n k (λ i p. (h i p).1) (omega arith) (omega arith) in
    let one_more : l + 1 + 1 ≡ l + 2 = omega arith in
    let two_more : l + 1 + 2 ≡ l + 3 = omega arith in
    (
      (
        j,
        bit_and (status n) (2 ^ 32 - 1 - start_bit),
        bit_and (status (n + 1)) (2 ^ 32 - 1 - receive_bit),
        rw e refl,
        x,
        y,
        λ i p. (
          bit-cleared (status n) 0 i (omega arith) p,
          bit-cleared (status (n + 1)) 4 i (omega arith) p,
        ),
      ),
      (
        l,
        bit_or (status (l + 1)) receive_bit,
        bit_or (status (l + 2)) start_bit,
        rw (f, one_more, two_more) refl,
        z,
        λ i. (bit-added (status (l + 1)) 4 i, bit-added (status (l + 2)) 0 i),
      ),
    )
