-- ===== src/Strings/Compare.antt =====
-- kernel/src/library/string/strlen.cpp and strcmp.cpp: lengths and comparisons.
use mates_os.Base.{
  ℤ, pos, minus, zero, suc, refl, inl, inr, ℕ, ◌+◌, ◌<◌, ap, ◌≡◌, arith, some, ◌≢◌, ◌↔◌, ◌∙◌, ◌≤◌,
  Bool-cases, sym, ◌==◌, ◌&&◌, not, false, true,
}
use mates_os.Strings.{strlen, char_minus, strcmp, strcmp_len}

-- The character `k` places on is the terminator, and none before it is.
abbrev pub Ends : (ℕ → ℕ) → ℕ → ℕ → Type 0
Ends s n k = (s (n + k) ≡ 0) × ((i : ℕ) → i < k → s (n + i) ≢ 0)

tail : (s : ℕ → ℕ) (n k : ℕ) → Ends s n (suc k) → Ends s (n + 1) k
tail s n k (z, h) =
    (ap s (omega arith) ∙ z, λ i p e. h (suc i) (omega arith) (ap s (omega arith) ∙ e))

strlen_from : (fuel n k : ℕ) (s : ℕ → ℕ) → Ends s n k → k < fuel → strlen fuel s n ≡ some (n + k)
unfolding strlen
strlen_from zero n k s h p = ground arith
strlen_from (suc fuel) n zero s (z, h) p = let e : s n ≡ 0 = ap s (omega arith) ∙ z in ground arith
strlen_from (suc fuel) n (suc k) s h p =
    let d : s n ≢ 0 = λ e. h.1 0 (omega arith) (ap s (omega arith) ∙ e) in
    ground (arith, strlen_from fuel (n + 1) k s (tail s n k h) (omega arith))

-- `strlen` of a terminated string, with fuel for one more than its length, is the place of the
-- first terminator.
pub strlen_lem : (fuel k : ℕ) (s : ℕ → ℕ) → Ends s 0 k → k < fuel → strlen fuel s 0 ≡ some k
strlen_lem fuel k s h p = strlen_from fuel 0 k s h p ∙ ap some (omega arith)

minus_zero : (a b : ℕ) → (minus a b ≡ pos 0) ↔ (a ≡ b)
minus_zero a b = ground arith

char_minus_zero : (a b : ℕ) → a < 256 → b < 256 → (char_minus a b ≡ pos 0) ↔ (a ≡ b)
char_minus_zero a b p q = ground arith

-- The strings agree at `k` and all places before, counted from `n`.
abbrev pub Agree : (ℕ → ℕ) → (ℕ → ℕ) → ℕ → ℕ → Type 0
Agree l r n k = (i : ℕ) → i ≤ k → l (n + i) ≡ r (n + i)

Agree-zero : (l r : ℕ → ℕ) (n : ℕ) → l n ≡ r n → Agree l r n 0
Agree-zero l r n e i p = let q : n + i ≡ n = omega arith in ap l q ∙ e ∙ sym (ap r q)

Agree-suc : (l r : ℕ → ℕ) (n k : ℕ) → l n ≡ r n → Agree l r (n + 1) k → Agree l r n (suc k)
Agree-suc l r n k e h zero p = Agree-zero l r n e 0 (omega arith)
Agree-suc l r n k e h (suc i) p =
    let q : n + suc i ≡ n + 1 + i = omega arith in ap l q ∙ h i (omega arith) ∙ sym (ap r q)

Agree-head : (l r : ℕ → ℕ) (n k : ℕ) → Agree l r n k → l n ≡ r n
Agree-head l r n k h = let q : n ≡ n + 0 = omega arith in ap l q ∙ h 0 (omega arith) ∙ sym (ap r q)

Agree-tail : (l r : ℕ → ℕ) (n k : ℕ) → Agree l r n (suc k) → Agree l r (n + 1) k
Agree-tail l r n k h i p =
    let q : n + 1 + i ≡ n + suc i = omega arith in ap l q ∙ h (suc i) (omega arith) ∙ sym (ap r q)

strcmp_from :
    (fuel n k : ℕ) (l r : ℕ → ℕ)
    → Ends l n k
    → k < fuel
    → (d : ℤ) × (strcmp fuel l r n ≡ some d) × ((d ≡ pos 0) ↔ Agree l r n k)
unfolding strcmp
strcmp_from zero n k l r h p = ground arith
strcmp_from (suc fuel) n zero l r (z, h) p =
    let e : l n ≡ 0 = ap l (omega arith) ∙ z in
    let t : ((l n == r n) && not (l n == 0)) ≡ false = ground arith in
    (
      minus (l n) (r n),
      rw t refl,
      (
        λ q. Agree-zero l r n ((minus_zero (l n) (r n)).0 q),
        λ q. (minus_zero (l n) (r n)).1 (Agree-head l r n 0 q),
      ),
    )
strcmp_from (suc fuel) n (suc k) l r h p =
    let d : l n ≢ 0 = λ e. h.1 0 (omega arith) (ap l (omega arith) ∙ e) in
    elim (Bool-cases (l n == r n)) [
      | inl e ↦
          let t : ((l n == r n) && not (l n == 0)) ≡ true = ground arith in
          let same : l n ≡ r n = ground arith in
          let (x, y, (f, g)) = strcmp_from fuel (n + 1) k l r (tail l n k h) (omega arith) in
          (x, rw t y, (λ q. Agree-suc l r n k same (f q), λ q. g (Agree-tail l r n k q)))
      | inr e ↦
          let t : ((l n == r n) && not (l n == 0)) ≡ false = ground arith in
          let other : l n ≢ r n = ground arith in
          (
            minus (l n) (r n),
            rw t refl,
            (
              λ q. absurd (other ((minus_zero (l n) (r n)).0 q)),
              λ q. absurd (other (Agree-head l r n (suc k) q)),
            ),
          )
    ]

-- `strcmp` with a terminated string, with fuel for one more than its length, ends; the result is
-- zero exactly if the other string is the same up to and with the terminator.
pub strcmp-Agree :
    (fuel k : ℕ) (l r : ℕ → ℕ)
    → Ends l 0 k
    → k < fuel
    → (d : ℤ) × (strcmp fuel l r 0 ≡ some d) × ((d ≡ pos 0) ↔ Agree l r 0 k)
strcmp-Agree fuel k l r h p = strcmp_from fuel 0 k l r h p

-- Both strings have `k` bytes from `n` on before a terminator.
abbrev pub AreLong : (ℕ → ℕ) → (ℕ → ℕ) → ℕ → ℕ → Type 0
AreLong l r n k =
    (i : ℕ) → i < k → (0 < l (n + i)) × (l (n + i) < 256) × (0 < r (n + i)) × (r (n + i) < 256)

long_tail : (l r : ℕ → ℕ) (n k : ℕ) → AreLong l r n (suc k) → AreLong l r (n + 1) k
long_tail l r n k h i p =
    let q : n + suc i ≡ n + 1 + i = omega arith in
    let (a, b, c, d) = h (suc i) (omega arith) in
    let x : l (n + suc i) ≡ l (n + 1 + i) = ap l q in
    let y : r (n + suc i) ≡ r (n + 1 + i) = ap r q in
    (omega arith, omega arith, omega arith, omega arith)

strcmp_len_from :
    (k n : ℕ) (l r : ℕ → ℕ)
    → AreLong l r n k
    → (strcmp_len k l r n ≡ pos 0) ↔ ((i : ℕ) → i < k → l (n + i) ≡ r (n + i))
unfolding strcmp_len
strcmp_len_from zero n l r h = (λ e i p. ground arith, λ e. refl)
strcmp_len_from (suc k) n l r h =
    let (a, b, c, d) = h 0 (omega arith) in
    let x : l (n + 0) ≡ l n = ap l (omega arith) in
    let y : r (n + 0) ≡ r n = ap r (omega arith) in
    let t : (not (l n == 0) && not (r n == 0)) ≡ true = ground arith in
    let (f, g) = strcmp_len_from k (n + 1) l r (long_tail l r n k h) in
    elim (Bool-cases (l n == r n)) [
      | inl e ↦
          let same : l n ≡ r n = ground arith in
          rw (t, e)
            (
              (λ q i p. agree_below l r n k same (f q) i p),
              λ q. g (λ i p. agree_below_tail l r n k q i p),
            )
      | inr e ↦
          let other : l n ≢ r n = ground arith in
          let z = char_minus_zero (l n) (r n) (omega arith) (omega arith) in
          rw (t, e)
            ((λ q i p. absurd (other (z.0 q))), λ q. absurd (other (sym x ∙ q 0 (omega arith) ∙ y)))
    ]
  where
    agree_below :
        (l r : ℕ → ℕ) (n k : ℕ)
        → l n ≡ r n
        → ((i : ℕ) → i < k → l (n + 1 + i) ≡ r (n + 1 + i))
        → (i : ℕ) → i < suc k
        → l (n + i) ≡ r (n + i)
    agree_below l r n k e h zero p = Agree-zero l r n e 0 (omega arith)
    agree_below l r n k e h (suc i) p =
        let q : n + suc i ≡ n + 1 + i = omega arith in ap l q ∙ h i (omega arith) ∙ sym (ap r q)

    agree_below_tail :
        (l r : ℕ → ℕ) (n k : ℕ)
        → ((i : ℕ) → i < suc k → l (n + i) ≡ r (n + i))
        → (i : ℕ) → i < k
        → l (n + 1 + i) ≡ r (n + 1 + i)
    agree_below_tail l r n k h i p =
        let q : n + 1 + i ≡ n + suc i = omega arith in
        ap l q ∙ h (suc i) (omega arith) ∙ sym (ap r q)

-- The bounded `strcmp` of two strings that have no terminator in the first `k` bytes is zero
-- exactly if these bytes are the same.
pub strcmp_len-Agree :
    (k : ℕ) (l r : ℕ → ℕ)
    → AreLong l r 0 k
    → (strcmp_len k l r 0 ≡ pos 0) ↔ ((i : ℕ) → i < k → l (0 + i) ≡ r (0 + i))
strcmp_len-Agree k l r h = strcmp_len_from k 0 l r h
