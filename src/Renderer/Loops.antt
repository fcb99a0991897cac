-- ===== src/Renderer/Loops.antt =====
-- Loops of kernel/src/renderer over rows and columns, pass by pass.
use mates_os.Base.{
  inl, inr, zero, suc, ℕ, ◌<◌, ◌≤◌, ◌+◌, for_loop, ◌≢◌, arith, Bool-cases, ◌==◌, ◌≡◌, ◌∙◌, refl,
}

-- A loop whose passes all keep a property.
pub for_loop-never {ℓ κ} :
    {S : Type ℓ} (P : S → Type κ) (body : ℕ → S → S) (n from : ℕ) (s : S)
    → ((i : ℕ) (t : S) → from ≤ i → i < from + n → P t → P (body i t))
    → P s
    → P (for_loop body n from s)
for_loop-never P body zero from s h p = p
for_loop-never P body (suc n) from s h p =
    for_loop-never P body n (from + 1) (body from s) (λ i t q r. h i t (omega arith) (omega arith))
      (h from s (omega arith) (omega arith) p)

-- A loop one pass of which leads from a property to another, while the others keep both.
pub for_loop-once {ℓ κ} :
    {S : Type ℓ} (P Q : S → Type κ) (body : ℕ → S → S) (n from k : ℕ) (s : S)
    → ((i : ℕ) (t : S) → i < from + n → i ≢ k → P t → P (body i t))
    → ((t : S) → P t → Q (body k t))
    → ((i : ℕ) (t : S) → i < from + n → i ≢ k → Q t → Q (body i t))
    → from ≤ k
    → k < from + n
    → P s
    → Q (for_loop body n from s)
for_loop-once P Q body zero from k s before now after low high p = absurd (omega arith)
for_loop-once P Q body (suc n) from k s before now after low high p =
    elim (Bool-cases (from == k)) [
      | inl e ↦
          let same : from ≡ k = ground arith in
          for_loop-never Q body n (from + 1) (body from s)
            (λ i t lo hi q. after i t (omega arith) (λ z. omega arith) q) (rw same (now s p))
      | inr e ↦
          for_loop-once P Q body n (from + 1) k (body from s) (λ i t q. before i t (omega arith))
            now (λ i t q. after i t (omega arith)) (ground arith) (omega arith)
            (before from s (omega arith) (ground arith) p)
    ]

-- A loop keeps what every pass keeps.
pub for_loop-keeps {ℓ κ} :
    {S : Type ℓ} {B : Type κ} (f : S → B) (body : ℕ → S → S) (n from : ℕ) (s : S)
    → ((i : ℕ) (t : S) → f (body i t) ≡ f t)
    → f (for_loop body n from s) ≡ f s
for_loop-keeps f body zero from s h = refl
for_loop-keeps f body (suc n) from s h =
    for_loop-keeps f body n (from + 1) (body from s) h ∙ h from s
