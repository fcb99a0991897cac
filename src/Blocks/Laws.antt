-- ===== src/Blocks/Laws.antt =====
-- What the routines of kernel/src/library/memory do to the memory.
use mates_os.Base.{
  ℕ, ◌<◌, ◌≡◌, ◌≤◌, if◌then◌else◌, pos, suc, ◌+◌, ◌⊎◌, arith, leb, ◌-◌, ◌↔◌, ap, ◌&&◌, ◌∙◌,
  Bool-cases, ltb, zero, refl, ◌==◌, inl, inr, ◌≢◌,
}
use mates_os.Blocks.{copy_loop, memcmp, memcpy, memmove, memset, memset_loop, write_at}

memset_from :
    (left start value i : ℕ) (m : ℕ → ℕ) (a : ℕ)
    → memset_loop left start value i m a
      ≡ (if leb (start + i) a && ltb a (start + i + left) then value else m a)
unfolding memset_loop
memset_from zero start value i m a = ground arith
memset_from (suc left) start value i m a =
    ground (arith, memset_from left start value (i + 1) (write_at m (start + i) value) a)

-- `memset` gives every byte of the block the value and leaves every other byte.
pub memset_lem :
    (start value num : ℕ) (m : ℕ → ℕ) (a : ℕ)
    → memset start value num m a ≡ (if leb start a && ltb a (start + num) then value else m a)
unfolding memset
memset_lem start value num m a = ground (arith, memset_from num start value 0 m a)

-- The block at `dest` holds what the block at `src` held in `m`, and all bytes that lie neither in it nor
-- in the block at `temp` are as in `m`.
abbrev pub Copied : ℕ → ℕ → ℕ → ℕ → (ℕ → ℕ) → (ℕ → ℕ) → Type 0
Copied dest src n temp m m' =
    ((i : ℕ) → i < n → m' (dest + i) ≡ m (src + i))
    × ((a : ℕ) → (a < dest) ⊎ (dest + n ≤ a) → (a < temp) ⊎ (temp + n ≤ a) → m' a ≡ m a)

-- Two blocks of `n` bytes have no byte in common.
abbrev pub AreDisjoint : ℕ → ℕ → ℕ → Type 0
AreDisjoint n a b = (a + n ≤ b) ⊎ (b + n ≤ a)

copied_before : (dest src n : ℕ) (m : ℕ → ℕ) (a : ℕ) → a < dest → (memcpy dest src n m).0 a ≡ m a
unfolding memcpy
copied_before dest src zero m a h = refl
copied_before dest src (suc n) m a h =
    copied_before (dest + 1) (src + 1) n (write_at m dest (m src)) a (omega arith) ∙ ground arith

memcpy-copies :
    (dest src n : ℕ) (m : ℕ → ℕ)
    → (dest ≤ src) ⊎ (src + n ≤ dest)
    → ((i : ℕ) → i < n → (memcpy dest src n m).0 (dest + i) ≡ m (src + i))
      × ((a : ℕ) → (a < dest) ⊎ (dest + n ≤ a) → (memcpy dest src n m).0 a ≡ m a)
      × ((memcpy dest src n m).1 ≡ dest + n)
unfolding memcpy
memcpy-copies dest src zero m h = ((λ i p. ground arith), (λ a p. refl), omega arith)
memcpy-copies dest src (suc n) m h =
    let w : ℕ → ℕ = write_at m dest (m src) in
    let (f, g, e) = memcpy-copies (dest + 1) (src + 1) n w (ground arith) in
    (held f, (λ a p. other g a p), e ∙ omega arith)
  where
    w : ℕ → ℕ
    w = write_at m dest (m src)

    held :
        ((i : ℕ) → i < n → (memcpy (dest + 1) (src + 1) n w).0 (dest + 1 + i) ≡ w (src + 1 + i))
        → (i : ℕ) → i < suc n
        → (memcpy (dest + 1) (src + 1) n w).0 (dest + i) ≡ m (src + i)
    held f zero p =
        let q : dest + 0 ≡ dest = omega arith in
        let r : src + 0 ≡ src = omega arith in
        rw (q, r) (copied_before (dest + 1) (src + 1) n w dest (omega arith) ∙ ground arith)
    held f (suc i) p =
        let q : dest + suc i ≡ dest + 1 + i = omega arith in
        let r : src + suc i ≡ src + 1 + i = omega arith in
        rw (q, r) (f i (omega arith) ∙ ground arith)

    other :
        ((a : ℕ)
          → (a < dest + 1) ⊎ (dest + 1 + n ≤ a)
          → (memcpy (dest + 1) (src + 1) n w).0 a ≡ w a)
        → (a : ℕ) → (a < dest) ⊎ (dest + suc n ≤ a)
        → (memcpy (dest + 1) (src + 1) n w).0 a ≡ m a
    other g a p = g a (ground arith) ∙ ground arith

copy_from :
    (left i to from : ℕ) (m : ℕ → ℕ) (a : ℕ)
    → AreDisjoint (i + left) to from
    → copy_loop left i to from m a
      ≡ (if leb (to + i) a && ltb a (to + i + left) then m (from + (a - to)) else m a)
unfolding copy_loop
copy_from zero i to from m a d = ground arith
copy_from (suc left) i to from m a d =
    let w : ℕ → ℕ = write_at m (to + i) (m (from + i)) in
    let ih = copy_from left (i + 1) to from w a (ground (arith, d)) in
    elim (Bool-cases (to + i == a)) [
      | inl e ↦
          let q : m (from + i) ≡ m (from + (a - to)) = ap m (ground arith) in ground (arith, ih, q)
      | inr e ↦ ground (arith, ih, d)
    ]

-- `memcpy` and `memmove` of blocks that have no byte in common, where `new` gives `memmove` an array that
-- has no byte in common with them, copy the block: every other byte is as before, but for those of the
-- array. `memmove` returns the destination, `memcpy` the byte past its end.
pub copies-Copied :
    (dest src n temp : ℕ) (m : ℕ → ℕ)
    → AreDisjoint n dest src
    → AreDisjoint n temp src
    → AreDisjoint n dest temp
    → Copied dest src n temp m (memmove dest src n temp m).0
      × ((memmove dest src n temp m).1 ≡ dest)
      × Copied dest src n dest m (memcpy dest src n m).0
      × ((memcpy dest src n m).1 ≡ dest + n)
unfolding memmove
copies-Copied dest src n temp m apart in_apart out_apart =
    let (f, g, e) = memcpy-copies dest src n m (ground (arith, apart)) in
    (
      (
        (λ i p.
            let q : temp + (dest + i - dest) ≡ temp + i = omega arith in
            let r : src + (temp + i - temp) ≡ src + i = omega arith in
            let out = copy_from n 0 dest temp filled (dest + i) (ground (arith, out_apart)) in
            let into = copy_from n 0 temp src m (temp + i) (ground (arith, in_apart)) in
            let out' : filled (temp + (dest + i - dest)) ≡ filled (temp + i) = ap filled q in
            let into' : m (src + (temp + i - temp)) ≡ m (src + i) = ap m r in
            ground (arith, out, into, out', into')),
        λ a p o.
            let out = copy_from n 0 dest temp filled a (ground (arith, out_apart)) in
            let into = copy_from n 0 temp src m a (ground (arith, in_apart)) in
            ground (arith, out, into),
      ),
      refl,
      (f, λ a p o. g a p),
      e,
    )
  where
    filled : ℕ → ℕ
    filled = copy_loop n 0 temp src m

-- `memcmp` is zero exactly if the two blocks hold the same bytes.
pub memcmp_lem :
    (count : ℕ) (m : ℕ → ℕ) (str1 str2 : ℕ)
    → (memcmp count m str1 str2 ≡ pos 0) ↔ ((i : ℕ) → i < count → m (str1 + i) ≡ m (str2 + i))
unfolding memcmp
memcmp_lem zero m str1 str2 = ((λ e i p. ground arith), λ e. refl)
memcmp_lem (suc count) m str1 str2 =
    let (f, g) = memcmp_lem count m (str1 + 1) (str2 + 1) in
    elim (Bool-cases (m str1 == m str2)) [
      | inl e ↦ rw e ((λ q i p. both (ground arith) (f q) i p), λ q. g (rest q))
      | inr e ↦
          let other : m str1 ≢ m str2 = ground arith in
          ((λ q. ground arith), λ q. absurd (other (first q)))
    ]
  where
    first : ((i : ℕ) → i < suc count → m (str1 + i) ≡ m (str2 + i)) → m str1 ≡ m str2
    first q = ap m (omega arith) ∙ q 0 (omega arith) ∙ ap m (omega arith)

    both :
        m str1 ≡ m str2
        → ((i : ℕ) → i < count → m (str1 + 1 + i) ≡ m (str2 + 1 + i))
        → (i : ℕ) → i < suc count
        → m (str1 + i) ≡ m (str2 + i)
    both e q zero p = ap m (omega arith) ∙ e ∙ ap m (omega arith)
    both e q (suc i) p = ap m (omega arith) ∙ q i (omega arith) ∙ ap m (omega arith)

    rest :
        ((i : ℕ) → i < suc count → m (str1 + i) ≡ m (str2 + i))
        → (i : ℕ) → i < count
        → m (str1 + 1 + i) ≡ m (str2 + 1 + i)
    rest q i p = ap m (omega arith) ∙ q (suc i) (omega arith) ∙ ap m (omega arith)
