-- ===== src/Heap/Held.antt =====
-- The addresses that the callers of kernel/src/memory_management/heap.cpp hold, and the blocks in use.
use mates_os.Base.{
  inl, inr, refl, List, ℕ, ◌++◌, ◌≡◌, ◌≤◌, arith, sym, ◌∷◌, [], ◌+◌, ◌∙◌, ap, Bool-cases, ◌⊎◌, ◌<◌,
}
use mates_os.Heap.Segments.{Segment, header_size}
use mates_os.Heap.Chain.{Block, IsChain, behind}
use mates_os.Heap.Used.{Inserted, used, cons_head, cons_tail, Inserted-cons}

swap-Inserted :
    (x y : ℕ × ℕ) (ps qs us vs : List (ℕ × ℕ))
    → ps ++ qs ≡ us ++ y ∷ vs
    → (r : List (ℕ × ℕ)) × Inserted y r (ps ++ x ∷ qs) × Inserted x (us ++ vs) r
swap-Inserted x y [] qs us vs e = (
  x ∷ us ++ vs,
  (x ∷ us, vs, refl, ap (λ (l : List (ℕ × ℕ)). x ∷ l) e),
  ([], us ++ vs, refl, refl),
)
swap-Inserted x y (p ∷ ps) qs [] vs e = (
  ps ++ x ∷ qs,
  ([], ps ++ x ∷ qs, refl, ap (λ (z : ℕ × ℕ). z ∷ ps ++ x ∷ qs) (cons_head e)),
  (ps, qs, sym (cons_tail e), refl),
)
swap-Inserted x y (p ∷ ps) qs (u ∷ us) vs e =
    let (r, f, g) = swap-Inserted x y ps qs us vs (cons_tail e) in
    (
      p ∷ r,
      Inserted-cons y p r (ps ++ x ∷ qs) f,
      (let (cs, ds, m, n) = Inserted-cons x u (us ++ vs) r g in
          (cs, ds, m, ap (λ (z : ℕ × ℕ). z ∷ r) (cons_head e) ∙ n)),
    )

-- The blocks are those at the addresses, in any order. With an address goes the number of bytes that were
-- asked for; the block has as many, or has fewer than 32 bytes in all.
abbrev pub AreHeld : List (ℕ × ℕ) → List (ℕ × ℕ) → Type 0
AreHeld blocks [] = blocks ≡ []
AreHeld blocks (a ∷ held) =
    (size : ℕ) × (rest : List (ℕ × ℕ)) × Inserted (a.0, size) rest blocks
    × ((a.1 ≤ size) ⊎ (size < 32))
    × AreHeld rest held

pub AreHeld-same : (xs ys held : List (ℕ × ℕ)) → xs ≡ ys → AreHeld xs held → AreHeld ys held
AreHeld-same xs ys [] e h = sym e ∙ h
AreHeld-same xs ys (a ∷ held) e (size, rest, (ps, qs, f, g), enough, h) =
    (size, rest, (ps, qs, f, sym e ∙ g), enough, h)

-- Any of the addresses is that of a block, and the others are those of the other blocks.
pub AreHeld-remove :
    (blocks xs : List (ℕ × ℕ)) (a : ℕ × ℕ) (ys : List (ℕ × ℕ))
    → AreHeld blocks (xs ++ a ∷ ys)
    → (size : ℕ) × (ps : List (ℕ × ℕ)) × (qs : List (ℕ × ℕ)) × (blocks ≡ ps ++ (a.0, size) ∷ qs)
      × AreHeld (ps ++ qs) (xs ++ ys)
AreHeld-remove blocks [] a ys (size, rest, (ps, qs, f, g), enough, h) =
    (size, ps, qs, g, AreHeld-same rest (ps ++ qs) ys f h)
AreHeld-remove blocks (x ∷ xs) a ys (m, rest, (ps, qs, f, g), enough, h) =
    let (size, us, vs, e, k) = AreHeld-remove rest xs a ys h in
    let (r, (gs, hs, i, j), inner) = swap-Inserted (x.0, m) (a.0, size) ps qs us vs (sym f ∙ e) in
    (
      size,
      gs,
      hs,
      g ∙ j,
      (m, us ++ vs, (let (cs, ds, o, p) = inner in (cs, ds, o, sym i ∙ p)), enough, k),
    )

-- The blocks lie one behind the other from `low` to `high`, with a header before each.
abbrev pub AreApart : ℕ → ℕ → List (ℕ × ℕ) → Type 0
AreApart low high [] = low ≤ high
AreApart low high ((a, size) ∷ blocks) = (low + header_size ≤ a) × AreApart (a + size) high blocks

AreApart-lower :
    (low low' high : ℕ) (blocks : List (ℕ × ℕ))
    → low' ≤ low
    → AreApart low high blocks
    → AreApart low' high blocks
AreApart-lower low low' high [] q h = omega arith
AreApart-lower low low' high ((a, size) ∷ blocks) q (p, h) = (omega arith, h)

-- The blocks in use of a chain do not overlap each other nor any of their headers.
pub used-AreApart :
    (s : ℕ → Segment) (end last a : ℕ) (bs : List Block)
    → IsChain s end last a bs
    → AreApart a end (used a bs)
used-AreApart s end last a [] c = omega (arith, c)
used-AreApart s end last a (b ∷ bs) (e, c) =
    let ih = used-AreApart s end a (behind a b) bs c in
    elim (Bool-cases b.is_free) [
      | inl t ↦ rw t (AreApart-lower (behind a b) a end (used (behind a b) bs) (omega arith) ih)
      | inr t ↦ rw t (omega arith, ih)
    ]
