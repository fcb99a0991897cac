-- ===== src/Heap/Used.antt =====
-- The segments in use in the chain of headers of kernel/src/memory_management/heap.cpp.
use mathlib.Core.Path.{ap₂}
use mates_os.Base.{
  refl, ℕ, List, ◌++◌, ◌∷◌, ◌≡◌, [], ap, if◌then◌else◌, Bool-cases, arith, ◌+◌, ◌∙◌, inl, inr,
  false, length, sym, true,
}
use mates_os.Heap.Segments.{Segment, header_size}
use mates_os.Heap.Chain.{Block, IsChain, behind, header, next_of}
use mates_os.Heap.Runs.{IsRun, next_of-append}

-- The addresses and sizes of the blocks that are in use.
abbrev pub used : ℕ → List Block → List (ℕ × ℕ)
used a [] = []
used a (b ∷ bs) =
    if b.is_free then used (behind a b) bs else (a + header_size, b.size) ∷ used (behind a b) bs

pub used-append :
    (s : ℕ → Segment) (last a : ℕ) (ps : List Block) (before stop : ℕ) (qs : List Block)
    → IsRun s last a ps before stop
    → used a (ps ++ qs) ≡ used a ps ++ used stop qs
used-append s last a [] before stop qs (e, f) = ap (λ (n : ℕ). used n qs) f
used-append s last a (p ∷ ps) before stop qs (e, r) =
    let ih = used-append s a (behind a p) ps before stop qs r in
    elim (Bool-cases p.is_free) [
      | inl t ↦ rw t ih
      | inr t ↦ rw t (ap (λ (l : List (ℕ × ℕ)). (a + header_size, p.size) ∷ l) ih)
    ]

-- `ys` is `xs` with `x` in some place.
abbrev pub Inserted : ℕ × ℕ → List (ℕ × ℕ) → List (ℕ × ℕ) → Type 0
Inserted x xs ys = (ps : List (ℕ × ℕ)) × (qs : List (ℕ × ℕ)) × (xs ≡ ps ++ qs) × (ys ≡ ps ++ x ∷ qs)

pub Inserted-cons :
    (x p : ℕ × ℕ) (xs ys : List (ℕ × ℕ)) → Inserted x xs ys → Inserted x (p ∷ xs) (p ∷ ys)
Inserted-cons x p xs ys (ps, qs, e, f) =
    (p ∷ ps, qs, ap (λ (l : List (ℕ × ℕ)). p ∷ l) e, ap (λ (l : List (ℕ × ℕ)). p ∷ l) f)

pub Inserted-append :
    (x : ℕ × ℕ) (ps xs ys : List (ℕ × ℕ)) → Inserted x xs ys → Inserted x (ps ++ xs) (ps ++ ys)
Inserted-append x [] xs ys h = h
Inserted-append x (p ∷ ps) xs ys h =
    Inserted-cons x p (ps ++ xs) (ps ++ ys) (Inserted-append x ps xs ys h)

pub append_used-nil : (xs ys : List (ℕ × ℕ)) → ys ≡ [] → xs ++ ys ≡ xs
append_used-nil [] ys e = e
append_used-nil (x ∷ xs) ys e = ap (λ (l : List (ℕ × ℕ)). x ∷ l) (append_used-nil xs ys e)

abbrev head_or : List (ℕ × ℕ) → ℕ × ℕ
head_or [] = (0, 0)
head_or (x ∷ xs) = x

abbrev tail_of : List (ℕ × ℕ) → List (ℕ × ℕ)
tail_of [] = []
tail_of (x ∷ xs) = xs

pub cons_head : {x y : ℕ × ℕ} {xs ys : List (ℕ × ℕ)} → x ∷ xs ≡ y ∷ ys → x ≡ y
cons_head e = ap head_or e

pub cons_tail : {x y : ℕ × ℕ} {xs ys : List (ℕ × ℕ)} → x ∷ xs ≡ y ∷ ys → xs ≡ ys
cons_tail e = ap tail_of e

nil_cons : {x : ℕ × ℕ} {xs : List (ℕ × ℕ)} → ¬ (Path (List (ℕ × ℕ)) [] (x ∷ xs))
nil_cons e = ground (arith, ap (λ (l : List (ℕ × ℕ)). length l) e)

-- A block that is listed as in use stands in the chain, behind a run and before a chain.
pub used-cut :
    (s : ℕ → Segment) (end last a : ℕ) (bs : List Block) (xs : List (ℕ × ℕ)) (x : ℕ × ℕ)
    (ys : List (ℕ × ℕ))
    → IsChain s end last a bs
    → used a bs ≡ xs ++ x ∷ ys
    → (ps : List Block) × (b : Block) × (qs : List Block) × (before : ℕ) × (stop : ℕ) × (bs
        ≡ ps ++ b ∷ qs)
      × IsRun s last a ps before stop
      × IsChain s end before stop (b ∷ qs)
      × (b.is_free ≡ false)
      × (x ≡ (stop + header_size, b.size))
      × (used a ps ≡ xs)
      × (used (behind stop b) qs ≡ ys)
used-cut s end last a [] [] x ys c e = absurd (nil_cons e)
used-cut s end last a [] (z ∷ xs) x ys c e = absurd (nil_cons e)
used-cut s end last a (b ∷ bs) xs x ys (h, c) e = elim (Bool-cases b.is_free) [
  | inl f ↦
      let e' : used (behind a b) bs ≡ xs ++ x ∷ ys = rw (sym (taken f)) e in
      let (ps, d, qs, before, stop, eq, run, chain, busy, place, us, vs) =
        used-cut s end a (behind a b) bs xs x ys c e' in
      (
        b ∷ ps,
        d,
        qs,
        before,
        stop,
        ap (λ (n : List Block). b ∷ n) eq,
        (
          h
              ∙ ap (λ (n : ℕ). header a last n b)
                  (ap (next_of (behind a b)) eq ∙ next_of-append (behind a b) ps d qs),
          run,
        ),
        chain,
        busy,
        place,
        rw f us,
        vs,
      )
  | inr f ↦ here f xs (rw (sym (passed f)) e) (λ zs. used-cut s end a (behind a b) bs zs x ys c)
]
  where
    taken : b.is_free ≡ true → used a (b ∷ bs) ≡ used (behind a b) bs
    taken f = rw f refl

    passed : b.is_free ≡ false → used a (b ∷ bs) ≡ (a + header_size, b.size) ∷ used (behind a b) bs
    passed f = rw f refl

    here :
        b.is_free ≡ false
        → (xs : List (ℕ × ℕ)) → (a + header_size, b.size) ∷ used (behind a b) bs ≡ xs ++ x ∷ ys
        → ((zs : List (ℕ × ℕ))
            → used (behind a b) bs ≡ zs ++ x ∷ ys
            → (ps : List Block) × (d : Block) × (qs : List Block) × (before : ℕ) × (stop : ℕ) × (bs
                ≡ ps ++ d ∷ qs)
              × IsRun s a (behind a b) ps before stop
              × IsChain s end before stop (d ∷ qs)
              × (d.is_free ≡ false)
              × (x ≡ (stop + header_size, d.size))
              × (used (behind a b) ps ≡ zs)
              × (used (behind stop d) qs ≡ ys))
        → (ps : List Block) × (d : Block) × (qs : List Block) × (before : ℕ) × (stop : ℕ) × (b ∷ bs
            ≡ ps ++ d ∷ qs)
          × IsRun s last a ps before stop
          × IsChain s end before stop (d ∷ qs)
          × (d.is_free ≡ false)
          × (x ≡ (stop + header_size, d.size))
          × (used a ps ≡ xs)
          × (used (behind stop d) qs ≡ ys)
    here f [] e ih =
        ([], b, bs, last, a, refl, (refl, refl), (h, c), f, sym (cons_head e), refl, cons_tail e)
    here f (z ∷ zs) e ih =
        let (ps, d, qs, before, stop, eq, run, chain, busy, place, us, vs) = ih zs (cons_tail e) in
        (
          b ∷ ps,
          d,
          qs,
          before,
          stop,
          ap (λ (n : List Block). b ∷ n) eq,
          (
            h
                ∙ ap (λ (n : ℕ). header a last n b)
                    (ap (next_of (behind a b)) eq ∙ next_of-append (behind a b) ps d qs),
            run,
          ),
          chain,
          busy,
          place,
          rw f (ap₂ (λ (n : ℕ × ℕ) (l : List (ℕ × ℕ)). n ∷ l) (cons_head e) us),
          vs,
        )
