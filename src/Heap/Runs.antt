-- ===== src/Heap/Runs.antt =====
-- Parts of the chain of headers of kernel/src/memory_management/heap.cpp.
use mates_os.Base.{
  refl, ℕ, List, ◌++◌, ◌∷◌, ◌≡◌, [], ap, if◌then◌else◌, ◌<◌, ◌≤◌, arith, ◌+◌, ◌∙◌, sym,
}
use mates_os.Heap.Segments.{Segment, header_size}
use mates_os.Heap.Chain.{Block, IsChain, behind, header, next_of}

-- The last header of a chain that starts at `a`.
abbrev pub last_of : ℕ → List Block → ℕ
last_of a [] = a
last_of a (b ∷ []) = a
last_of a (b ∷ c ∷ bs) = last_of (behind a b) (c ∷ bs)

pub last_of-ge : (a : ℕ) (bs : List Block) → a ≤ last_of a bs
last_of-ge a [] = omega arith
last_of-ge a (b ∷ []) = omega arith
last_of-ge a (b ∷ c ∷ bs) = omega (arith, last_of-ge (behind a b) (c ∷ bs))

-- The headers from `a` on are those of the blocks, up to `stop`, the header before which is `before`.
abbrev pub IsRun : (ℕ → Segment) → ℕ → ℕ → List Block → ℕ → ℕ → Type 0
IsRun segments last a [] before stop = (last ≡ before) × (a ≡ stop)
IsRun segments last a (b ∷ bs) before stop =
    (segments a ≡ header a last (behind a b) b) × IsRun segments a (behind a b) bs before stop

pub IsRun-le :
    (segments : ℕ → Segment) (last a : ℕ) (bs : List Block) (before stop : ℕ)
    → IsRun segments last a bs before stop
    → a ≤ stop
IsRun-le segments last a [] before stop (e, f) = omega (arith, f)
IsRun-le segments last a (b ∷ bs) before stop (e, r) =
    omega (arith, IsRun-le segments a (behind a b) bs before stop r)

-- A run depends on the headers below its end alone.
pub IsRun-same :
    (s t : ℕ → Segment) (last a : ℕ) (bs : List Block) (before stop : ℕ)
    → ((i : ℕ) → a ≤ i → i < stop → t i ≡ s i)
    → IsRun s last a bs before stop
    → IsRun t last a bs before stop
IsRun-same s t last a [] before stop h r = r
IsRun-same s t last a (b ∷ bs) before stop h (e, r) =
    let le = IsRun-le s a (behind a b) bs before stop r in
    (
      h a (omega arith) (omega arith) ∙ e,
      IsRun-same s t a (behind a b) bs before stop (λ i p. h i (omega arith)) r,
    )

pub next_of-append :
    (a : ℕ) (ps : List Block) (q : Block) (qs : List Block) → next_of a (ps ++ q ∷ qs) ≡ a
next_of-append a [] q qs = refl
next_of-append a (p ∷ ps) q qs = refl

-- A run and the chain behind it are a chain.
pub IsRun-IsChain :
    (s : ℕ → Segment) (end last a : ℕ) (ps : List Block) (before stop : ℕ) (q : Block)
    (qs : List Block)
    → IsRun s last a ps before stop
    → IsChain s end before stop (q ∷ qs)
    → IsChain s end last a (ps ++ q ∷ qs)
IsRun-IsChain s end last a [] before stop q qs (e, f) c = rw (e, f) c
IsRun-IsChain s end last a (p ∷ ps) before stop q qs (e, r) c = (
  rw (next_of-append (behind a p) ps q qs) e,
  IsRun-IsChain s end a (behind a p) ps before stop q qs r c,
)

-- A chain is cut before any of its blocks.
pub IsChain-cut :
    (s : ℕ → Segment) (end last a : ℕ) (ps : List Block) (q : Block) (qs : List Block)
    → IsChain s end last a (ps ++ q ∷ qs)
    → (before : ℕ) × (stop : ℕ) × IsRun s last a ps before stop × IsChain s end before stop (q ∷ qs)
IsChain-cut s end last a [] q qs c = (last, a, (refl, refl), c)
IsChain-cut s end last a (p ∷ ps) q qs (e, c) =
    let (before, stop, r, d) = IsChain-cut s end a (behind a p) ps q qs c in
    (
      before,
      stop,
      (e ∙ ap (λ (n : ℕ). header a last n p) (next_of-append (behind a p) ps q qs), r),
      d,
    )

pub last_of-run :
    (s : ℕ → Segment) (last a : ℕ) (ps : List Block) (before stop : ℕ) (q : Block) (qs : List Block)
    → IsRun s last a ps before stop
    → last_of a (ps ++ q ∷ qs) ≡ last_of stop (q ∷ qs)
last_of-run s last a [] before stop q qs (e, f) = ap (λ (n : ℕ). last_of n (q ∷ qs)) f
last_of-run s last a (p ∷ []) before stop q qs (e, r) =
    last_of-run s a (behind a p) [] before stop q qs r
last_of-run s last a (p ∷ p' ∷ ps) before stop q qs (e, r) =
    last_of-run s a (behind a p) (p' ∷ ps) before stop q qs r

-- The last header of a run that is not empty.
pub IsRun-last :
    (s : ℕ → Segment) (last a : ℕ) (p : Block) (ps : List Block) (before stop : ℕ)
    → IsRun s last a (p ∷ ps) before stop
    → (init : List Block) × (l : Block) × (prev : ℕ) × (p ∷ ps ≡ init ++ l ∷ [])
      × IsRun s last a init prev before
      × (s before ≡ header before prev stop l)
      × (behind before l ≡ stop)
IsRun-last s last a p [] before stop (e, (f, g)) = (
  [],
  p,
  last,
  refl,
  (refl, f),
  ap s (sym f) ∙ e ∙ ap (λ (n : ℕ). header a last n p) g,
  ap (λ (n : ℕ). behind n p) (sym f) ∙ g,
)
IsRun-last s last a p (p' ∷ ps) before stop (e, r) =
    let (init, l, prev, eq, run, at, end) = IsRun-last s a (behind a p) p' ps before stop r in
    (p ∷ init, l, prev, ap (λ (n : List Block). p ∷ n) eq, (e, run), at, end)

-- The bytes of the last block and its header, if it is free.
abbrev pub tail_room : List Block → ℕ
tail_room [] = 0
tail_room (b ∷ []) = if b.is_free then b.size + header_size else 0
tail_room (b ∷ c ∷ bs) = tail_room (c ∷ bs)

pub tail_room-last :
    (ps : List Block) (b : Block) (bs : List Block)
    → bs ≡ []
    → tail_room (ps ++ b ∷ bs) ≡ (if b.is_free then b.size + header_size else 0)
tail_room-last [] b bs e = ap (λ (l : List Block). tail_room (b ∷ l)) e
tail_room-last (p ∷ []) b bs e = ap (λ (l : List Block). tail_room (b ∷ l)) e
tail_room-last (p ∷ p' ∷ ps) b bs e = tail_room-last (p' ∷ ps) b bs e
