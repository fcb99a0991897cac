-- ===== src/Heap/Chain.antt =====
-- The headers of kernel/src/memory_management/heap.cpp as a chain that tiles the heap.
use mates_os.Base.{sym, ℕ, Bool, List, ◌+◌, ◌∷◌, ◌≡◌, ◌≤◌, [], arith, ◌∙◌, ◌-◌}
use mates_os.Heap.Segments.{Segment, header_size}

-- A segment by its length and whether it is free.
pub record Block : Type 0 where
  pub size : ℕ
  pub is_free : Bool

-- The address behind a segment.
abbrev pub behind : ℕ → Block → ℕ
behind a b = a + header_size + b.size

-- The header at `a` is that of the block, with the links to both sides; NULL is 0.
abbrev pub header : ℕ → ℕ → ℕ → Block → Segment
header a last next b = record { length = b.size; next = next; last = last; free = b.is_free }

abbrev pub next_of : ℕ → List Block → ℕ
next_of a [] = 0
next_of a (b ∷ bs) = a

-- From `a` on, with `last` before it, the headers are those of the blocks, one behind the other, up
-- to the end of the heap.
abbrev pub IsChain : (ℕ → Segment) → ℕ → ℕ → ℕ → List Block → Type 0
IsChain segments end last a [] = a ≡ end
IsChain segments end last a (b ∷ bs) =
    (segments a ≡ header a last (next_of (behind a b) bs) b)
    × IsChain segments end a (behind a b) bs

pub IsChain-le :
    (segments : ℕ → Segment) (end last a : ℕ) (bs : List Block)
    → IsChain segments end last a bs
    → a ≤ end
IsChain-le segments end last a [] c = omega (arith, c)
IsChain-le segments end last a (b ∷ bs) (e, c) =
    omega (arith, IsChain-le segments end a (behind a b) bs c)

-- A chain depends on the headers from its start on alone.
pub IsChain-same :
    (s t : ℕ → Segment) (end last a : ℕ) (bs : List Block)
    → ((i : ℕ) → a ≤ i → t i ≡ s i)
    → IsChain s end last a bs
    → IsChain t end last a bs
IsChain-same s t end last a [] h c = c
IsChain-same s t end last a (b ∷ bs) h (e, c) =
    (h a (omega arith) ∙ e, IsChain-same s t end a (behind a b) bs (λ i p. h i (omega arith)) c)

pub IsChain-end :
    (s : ℕ → Segment) (x y last a : ℕ) (bs : List Block)
    → x ≡ y
    → IsChain s x last a bs
    → IsChain s y last a bs
IsChain-end s x y last a [] e c = c ∙ e
IsChain-end s x y last a (b ∷ bs) e (f, c) = (f, IsChain-end s x y a (behind a b) bs e c)

pub IsChain-start :
    (s : ℕ → Segment) (end last a b : ℕ) (bs : List Block)
    → a ≡ b
    → IsChain s end last a bs
    → IsChain s end last b bs
IsChain-start s end last a b bs e c = rw (sym e) c

-- The two blocks of one that is split at a length.
abbrev pub front : ℕ → Block → Block
front length b = record { size = length; is_free = b.is_free }

abbrev pub rest_of : ℕ → Block → Block
rest_of length b = record { size = b.size - length - 32; is_free = b.is_free }
