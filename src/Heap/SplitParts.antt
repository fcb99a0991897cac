-- ===== src/Heap/SplitParts.antt =====
-- `Split` of kernel/src/memory_management/heap.cpp on the chain from some header to the end of the heap.
use mates_os.Base.{
  refl, inl, inr, ℕ, List, ◌+◌, ◌<◌, ◌∙◌, ◌∷◌, [], ◌^◌, ◌≡◌, ap, false, true, ◌==◌, arith,
  Bool-cases, if◌then◌else◌, ne→==, sym, ◌≤◌, ltb, ◌⊎◌, sub64, ◌||◌, leb, u64, eq→==, ◌-◌,
}
use mates_os.Paging.Source.{Source}
use mates_os.Heap.Chain.{Block, IsChain, behind, IsChain-end, IsChain-le, front, rest_of}
use mates_os.Heap.Segments.{Heap, Segment, header_size, split}
use mates_os.Heap.Runs.{last_of, last_of-ge}
use mates_os.Heap.Split.{split-IsChain}
use mates_os.Heap.SplitLast.{split_last-IsChain}
use mates_os.Heap.Parts.{IsPart, Keeps}

module _ (source : Source) where
  -- Where `Split` does not leave 16 bytes on both sides and a header, it changes nothing.
  pub split-small :
      (h : Heap source) (last a length : ℕ) (b : Block) (bs : List Block)
      → length < 2 ^ 62
      → b.size < length + 48
      → IsPart source h last a (b ∷ bs)
      → (split source a length h).1 ≡ h
  unfolding split
  split-small h last a length b bs fits small p =
      let up = IsChain-le h.segments h.heap_end a (behind a b) bs p.chain.1 in
      let size : (h.segments a).length ≡ b.size = ap (λ (t : Segment). t.length) p.chain.0 in
      let z = p.fits in
      elim (Bool-cases (ltb length 0x10)) [
        | inl t ↦ rw t refl
        | inr t ↦
            let left : ℕ = sub64 (sub64 (h.segments a).length length) header_size in
            let q : (ltb left 0x10 || leb (2 ^ 63) left) ≡ true = refused left (omega arith) in
            rw (t, q) refl
      ]
    where
      refused : (n : ℕ) → (n < 16) ⊎ (2 ^ 63 ≤ n) → (ltb n 0x10 || leb (2 ^ 63) n) ≡ true
      refused n h = ground arith

  split-frame :
      (a length : ℕ) (h : Heap source)
      → ((split source a length h).1.heap_start ≡ h.heap_start)
        × ((split source a length h).1.heap_end ≡ h.heap_end)
  unfolding split
  split-frame a length h = elim (Bool-cases (ltb length 0x10)) [
    | inl t ↦ rw t (refl, refl)
    | inr t ↦
        elim (Bool-cases (
          ltb (sub64 (sub64 (h.segments a).length length) header_size) 0x10
          || leb (2 ^ 63) (sub64 (sub64 (h.segments a).length length) header_size))) [
            | inl q ↦ rw (t, q) (refl, refl)
            | inr q ↦ rw (t, q) (refl, refl)
          ]
  ]

  split-ends :
      (h : Heap source) (last a length : ℕ) (b : Block) (bs : List Block)
      → 16 ≤ length
      → length + 48 ≤ b.size
      → IsPart source h last a (b ∷ bs)
      → (split source a length h).1.last_hdr ≡ last_of a (front length b ∷ rest_of length b ∷ bs)
  unfolding split
  split-ends h last a length b bs low high p =
      let up = IsChain-le h.segments h.heap_end a (behind a b) bs p.chain.1 in
      let z = p.fits in
      let size : (h.segments a).length ≡ b.size = ap (λ (t : Segment). t.length) p.chain.0 in
      let left : ℕ = sub64 (sub64 (h.segments a).length length) header_size in
      let rest : left ≡ b.size - length - 32 = omega arith in
      let new : ℕ = u64 (a + length + header_size) in
      let place : new ≡ a + 32 + length = omega arith in
      let t1 : ltb length 0x10 ≡ false = ground arith in
      let t2 : (ltb left 0x10 || leb (2 ^ 63) left) ≡ false = ground arith in
      rw (t1, t2) (moved bs p.ends place)
    where
      moved :
          (bs : List Block)
          → h.last_hdr ≡ last_of a (b ∷ bs)
          → u64 (a + length + header_size) ≡ a + 32 + length
          → (if h.last_hdr == a then u64 (a + length + header_size) else h.last_hdr)
            ≡ last_of a (front length b ∷ rest_of length b ∷ bs)
      moved [] e q = rw (eq→== h.last_hdr a e) (q ∙ omega arith)
      moved (d ∷ ds) e q =
          let ge = last_of-ge (behind a b) (d ∷ ds) in
          rw (ne→== h.last_hdr a (λ r. omega arith))
            (e ∙ ap (λ (n : ℕ). last_of n (d ∷ ds)) (omega arith))

  pub split-IsPart :
      (h : Heap source) (last a length : ℕ) (b : Block) (bs : List Block)
      → 16 ≤ length
      → length + 48 ≤ b.size
      → IsPart source h last a (b ∷ bs)
      → IsPart source (split source a length h).1 last a (front length b ∷ rest_of length b ∷ bs)
        × Keeps source a h (split source a length h).1
  split-IsPart h last a length b bs low high p =
      let (chain, below) = tiled bs p.chain in
      let (start, end) = split-frame a length h in
      (
        record {
          positive = p.positive;
          fits = omega (arith, p.fits, end);
          chain = IsChain-end _ _ _ last a (front length b ∷ rest_of length b ∷ bs) (sym end) chain;
          ends = split-ends h last a length b bs low high p;
        },
        record { below = λ i q r. below i r q; same_start = start; same_end = end },
      )
    where
      tiled :
          (bs : List Block)
          → IsChain h.segments h.heap_end last a (b ∷ bs)
          → IsChain
              (split source a length h).1.segments
              h.heap_end
              last
              a
              (front length b ∷ rest_of length b ∷ bs)
            × ((i : ℕ) → i < a → 0 < i → (split source a length h).1.segments i ≡ h.segments i)
      tiled [] c =
          split_last-IsChain source h h.heap_end last a length b p.positive p.fits low high c
      tiled (d ∷ ds) c =
          let (x, y, z) =
            split-IsChain source h h.heap_end last a length b d ds p.positive p.fits low high c in
          (y, λ i q r. z i q)
