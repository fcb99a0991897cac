-- ===== src/Heap/Parts.antt =====
-- `CombineForward` and marking in kernel/src/memory_management/heap.cpp, on the chain from
-- some header to the end of the heap.
use mates_os.Base.{
  refl, inl, inr, Bool, ℕ, List, ◌+◌, ◌<◌, ◌∙◌, ◌∷◌, [], ◌^◌, ◌≡◌, ap, false, true, ◌==◌, arith,
  Bool-cases, if◌then◌else◌, ne→==, sym,
}
use mates_os.Paging.Source.{Source}
use mates_os.Heap.Chain.{Block, IsChain, behind, header, next_of, IsChain-same, IsChain-end}
use mates_os.Heap.Segments.{Heap, combine_forward, put_segment, Segment, header_size}
use mates_os.Heap.Laws.{put-here, combine_forward-IsChain, segment_ext, put-other}
use mates_os.Heap.Runs.{last_of, last_of-ge}

module _ (source : Source) where
  -- The headers from `a` on are the chain of the blocks up to the end of the heap, whose last header
  -- is the one that the heap knows.
  pub record IsPart (h : Heap source) (last a : ℕ) (bs : List Block) : Type 0 where
    pub positive : 0 < a
    pub fits : h.heap_end < 2 ^ 63
    pub chain : IsChain h.segments h.heap_end last a bs
    pub ends : h.last_hdr ≡ last_of a bs

  -- What an operation on the header at `a` and behind it leaves as it was.
  pub record Keeps (a : ℕ) (h h' : Heap source) : Type 0 where
    pub below : (i : ℕ) → 0 < i → i < a → h'.segments i ≡ h.segments i
    pub same_start : h'.heap_start ≡ h.heap_start
    pub same_end : h'.heap_end ≡ h.heap_end

  pub Keeps-self : (a : ℕ) (h : Heap source) → Keeps a h h
  Keeps-self a h = record { below = λ i p q. refl; same_start = refl; same_end = refl }

  pub Keeps-Keeps : {a : ℕ} {g h k : Heap source} → Keeps a g h → Keeps a h k → Keeps a g k
  Keeps-Keeps x y = record {
    below = λ i p q. y.below i p q ∙ x.below i p q;
    same_start = y.same_start ∙ x.same_start;
    same_end = y.same_end ∙ x.same_end;
  }

  -- The block at `a` marked as free or in use.
  abbrev pub marked : ℕ → Bool → Heap source → Heap source
  marked a v h = record h {
    segments = put_segment a (record (h.segments a) { free = v }) h.segments;
  }

  abbrev pub mark : Bool → Block → Block
  mark v b = record b { is_free = v }

  last_of-same :
      (a : ℕ) (b c : Block) (bs : List Block)
      → b.size ≡ c.size
      → last_of a (b ∷ bs) ≡ last_of a (c ∷ bs)
  last_of-same a b c [] e = refl
  last_of-same a b c (d ∷ bs) e = ap (λ (n : ℕ). last_of (a + header_size + n) (d ∷ bs)) e

  pub marked-IsPart :
      (h : Heap source) (last a : ℕ) (v : Bool) (b : Block) (bs : List Block)
      → IsPart h last a (b ∷ bs)
      → IsPart (marked a v h) last a (mark v b ∷ bs) × Keeps a h (marked a v h)
  marked-IsPart h last a v b bs p =
      let s : Segment = record (h.segments a) { free = v } in
      let (e, c) = p.chain in
      (
        record {
          positive = p.positive;
          fits = p.fits;
          chain = (
            put-here a s h.segments
                ∙ segment_ext s (header a last (next_of (behind a b) bs) (mark v b))
                    (ap (λ (t : Segment). t.length) e) (ap (λ (t : Segment). t.next) e)
                    (ap (λ (t : Segment). t.last) e) refl,
            IsChain-same h.segments (put_segment a s h.segments) h.heap_end a (behind a b) bs
                (λ i q. put-other a i s h.segments (λ r. omega arith)) c,
          );
          ends = p.ends ∙ last_of-same a b (mark v b) bs refl;
        },
        record {
          below = λ i r q. put-other a i s h.segments (λ t. omega arith);
          same_start = refl;
          same_end = refl;
        },
      )

  -- The two blocks and the header between them as one.
  abbrev pub joined : Block → Block → Block
  joined b c = record { size = b.size + c.size + 32; is_free = b.is_free }

  combine_forward-frame :
      (a : ℕ) (h : Heap source)
      → ((combine_forward source a h).heap_start ≡ h.heap_start)
        × ((combine_forward source a h).heap_end ≡ h.heap_end)
  unfolding combine_forward
  combine_forward-frame a h = elim (Bool-cases ((h.segments a).next == 0)) [
    | inl t ↦ rw t (refl, refl)
    | inr t ↦ elim (Bool-cases (h.segments (h.segments a).next).free) [
      | inl f ↦ rw (t, f) (refl, refl)
      | inr f ↦ rw (t, f) (refl, refl)
    ]
  ]

  combine_forward-ends :
      (h : Heap source) (last a : ℕ) (b c : Block) (bs : List Block)
      → c.is_free ≡ true
      → IsPart h last a (b ∷ c ∷ bs)
      → (combine_forward source a h).last_hdr ≡ last_of a (joined b c ∷ bs)
  unfolding combine_forward
  combine_forward-ends h last a b c bs free p =
      let n : (h.segments a).next ≡ behind a b = ap (λ (t : Segment). t.next) p.chain.0 in
      let t1 : ((h.segments a).next == 0) ≡ false = ground (arith, p.positive) in
      let t2 : (h.segments (h.segments a).next).free ≡ true =
        ap (λ (t : Segment). t.free) (ap h.segments n ∙ p.chain.1.0) ∙ free in
      rw (t1, t2) (moved bs p.ends n)
    where
      moved :
          (bs : List Block)
          → h.last_hdr ≡ last_of (behind a b) (c ∷ bs)
          → (h.segments a).next ≡ behind a b
          → (if (h.segments a).next == h.last_hdr then a else h.last_hdr)
            ≡ last_of a (joined b c ∷ bs)
      moved [] e n = let t : ((h.segments a).next == h.last_hdr) ≡ true = ground arith in rw t refl
      moved (d ∷ ds) e n =
          let ge = last_of-ge (behind (behind a b) c) (d ∷ ds) in
          let t : ((h.segments a).next == h.last_hdr) ≡ false = ne→== _ _ (λ q. omega arith) in
          rw t (e ∙ ap (λ (n : ℕ). last_of n (d ∷ ds)) (omega arith))

  pub combine_forward-IsPart :
      (h : Heap source) (last a : ℕ) (b c : Block) (bs : List Block)
      → c.is_free ≡ true
      → IsPart h last a (b ∷ c ∷ bs)
      → IsPart (combine_forward source a h) last a (joined b c ∷ bs)
        × Keeps a h (combine_forward source a h)
  combine_forward-IsPart h last a b c bs free p =
      let (chain, below) =
        combine_forward-IsChain source h h.heap_end last a b c bs p.positive (omega (arith, p.fits))
          free p.chain in
      let (start, end) = combine_forward-frame a h in
      (
        record {
          positive = p.positive;
          fits = omega (arith, p.fits, end);
          chain = IsChain-end _ _ _ last a (joined b c ∷ bs) (sym end) chain;
          ends = combine_forward-ends h last a b c bs free p;
        },
        record { below = λ i q. below i; same_start = start; same_end = end },
      )

  -- `CombineForward` leaves the heap where the next block is in use, or where there is none.
  pub combine_forward-used :
      (h : Heap source) (last a : ℕ) (b c : Block) (bs : List Block)
      → c.is_free ≡ false
      → IsPart h last a (b ∷ c ∷ bs)
      → combine_forward source a h ≡ h
  unfolding combine_forward
  combine_forward-used h last a b c bs busy p =
      let n : (h.segments a).next ≡ behind a b = ap (λ (t : Segment). t.next) p.chain.0 in
      let t1 : ((h.segments a).next == 0) ≡ false = ground (arith, p.positive) in
      let t2 : (h.segments (h.segments a).next).free ≡ false =
        ap (λ (t : Segment). t.free) (ap h.segments n ∙ p.chain.1.0) ∙ busy in
      rw (t1, t2) refl

  pub combine_forward-last :
      (h : Heap source) (last a : ℕ) (b : Block)
      → IsPart h last a (b ∷ [])
      → combine_forward source a h ≡ h
  unfolding combine_forward
  combine_forward-last h last a b p =
      let n : (h.segments a).next ≡ 0 = ap (λ (t : Segment). t.next) p.chain.0 in
      let t1 : ((h.segments a).next == 0) ≡ true = ground (arith) in rw t1 refl
