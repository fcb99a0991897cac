-- ===== src/Heap/Split.antt =====
-- `Split` of kernel/src/memory_management/heap.cpp keeps the segments a chain.
use mates_os.Base.{
  leb, ℕ, List, ◌<◌, ◌^◌, ◌≤◌, ◌+◌, ◌∷◌, ◌≡◌, ◌-◌, ap, sub64, arith, u64, ltb, false, ◌||◌, ◌∙◌,
  refl,
}
use mates_os.Paging.Source.{Source}
use mates_os.Heap.Segments.{split, Heap, Segment, header_size, put_segment}
use mates_os.Heap.Chain.{Block, IsChain, IsChain-le, behind, header, next_of, IsChain-same}
use mates_os.Heap.Laws.{put-other, put-here, segment_ext}

module _ (source : Source) where
  -- `Split` of a segment in a chain that has a next one, at a length of at least 16 bytes that
  -- leaves at least 16 bytes and a header: it returns the header behind that length, the segment
  -- is then two of the chain, both free if it was, and every header below is as it was.
  pub split-IsChain :
      (h : Heap source) (end last a length : ℕ) (b d : Block) (bs : List Block)
      → 0 < a
      → end < 2 ^ 63
      → 16 ≤ length
      → length + 48 ≤ b.size
      → IsChain h.segments end last a (b ∷ d ∷ bs)
      → ((split source a length h).0 ≡ a + 32 + length)
        × IsChain (split source a length h).1.segments end last a (
            record { size = length; is_free = b.is_free }
            ∷ record { size = b.size - length - 32; is_free = b.is_free }
            ∷ d
            ∷ bs)
        × ((i : ℕ) → i < a → (split source a length h).1.segments i ≡ h.segments i)
  unfolding split
  split-IsChain h end last a length b d bs pos_a fits low high (e, (g, z)) =
      let up = IsChain-le h.segments end (behind a b) (behind (behind a b) d) bs z in
      let s : Segment = h.segments a in
      let size : s.length ≡ b.size = ap (λ (t : Segment). t.length) e in
      let n : s.next ≡ behind a b = ap (λ (t : Segment). t.next) e in
      let left : ℕ = sub64 (sub64 s.length length) header_size in
      let rest : left ≡ b.size - length - 32 = omega arith in
      let new : ℕ = u64 (a + length + header_size) in
      let place : new ≡ a + 32 + length = omega arith in
      let t1 : ltb length 0x10 ≡ false = ground arith in
      let t2 : (ltb left 0x10 || leb (2 ^ 63) left) ≡ false = ground arith in
      let first : ℕ → Segment =
        put_segment s.next (record (h.segments s.next) { last = new }) h.segments in
      let second : ℕ → Segment =
        put_segment new (record { length = left; next = s.next; last = a; free = s.free }) first in
      let third : ℕ → Segment =
        put_segment a (record (second a) { next = new; length = length }) second in
      let o : second a ≡ header a last (behind a b) b =
        put-other new a _ first (λ q. omega arith)
        ∙ put-other s.next a _ h.segments (λ q. omega arith)
        ∙ e in
      let at : behind a (record { size = length; is_free = b.is_free }) ≡ new =
        omega (arith, place) in
      let at2 : behind new (record { size = b.size - length - 32; is_free = b.is_free }) ≡ s.next =
        omega (arith, place, n) in
      let gn : h.segments s.next ≡ header s.next a (next_of (behind s.next d) bs) d = rw n g in
      let zn : IsChain h.segments end s.next (behind s.next d) bs = rw n z in
      let above : (i : ℕ) → s.next < i → third i ≡ h.segments i = λ i p.
        put-other a i _ second (λ q. omega arith)
        ∙ put-other new i _ first (λ q. omega arith)
        ∙ put-other s.next i _ h.segments (λ q. omega arith) in
      let below : (i : ℕ) → i < a → third i ≡ h.segments i = λ i p.
        put-other a i _ second (λ q. omega arith)
        ∙ put-other new i _ first (λ q. omega arith)
        ∙ put-other s.next i _ h.segments (λ q. omega arith) in
      let j : (split source a length h).1.segments ≡ third = rw (t1, t2) refl in
      let chain : IsChain third end last a (
          record { size = length; is_free = b.is_free }
          ∷ record { size = b.size - length - 32; is_free = b.is_free }
          ∷ d
          ∷ bs) =
        rw (at, at2)
          (
            put-here a _ second
                ∙ segment_ext _ _ refl refl (ap (λ (t : Segment). t.last) o)
                    (ap (λ (t : Segment). t.free) o),
            (
              put-other a new _ second (λ q. omega arith)
                  ∙ put-here new _ first
                  ∙ segment_ext _ _ rest refl refl (ap (λ (t : Segment). t.free) e),
              (
                put-other a s.next _ second (λ q. omega arith)
                    ∙ put-other new s.next _ first (λ q. omega arith)
                    ∙ put-here s.next _ h.segments
                    ∙ segment_ext _ _ (ap (λ (t : Segment). t.length) gn)
                        (ap (λ (t : Segment). t.next) gn) refl (ap (λ (t : Segment). t.free) gn),
                IsChain-same h.segments third end s.next (behind s.next d) bs
                    (λ i p. above i (omega arith)) zn,
              ),
            ),
          ) in
      (
        rw (t1, t2) place,
        IsChain-same third (split source a length h).1.segments end last a
            (record { size = length; is_free = b.is_free }
              ∷ record { size = b.size - length - 32; is_free = b.is_free }
              ∷ d
              ∷ bs)
            (λ i p. ap (λ (t : ℕ → Segment). t i) j) chain,
        λ i p. ap (λ (t : ℕ → Segment). t i) j ∙ below i p,
      )
