-- ===== src/Heap/SplitLast.antt =====
-- `Split` of kernel/src/memory_management/heap.cpp on the last segment, and where it refuses.
use mates_os.Base.{
  refl, ℕ, ◌-◌, ◌<◌, ◌^◌, ◌≤◌, ◌+◌, ◌∷◌, [], ◌≡◌, ap, sub64, arith, u64, ltb, false, ◌||◌, leb, ◌∙◌,
}
use mates_os.Paging.Source.{Source}
use mates_os.Heap.Segments.{split, Heap, Segment, header_size, put_segment}
use mates_os.Heap.Chain.{Block, IsChain, header, behind, IsChain-same, front, rest_of}
use mates_os.Heap.Laws.{put-other, put-here, segment_ext}

module _ (source : Source) where
  pub split_last-IsChain :
      (h : Heap source) (end last a length : ℕ) (b : Block)
      → 0 < a
      → end < 2 ^ 63
      → 16 ≤ length
      → length + 48 ≤ b.size
      → IsChain h.segments end last a (b ∷ [])
      → IsChain
          (split source a length h).1.segments
          end
          last
          a
          (front length b ∷ rest_of length b ∷ [])
        × ((i : ℕ) → i < a → 0 < i → (split source a length h).1.segments i ≡ h.segments i)
  unfolding split
  split_last-IsChain h end last a length b pos_a fits low high (e, z) =
      let s : Segment = h.segments a in
      let size : s.length ≡ b.size = ap (λ (t : Segment). t.length) e in
      let n : s.next ≡ 0 = ap (λ (t : Segment). t.next) e in
      let left : ℕ = sub64 (sub64 s.length length) header_size in
      let rest : left ≡ b.size - length - 32 = omega arith in
      let new : ℕ = u64 (a + length + header_size) in
      let place : new ≡ a + 32 + length = omega arith in
      let t1 : ltb length 0x10 ≡ false = ground arith in
      let t2 : (ltb left 0x10 || leb (2 ^ 63) left) ≡ false = ground arith in
      let first : ℕ → Segment =
        put_segment s.next (record (h.segments s.next) { last = new }) h.segments in
      let second : ℕ → Segment =
        put_segment new (record { length = left; next = s.next; last = a; free = s.free }) first in
      let third : ℕ → Segment =
        put_segment a (record (second a) { next = new; length = length }) second in
      let o : second a ≡ header a last 0 b =
        put-other new a _ first (λ q. omega arith)
        ∙ put-other s.next a _ h.segments (λ q. omega arith)
        ∙ e in
      let at : behind a (front length b) ≡ new = omega (arith, place) in
      let j : (split source a length h).1.segments ≡ third = rw (t1, t2) refl in
      let chain : IsChain third end last a (front length b ∷ rest_of length b ∷ []) = rw at (
        put-here a _ second
            ∙ segment_ext _ _ refl refl (ap (λ (t : Segment). t.last) o)
                (ap (λ (t : Segment). t.free) o),
        (
          put-other a new _ second (λ q. omega arith)
              ∙ put-here new _ first
              ∙ segment_ext _ _ rest n refl (ap (λ (t : Segment). t.free) e),
          (let z' : a + 32 + b.size ≡ end = z in omega (arith, place, z')),
        ),
      ) in
      (
        IsChain-same third (split source a length h).1.segments end last a
            (front length b ∷ rest_of length b ∷ []) (λ i p. ap (λ (t : ℕ → Segment). t i) j) chain,
        λ i p pos_i.
            ap (λ (t : ℕ → Segment). t i) j
            ∙ put-other a i _ second (λ q. omega arith)
            ∙ put-other new i _ first (λ q. omega arith)
            ∙ put-other s.next i _ h.segments (λ q. omega arith),
      )
