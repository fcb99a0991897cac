-- ===== src/Heap/Laws.antt =====
-- `Split` and `CombineForward` of kernel/src/memory_management/heap.cpp keep the segments a chain.
use mates_os.Base.{
  ℕ, ◌≢◌, ◌≡◌, List, ◌==◌, false, true, ◌<◌, arith, ◌^◌, refl, ◌∷◌, ◌+◌, ap, ◌∙◌, [], u64,
}
use mates_os.Paging.Source.{Source}
use mates_os.Heap.Segments.{Segment, combine_forward, Heap, put_segment, header_size}
use mates_os.Heap.Chain.{Block, IsChain, behind, header, IsChain-le, next_of, IsChain-same}

pub put-here : (a : ℕ) (s : Segment) (segments : ℕ → Segment) → put_segment a s segments a ≡ s
put-here a s segments = let e : (a == a) ≡ true = ground arith in rw e refl

pub put-other :
    (a i : ℕ) (s : Segment) (segments : ℕ → Segment)
    → a ≢ i
    → put_segment a s segments i ≡ segments i
put-other a i s segments h = let e : (a == i) ≡ false = ground arith in rw e refl

pub segment_ext :
    (s t : Segment)
    → s.length ≡ t.length
    → s.next ≡ t.next
    → s.last ≡ t.last
    → s.free ≡ t.free
    → s ≡ t
segment_ext s t p q r f = λ i. record { length = p i; next = q i; last = r i; free = f i }

module _ (source : Source) where
  -- `CombineForward` of a segment in a chain whose next is free: the two are one segment of the
  -- chain, which holds the bytes of both and of the header between them, and every header below
  -- is as it was.
  pub combine_forward-IsChain :
      (h : Heap source) (end last a : ℕ) (b c : Block) (bs : List Block)
      → 0 < a
      → end < 2 ^ 64
      → c.is_free ≡ true
      → IsChain h.segments end last a (b ∷ c ∷ bs)
      → IsChain
          (combine_forward source a h).segments
          end
          last
          a
          (record { size = b.size + c.size + 32; is_free = b.is_free } ∷ bs)
        × ((i : ℕ) → i < a → (combine_forward source a h).segments i ≡ h.segments i)
  unfolding combine_forward
  combine_forward-IsChain h end last a b c [] pos_a fits free (e, (f, z)) =
      let n : (h.segments a).next ≡ behind a b = ap (λ (t : Segment). t.next) e in
      let fn : h.segments (h.segments a).next ≡ header (behind a b) a 0 c = ap h.segments n ∙ f in
      let t1 : ((h.segments a).next == 0) ≡ false = ground arith in
      let t2 : (h.segments (h.segments a).next).free ≡ true =
        ap (λ (t : Segment). t.free) fn ∙ free in
      let m : (h.segments (h.segments a).next).next ≡ 0 = ap (λ (t : Segment). t.next) fn in
      let t3 : ((h.segments (h.segments a).next).next == 0) ≡ true = ground arith in
      let l1 : (h.segments a).length ≡ b.size = ap (λ (t : Segment). t.length) e in
      let l2 : (h.segments (h.segments a).next).length ≡ c.size =
        ap (λ (t : Segment). t.length) fn in
      rw (t1, t2, t3)
        (
          (
            put-here a _ h.segments
                ∙ segment_ext _ _ (omega arith) m (ap (λ (t : Segment). t.last) e)
                    (ap (λ (t : Segment). t.free) e),
            omega arith,
          ),
          λ i p. put-other a i _ h.segments (omega arith),
        )
  combine_forward-IsChain h end last a b c (d ∷ bs) pos_a fits free (e, (f, (g, z))) =
      let n : (h.segments a).next ≡ behind a b = ap (λ (t : Segment). t.next) e in
      let fn : h.segments (h.segments a).next ≡ header (behind a b) a (behind (behind a b) c) c =
        ap h.segments n ∙ f in
      let t1 : ((h.segments a).next == 0) ≡ false = ground arith in
      let t2 : (h.segments (h.segments a).next).free ≡ true =
        ap (λ (t : Segment). t.free) fn ∙ free in
      let nn : ℕ = (h.segments (h.segments a).next).next in
      let m : nn ≡ behind (behind a b) c = ap (λ (t : Segment). t.next) fn in
      let t3 : (nn == 0) ≡ false = ground arith in
      let l1 : (h.segments a).length ≡ b.size = ap (λ (t : Segment). t.length) e in
      let l2 : (h.segments (h.segments a).next).length ≡ c.size =
        ap (λ (t : Segment). t.length) fn in
      let up =
        IsChain-le h.segments end (behind (behind a b) c) (behind (behind (behind a b) c) d) bs z in
      let after : ℕ → Segment = put_segment nn (record (h.segments nn) { last = a }) h.segments in
      let o : after a ≡ h.segments a = put-other nn a _ h.segments (λ q. omega arith) in
      let joined : ℕ → Segment =
        put_segment a
          (record (after a) {
            length =
                u64 ((h.segments a).length + (h.segments (h.segments a).next).length + header_size);
            next = nn;
          })
          after in
      let at : behind a (record { size = b.size + c.size + 32; is_free = b.is_free }) ≡ nn =
        omega (arith, m) in
      let gn : h.segments nn ≡ header nn (behind a b) (next_of (behind nn d) bs) d = rw m g in
      let zn : IsChain h.segments end nn (behind nn d) bs = rw m z in
      let j : (combine_forward source a h).segments ≡ joined = rw (t1, t2, t3) refl in
      let chain : IsChain joined end last a
          (record { size = b.size + c.size + 32; is_free = b.is_free } ∷ d ∷ bs) =
        rw at (
          put-here a _ after
              ∙ segment_ext _ _ (omega arith) refl (ap (λ (t : Segment). t.last) (o ∙ e))
                  (ap (λ (t : Segment). t.free) (o ∙ e)),
          (
            put-other a nn _ after (λ q. omega arith)
                ∙ put-here nn _ h.segments
                ∙ segment_ext _ _ (ap (λ (t : Segment). t.length) gn)
                    (ap (λ (t : Segment). t.next) gn) refl (ap (λ (t : Segment). t.free) gn),
            IsChain-same h.segments joined end nn (behind nn d) bs
                (λ i p.
                  put-other a i _ after (λ q. omega arith)
                  ∙ put-other nn i _ h.segments (λ q. omega arith))
                zn,
          ),
        ) in
      (
        IsChain-same joined (combine_forward source a h).segments end last a
            (record { size = b.size + c.size + 32; is_free = b.is_free } ∷ d ∷ bs)
            (λ i p. ap (λ (t : ℕ → Segment). t i) j) chain,
        λ i p.
            ap (λ (t : ℕ → Segment). t i) j
            ∙ put-other a i _ after (λ q. omega arith)
            ∙ put-other nn i _ h.segments (λ q. omega arith),
      )
