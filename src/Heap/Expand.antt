-- ===== src/Heap/Expand.antt =====
-- `ExpandHeap` of kernel/src/memory_management/heap.cpp on a heap whose headers form a chain.
use mates_os.Base.{
  ℕ, ◌<◌, List, ◌+◌, ◌^◌, ◌≡◌, ◌*◌, ◌≤◌, true, ◌∷◌, arith, length, ◌/◌, ◌⊎◌, Bool-cases, false, suc,
  [], u64, ◌%◌, ◌==◌, ◌∙◌, inl, ap, inr, sym, zero, refl, ◌-◌, sub64,
}
use mates_os.Paging.Source.{Source}
use mates_os.Heap.{add_pages, expand_heap, round_up, put_segment, add_page, header_size}
use mates_os.Heap.Segments.{Heap, Segment, put_segment, header_size}
use mates_os.Heap.Chain.{Block, IsChain, behind, IsChain-start, IsChain-same}
use mates_os.Heap.Merge.{IsHeap, combine_backward-IsCombined}
use mates_os.Heap.Used.{used, append_used-nil}
use mates_os.Paging.Manager.{round_up}
use mates_os.Heap.Runs.{IsRun, last_of, tail_room, last_of-ge, IsRun-same}
use mates_os.Heap.Laws.{put-here, put-other, segment_ext}
use mates_os.Heap.Parts.{IsPart}

-- The last header of a chain, linked to what stands behind its end.
IsChain-IsRun :
    (s : ℕ → Segment) (end last a next : ℕ) (b : Block) (bs : List Block)
    → end ≡ next
    → IsChain s end last a (b ∷ bs)
    → IsRun
        (put_segment (last_of a (b ∷ bs)) (record (s (last_of a (b ∷ bs))) { next = next }) s)
        last
        a
        (b ∷ bs)
        (last_of a (b ∷ bs))
        next
IsChain-IsRun s end last a next b [] q (e, z) = (
  put-here a _ s
      ∙ segment_ext _ _ (ap (λ (t : Segment). t.length) e) (sym (z ∙ q))
          (ap (λ (t : Segment). t.last) e) (ap (λ (t : Segment). t.free) e),
  (refl, z ∙ q),
)
IsChain-IsRun s end last a next b (c ∷ cs) q (e, z) = (
  put-other (last_of (behind a b) (c ∷ cs)) a _ s
        (λ x. omega (arith, last_of-ge (behind a b) (c ∷ cs)))
      ∙ e,
  IsChain-IsRun s end a (behind a b) next c cs q z,
)

last_of-lt :
    (s : ℕ → Segment) (end last a : ℕ) (b : Block) (bs : List Block)
    → IsChain s end last a (b ∷ bs)
    → last_of a (b ∷ bs) < end
last_of-lt s end last a b [] (e, z) = omega (arith, z)
last_of-lt s end last a b (c ∷ cs) (e, z) = last_of-lt s end a (behind a b) c cs z

pub round_up-props :
    (n : ℕ)
    → 0 < n
    → n < 2 ^ 62
    → (n ≤ round_up n 0x1000)
      × (round_up n 0x1000 < n + 0x1000)
      × (round_up n 0x1000 / 0x1000 * 0x1000 ≡ round_up n 0x1000)
      × (0x1000 ≤ round_up n 0x1000)
round_up-props n pos fits = elim (Bool-cases (n % 0x1000 == 0)) [
  | inl t ↦ rw t (ground arith)
  | inr t ↦ rw t (ground arith)
]

-- The headers that `ExpandHeap` writes, below the new one.
linked :
    (t : ℕ → Segment) (m at : ℕ) (x y : Segment)
    → m < at
    → (i : ℕ) → i < at
    → put_segment at y
        (put_segment m (record (put_segment at x t m) { next = at }) (put_segment at x t))
        i
      ≡ put_segment m (record (t m) { next = at }) t i
linked t m at x y lt i q =
    let v : put_segment at x t m ≡ t m = put-other at m x t (λ z. omega arith) in
    let w : put_segment at x t i ≡ t i = put-other at i x t (λ z. omega arith) in
    let r : Segment = record (put_segment at x t m) { next = at } in
    put-other at i y (put_segment m r (put_segment at x t)) (λ z. omega arith)
    ∙ elim (Bool-cases (m == i)) [
      | inl k ↦ rw k (ap (λ (r : Segment). record r { next = at }) v)
      | inr k ↦ rw k w
    ]

linked-moved :
    (s t : ℕ → Segment) (l m at : ℕ) (x y : Segment)
    → s ≡ t
    → l ≡ m
    → m < at
    → (i : ℕ) → i < at
    → put_segment at y
        (put_segment l (record (put_segment at x s l) { next = at }) (put_segment at x s))
        i
      ≡ put_segment m (record (t m) { next = at }) t i
linked-moved s t l m at x y e f lt i q = rw (e, f) (linked t m at x y lt i q)

module _ (source : Source) where
  -- The pages that `ExpandHeap` asks for change the end of the heap alone.
  record IsGrown (h : Heap source) (pages : ℕ) (h' : Heap source) : Type 0 where
    same_segments : h'.segments ≡ h.segments
    same_start : h'.heap_start ≡ h.heap_start
    same_last : h'.last_hdr ≡ h.last_hdr
    end : h'.heap_end ≡ h.heap_end + pages * 0x1000

  add_pages-IsGrown :
      (left pml4 : ℕ) (h : Heap source)
      → h.heap_end + left * 0x1000 < 2 ^ 63
      → (pages : ℕ) × (pages ≤ left)
        × IsGrown h pages (add_pages source left pml4 h).1
        × ((add_pages source left pml4 h).0 ≡ true → pages ≡ left)
  unfolding add_pages
  add_pages-IsGrown zero pml4 h fits = (
    0,
    omega arith,
    record { same_segments = refl; same_start = refl; same_last = refl; end = omega arith },
    λ e. refl,
  )
  add_pages-IsGrown (suc left) pml4 h fits =
      let step : Heap source = record h {
        heap_end = u64 (h.heap_end + 0x1000);
        used_pages = u64 (h.used_pages + 1);
        space = (add_page source pml4 h.heap_end h.space).1;
      } in
      let (pages, le, g, all) = add_pages-IsGrown left pml4 step (omega arith) in
      elim (Bool-cases (add_page source pml4 h.heap_end h.space).0) [
        | inl t ↦ rw t (
          suc pages,
          omega arith,
          record {
            same_segments = g.same_segments;
            same_start = g.same_start;
            same_last = g.same_last;
            end = omega (arith, g.end);
          },
          λ e. omega (arith, all e),
        )
        | inr t ↦ rw t (
          0,
          omega arith,
          record { same_segments = refl; same_start = refl; same_last = refl; end = omega arith },
          λ e. absurd (ground (arith, e)),
        )
      ]

  -- The heap after `ExpandHeap` had its pages.
  pub record IsExpanded (h : Heap source) (bs : List Block) (rounded : ℕ) (h' : Heap source)
      : Type 0 where
    pub blocks : List Block
    pub heap : IsHeap source h' blocks
    pub same_used : used h'.heap_start blocks ≡ used h.heap_start bs
    pub end : h'.heap_end ≡ h.heap_end + rounded
    pub few : length blocks ≤ length bs + 1
    pub room : tail_room blocks ≡ tail_room bs + rounded

  -- The last page that was asked for was NULL.
  abbrev pub NoPage : Heap source → Type 0
  NoPage h =
      (frames : source.State) × ((source.request_page frames).0 ≡ 0)
      × (h.space.frames ≡ (source.request_page frames).1)

  add_pages-NoPage :
      (left pml4 : ℕ) (h : Heap source)
      → (add_pages source left pml4 h).0 ≡ false
      → NoPage (add_pages source left pml4 h).1
  unfolding add_pages add_page
  add_pages-NoPage zero pml4 h e = absurd (ground (arith, e))
  add_pages-NoPage (suc left) pml4 h e =
      elim (Bool-cases ((source.request_page h.space.frames).0 == 0)) [
        | inl t ↦ rw t (h.space.frames, ground (arith, t), refl)
        | inr t ↦ rw t (add_pages-NoPage left pml4 _ (rw t at e))
      ]

  -- The heap after `ExpandHeap` did not get all its pages: its end has moved, no header has.
  pub record IsShort (h : Heap source) (bs : List Block) (h' : Heap source) : Type 0 where
    pub end : ℕ
    pub blocks : List Block
    pub chain : IsChain h'.segments end 0 h'.heap_start blocks
    pub same_used : used h'.heap_start blocks ≡ used h.heap_start bs
    pub below : end ≤ h'.heap_end
    pub no_page : NoPage h'

  pub expand_heap-cases :
      (pml4 size : ℕ) (h : Heap source) (b : Block) (bs : List Block)
      → 0 < size
      → h.heap_end + size + 0x1000 < 2 ^ 62
      → IsHeap source h (b ∷ bs)
      → (((expand_heap source pml4 size h).0 ≡ true)
          × IsExpanded h (b ∷ bs) (round_up size 0x1000) (expand_heap source pml4 size h).1)
        ⊎ (((expand_heap source pml4 size h).0 ≡ false)
            × IsShort h (b ∷ bs) (expand_heap source pml4 size h).1)
  unfolding expand_heap
  expand_heap-cases pml4 size h b bs pos fits p =
      let rounded = round_up size 0x1000 in
      let (low, high, exact, page) = round_up-props size pos (omega arith) in
      let (pages, le, g, all) = add_pages-IsGrown (rounded / 0x1000) pml4 h (omega arith) in
      let grown = (add_pages source (rounded / 0x1000) pml4 h).1 in
      let at = h.heap_end in
      let last = last_of h.heap_start (b ∷ bs) in
      let lt = last_of-lt h.segments at 0 h.heap_start b bs p.chain in
      let ge = last_of-ge h.heap_start (b ∷ bs) in
      let knows : grown.last_hdr ≡ last = g.same_last ∙ p.ends in
      let new : Block = record { size = rounded - 32; is_free = true } in
      let first =
        put_segment at (record (grown.segments at) { free = true; last = grown.last_hdr })
          grown.segments in
      let second = put_segment grown.last_hdr (record (first grown.last_hdr) { next = at }) first in
      let third =
        put_segment at (record (second at) { next = 0; length = sub64 rounded header_size })
          second in
      elim (Bool-cases (add_pages source (rounded / 0x1000) pml4 h).0) [
        | inr t ↦ rw t (
            inr (
              refl,
              record {
                end = at;
                blocks = b ∷ bs;
                chain =
                    IsChain-start grown.segments at 0 h.heap_start grown.heap_start (b ∷ bs)
                      (sym g.same_start)
                      (IsChain-same h.segments grown.segments at 0 h.heap_start (b ∷ bs)
                        (λ i x. ap (λ (f : ℕ → Segment). f i) g.same_segments) p.chain);
                same_used = ap (λ (n : ℕ). used n (b ∷ bs)) g.same_start;
                below = omega (arith, g.end);
                no_page = add_pages-NoPage (rounded / 0x1000) pml4 h t;
              },
            ))
        | inl t ↦
            let added : Heap source = record grown { segments = third; last_hdr = at } in
            let full : pages ≡ rounded / 0x1000 = all t in
            let end : grown.heap_end ≡ at + rounded = omega (arith, g.end, full, exact) in
            let same : (i : ℕ)
                → i < at
                → third i ≡ put_segment last (record (h.segments last) { next = at }) h.segments i =
              λ i q.
                linked-moved grown.segments h.segments grown.last_hdr last at
                  (record (grown.segments at) { free = true; last = grown.last_hdr })
                  (record (second at) { next = 0; length = sub64 rounded header_size })
                  g.same_segments knows lt i q in
            let run : IsRun third 0 grown.heap_start (b ∷ bs) last at = rw (g.same_start) (
              IsRun-same _ third 0 h.heap_start (b ∷ bs) last at (λ i x q. same i q)
                (IsChain-IsRun h.segments at 0 h.heap_start at b bs refl p.chain)) in
            let o : second at ≡ record (grown.segments at) { free = true; last = grown.last_hdr } =
              put-other grown.last_hdr at _ first (λ q. omega (arith, knows, q))
              ∙ put-here at _ grown.segments in
            let part : IsPart source added last at (new ∷ []) = record {
              positive = omega arith;
              fits = omega (arith, end);
              chain = (
                put-here at _ second
                    ∙ segment_ext _ _ (omega arith) refl (ap (λ (s : Segment). s.last) o ∙ knows)
                        (ap (λ (s : Segment). s.free) o),
                omega (arith, end),
              );
              ends = refl;
            } in
            let c =
              combine_backward-IsCombined source added (b ∷ bs) last at new []
                (omega (arith, g.same_start, p.positive)) refl run part in
            rw t (
              inl (
                refl,
                record {
                  blocks = c.blocks;
                  heap = c.heap;
                  same_used =
                      ap (λ (n : ℕ). used n c.blocks) c.same_start
                      ∙ c.same_used
                      ∙ append_used-nil (used grown.heap_start (b ∷ bs)) [] refl
                      ∙ ap (λ (n : ℕ). used n (b ∷ bs)) g.same_start;
                  end = c.same_end ∙ end;
                  few = omega (arith, c.few);
                  room = omega (arith, c.room refl);
                },
              ))
      ]
