-- ===== src/Heap/Merge.antt =====
-- `CombineForward` and `CombineBackward` of kernel/src/memory_management/heap.cpp on a free block that
-- stands anywhere in the chain of the heap.
use mates_os.Paging.Source.{Source}
use mates_os.Heap.Segments.{Heap, combine_backward, combine_forward, Segment, header_size}
use mates_os.Base.{
  List, ℕ, ◌++◌, ◌<◌, ◌≡◌, true, ◌∷◌, ap, arith, ◌∙◌, sym, ◌==◌, Bool-cases, eq→==, inr, false, inl,
  ne→==, [], refl, ◌+◌, length, ◌≤◌, length-append, suc,
}
use mates_os.Heap.Chain.{Block, IsChain, behind, header, IsChain-start}
use mates_os.Heap.Parts.{
  IsPart, Keeps, combine_forward-last, Keeps-self, combine_forward-used, combine_forward-IsPart,
  joined,
}
use mates_os.Heap.Runs.{
  IsRun, IsRun-le, IsRun-same, IsRun-IsChain, last_of-run, IsRun-last, last_of, tail_room-last,
  tail_room,
}
use mates_os.Heap.Used.{used, used-append, append_used-nil}
use mates_os.Heap.{header_size}

module _ (source : Source) where
  -- The headers from the start of the heap to its end are the chain of the blocks.
  abbrev pub IsHeap : Heap source → List Block → Type 0
  IsHeap h bs = IsPart source h 0 h.heap_start bs

  -- What changes a heap behind a run of headers leaves the run before it.
  pub rejoin :
      (h h' : Heap source) (ps : List Block) (before stop : ℕ) (q : Block) (qs : List Block)
      → 0 < h.heap_start
      → IsRun h.segments 0 h.heap_start ps before stop
      → Keeps source stop h h'
      → IsPart source h' before stop (q ∷ qs)
      → IsHeap h' (ps ++ q ∷ qs)
  rejoin h h' ps before stop q qs pos run keeps part =
      let start : h'.heap_start ≡ h.heap_start = keeps.same_start in
      let moved : IsRun h'.segments 0 h.heap_start ps before stop =
        IsRun-same h.segments h'.segments 0 h.heap_start ps before stop
          (λ i p q. keeps.below i (omega arith) q) run in
      let here : IsRun h'.segments 0 h'.heap_start ps before stop = rw start moved in
      record {
        positive = omega arith;
        fits = part.fits;
        chain =
            IsRun-IsChain h'.segments h'.heap_end 0 h'.heap_start ps before stop q qs here
              part.chain;
        ends = part.ends ∙ sym (last_of-run h'.segments 0 h'.heap_start ps before stop q qs here);
      }

  -- A block of a heap and the blocks behind it.
  pub IsHeap-cut :
      (h : Heap source) (ps : List Block) (before stop : ℕ) (q : Block) (qs : List Block)
      → IsHeap h (ps ++ q ∷ qs)
      → IsRun h.segments 0 h.heap_start ps before stop
      → IsChain h.segments h.heap_end before stop (q ∷ qs)
      → IsPart source h before stop (q ∷ qs)
  IsHeap-cut h ps before stop q qs heap run chain =
      let le = IsRun-le h.segments 0 h.heap_start ps before stop run in
      let pos = heap.positive in
      record {
        positive = omega arith;
        fits = heap.fits;
        chain = chain;
        ends = heap.ends ∙ last_of-run h.segments 0 h.heap_start ps before stop q qs run;
      }

  -- A free block at `a` that was merged with what is behind it.
  pub record IsMerged (h : Heap source) (last a : ℕ) (bs : List (ℕ × ℕ)) (h' : Heap source)
      : Type 0 where
    pub block : Block
    pub blocks : List Block
    pub is_free : block.is_free ≡ true
    pub part : IsPart source h' last a (block ∷ blocks)
    pub same_used : used (behind a block) blocks ≡ bs
    pub keeps : Keeps source a h h'

  pub combine_forward-IsMerged :
      (h : Heap source) (last a : ℕ) (b : Block) (bs : List Block)
      → b.is_free ≡ true
      → IsPart source h last a (b ∷ bs)
      → IsMerged h last a (used (behind a b) bs) (combine_forward source a h)
  combine_forward-IsMerged h last a b [] free p =
      let e : combine_forward source a h ≡ h = combine_forward-last source h last a b p in
      rw e (record {
        block = b;
        blocks = [];
        is_free = free;
        part = p;
        same_used = refl;
        keeps = Keeps-self source a h;
      })
  combine_forward-IsMerged h last a b (c ∷ cs) free p = elim (Bool-cases c.is_free) [
    | inr f ↦
        let e : combine_forward source a h ≡ h = combine_forward-used source h last a b c cs f p in
        rw e (record {
          block = b;
          blocks = c ∷ cs;
          is_free = free;
          part = p;
          same_used = refl;
          keeps = Keeps-self source a h;
        })
    | inl f ↦
        let (part, keeps) = combine_forward-IsPart source h last a b c cs f p in
        let at : behind a (joined source b c) ≡ behind (behind a b) c = omega arith in
        record {
          block = joined source b c;
          blocks = cs;
          is_free = free;
          part = part;
          same_used = rw f (ap (λ (n : ℕ). used n cs) at);
          keeps = keeps;
        }
  ]

  -- The heap after `CombineBackward` of the free block `q`, which has `ps` before it.
  pub record IsCombined (h : Heap source) (ps : List Block) (stop : ℕ) (q : Block) (qs : List Block)
      (h' : Heap source) : Type 0 where
    pub blocks : List Block
    pub heap : IsHeap h' blocks
    pub same_used : used h.heap_start blocks ≡ used h.heap_start ps ++ used (behind stop q) qs
    pub same_start : h'.heap_start ≡ h.heap_start
    pub same_end : h'.heap_end ≡ h.heap_end
    pub few : length blocks ≤ length ps + suc (length qs)
    pub room : qs ≡ [] → tail_room blocks ≡ tail_room ps + q.size + header_size

  pub combine_backward-IsCombined :
      (h : Heap source) (ps : List Block) (before stop : ℕ) (q : Block) (qs : List Block)
      → 0 < h.heap_start
      → q.is_free ≡ true
      → IsRun h.segments 0 h.heap_start ps before stop
      → IsPart source h before stop (q ∷ qs)
      → IsCombined h ps stop q qs (combine_backward source stop h)
  unfolding combine_backward
  combine_backward-IsCombined h [] before stop q qs pos free (z, e) part =
      let l : (h.segments stop).last ≡ before = ap (λ (t : Segment). t.last) part.chain.0 in
      let t : ((h.segments stop).last == 0) ≡ true = eq→== _ _ (l ∙ sym z) in
      rw t (record {
        blocks = q ∷ qs;
        heap = rejoin h h [] before stop q qs pos (z, e) (Keeps-self source stop h) part;
        same_used = rw free (ap (λ (n : ℕ). used (behind n q) qs) e);
        same_start = refl;
        same_end = refl;
        few = omega arith;
        room = λ n. tail_room-last [] q qs n ∙ rw free (omega arith);
      })
  combine_backward-IsCombined h (p ∷ ps) before stop q qs pos free run part =
      let (init, l, last, eq, before_run, at, end) =
        IsRun-last h.segments 0 h.heap_start p ps before stop run in
      let le = IsRun-le h.segments 0 h.heap_start init last before before_run in
      let link : (h.segments stop).last ≡ before = ap (λ (t : Segment). t.last) part.chain.0 in
      let t : ((h.segments stop).last == 0) ≡ false = ne→== _ _ (λ z. omega arith) in
      let both : used h.heap_start (p ∷ ps) ≡ used h.heap_start init ++ used before (l ∷ []) =
        ap (λ (n : List Block). used h.heap_start n) eq
        ∙ used-append h.segments 0 h.heap_start init last before (l ∷ []) before_run in
      let tail : tail_room (p ∷ ps) ≡ tail_room (l ∷ []) =
        ap tail_room eq ∙ tail_room-last init l [] refl in
      let size : length (p ∷ ps) ≡ length init + 1 =
        ap (λ (n : List Block). length n) eq ∙ length-append init (l ∷ []) in
      elim (Bool-cases l.is_free) [
        | inr f ↦
            let t2 : (h.segments (h.segments stop).last).free ≡ false =
              ap (λ (n : ℕ). (h.segments n).free) link ∙ ap (λ (t : Segment). t.free) at ∙ f in
            let none_left : tail_room (p ∷ ps) ≡ 0 = tail ∙ rw f refl in
            rw (t, t2)
              (record {
                blocks = (p ∷ ps) ++ q ∷ qs;
                heap = rejoin h h (p ∷ ps) before stop q qs pos run (Keeps-self source stop h) part;
                same_used =
                    used-append h.segments 0 h.heap_start (p ∷ ps) before stop (q ∷ qs) run
                    ∙ ap (λ (n : List (ℕ × ℕ)). used h.heap_start (p ∷ ps) ++ n) (rw free refl);
                same_start = refl;
                same_end = refl;
                few = omega (arith, length-append (p ∷ ps) (q ∷ qs));
                room = λ n. tail_room-last (p ∷ ps) q qs n ∙ rw free (omega (arith, none_left));
              })
        | inl f ↦
            let t2 : (h.segments (h.segments stop).last).free ≡ true =
              ap (λ (n : ℕ). (h.segments n).free) link ∙ ap (λ (t : Segment). t.free) at ∙ f in
            let whole : IsPart source h last before (l ∷ q ∷ qs) = record {
              positive = omega arith;
              fits = part.fits;
              chain = (
                at ∙ ap (λ (n : ℕ). header before last n l) (sym end),
                IsChain-start h.segments h.heap_end before stop (behind before l) (q ∷ qs) (sym end)
                    part.chain,
              );
              ends = part.ends ∙ ap (λ (n : ℕ). last_of n (q ∷ qs)) (sym end);
            } in
            let (merged, keeps) = combine_forward-IsPart source h last before l q qs free whole in
            let past : behind before (joined source l q) ≡ behind stop q = omega arith in
            let target : combine_forward source (h.segments stop).last h
                ≡ combine_forward source before h =
              ap (λ (n : ℕ). combine_forward source n h) link in
            let left : tail_room (p ∷ ps) ≡ l.size + header_size = tail ∙ rw f refl in
            rw (t, t2, target)
              (record {
                blocks = init ++ joined source l q ∷ qs;
                heap =
                    rejoin h (combine_forward source before h) init last before (joined source l q)
                      qs pos before_run keeps merged;
                same_used =
                    used-append h.segments 0 h.heap_start init last before (joined source l q ∷ qs)
                      before_run
                    ∙ ap (λ (n : List (ℕ × ℕ)). used h.heap_start init ++ n)
                        (rw f (ap (λ (n : ℕ). used n qs) past))
                    ∙ ap (λ (n : List (ℕ × ℕ)). n ++ used (behind stop q) qs)
                        (sym (
                          both
                          ∙ append_used-nil (used h.heap_start init) (used before (l ∷ []))
                              (rw f refl)));
                same_start = keeps.same_start;
                same_end = keeps.same_end;
                few = omega (arith, length-append init (joined source l q ∷ qs), size);
                room =
                    λ n. tail_room-last init (joined source l q) qs n ∙ rw f (omega (arith, left));
              })
      ]
