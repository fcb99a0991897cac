-- ===== src/Heap/Free.antt =====
-- `free` of kernel/src/memory_management/heap.cpp on a block that is in use.
use mathlib.Core.Path.{ap₂}
use mates_os.Paging.Source.{Source}
use mates_os.Heap.Segments.{Heap, combine_forward, header_size}
use mates_os.Base.{
  List, ℕ, ◌++◌, ◌≡◌, true, ◌∷◌, ap, arith, ◌∙◌, sym, ◌==◌, false, ne→==, refl, ◌+◌, sub64,
}
use mates_os.Heap.Chain.{Block, behind, IsChain-le}
use mates_os.Heap.Runs.{IsRun, IsRun-same}
use mates_os.Heap.Used.{used, used-cut}
use mates_os.Heap.{free_block, header_size}
use mates_os.Heap.Parts.{marked-IsPart, marked, mark, Keeps-Keeps}
use mates_os.Heap.Merge.{IsHeap, IsHeap-cut, combine_forward-IsMerged, combine_backward-IsCombined}

module _ (source : Source) where
  -- `free` of a block that is in use in a heap whose headers form a chain: the headers form a chain
  -- from the same start to the same end, and the blocks in use are all but that one, in order.
  pub free_block-removes :
      (h : Heap source) (bs : List Block) (xs ys : List (ℕ × ℕ)) (address size : ℕ)
      → IsHeap source h bs
      → used h.heap_start bs ≡ xs ++ (address, size) ∷ ys
      → (blocks : List Block) × IsHeap source (free_block source address h) blocks
        × (used (free_block source address h).heap_start blocks ≡ xs ++ ys)
        × ((free_block source address h).heap_start ≡ h.heap_start)
        × ((free_block source address h).heap_end ≡ h.heap_end)
  unfolding free_block
  free_block-removes h bs xs ys address size heap listed =
      let (ps, b, qs, before, stop, eq, run, chain, busy, place, us, vs) =
        used-cut h.segments h.heap_end 0 h.heap_start bs xs (address, size) ys heap.chain listed in
      let whole : IsHeap source h (ps ++ b ∷ qs) = rw (sym eq) heap in
      let part = IsHeap-cut source h ps before stop b qs whole run chain in
      let up = IsChain-le h.segments h.heap_end stop (behind stop b) qs chain.1 in
      let at : address ≡ stop + header_size = ap (λ (x : ℕ × ℕ). x.0) place in
      let segment : sub64 address header_size ≡ stop = omega (arith, at, part.fits) in
      let t : (address == 0) ≡ false = ne→== _ _ (λ z. omega (arith, at, part.positive)) in
      let (freed, keeps) = marked-IsPart source h before stop true b qs part in
      let m =
        combine_forward-IsMerged source (marked source stop true h) before stop (mark source true b)
          qs refl freed in
      let k = Keeps-Keeps source keeps m.keeps in
      let joined_heap = combine_forward source stop (marked source stop true h) in
      let run' : IsRun joined_heap.segments 0 joined_heap.heap_start ps before stop =
        rw (k.same_start) (
          IsRun-same h.segments joined_heap.segments 0 h.heap_start ps before stop
            (λ i p q. k.below i (omega (arith, heap.positive)) q) run) in
      let c =
        combine_backward-IsCombined source joined_heap ps before stop m.block m.blocks
          (omega (arith, k.same_start, heap.positive)) m.is_free run' m.part in
      rw (segment, t)
        (
          c.blocks,
          c.heap,
          ap (λ (n : ℕ). used n c.blocks) c.same_start
              ∙ c.same_used
              ∙ ap₂ (λ (l r : List (ℕ × ℕ)). l ++ r) (ap (λ (n : ℕ). used n ps) k.same_start ∙ us)
                  (m.same_used ∙ vs),
          c.same_start ∙ k.same_start,
          c.same_end ∙ k.same_end,
        )
