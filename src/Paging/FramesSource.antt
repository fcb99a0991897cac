-- ===== src/Paging/FramesSource.antt =====
-- The page frame allocator gives the page table manager what it relies on.
use mates_os.Base.{
  ℕ, ◌-◌, ◌*◌, ◌/◌, ◌^◌, ◌<◌, ◌≡◌, ap, ◌∙◌, arith, true, u64, inr, inl, if◌then◌else◌, ◌==◌, sym,
}
use mates_os.Bitmap.Count.{count, count-mark, count-full}
use mates_os.FrameAllocator.{Frames, request_page}
use mates_os.FrameAllocator.Marks.{is_set}
use mates_os.FrameAllocator.Consistent.{IsConsistent}
use mates_os.FrameAllocator.Consistent.Request.{
  bits, request_page-Outcome, request_page-IsConsistent,
}
use mates_os.Paging.Source.{Source, Fresh}

-- The books are in order, page 0 is reserved, and every page lies below 2 ^ 52.
pub record IsReady (s : Frames) : Type 0 where
  pub consistent : IsConsistent s
  pub null_taken : is_set s 0 ≡ true
  pub narrow : s.page_bitmap.size < 2 ^ 37

-- The number of free pages among those that `RequestPage` looks through.
abbrev pub free_pages_left : Frames → ℕ
free_pages_left s = bits s.page_bitmap - count s.page_bitmap (bits s.page_bitmap)

-- With an allocator that is ready and a free page among those that it looks through, `RequestPage`
-- gives a page that was free, aligned and not NULL, takes that page alone, and leaves the
-- allocator ready.
pub request_page-Fresh :
    (s : Frames)
    → IsReady s
    → 0 < free_pages_left s
    → Fresh Frames is_set free_pages_left s (request_page s).0 (request_page s).1
      × IsReady (request_page s).1
request_page-Fresh s r some_room =
    elim (request_page-Outcome s (omega (arith, r.narrow)) r.consistent) [
      | inr e ↦ absurd (omega (arith, count-full s.page_bitmap (bits s.page_bitmap) e.full))
      | inl v ↦
          let number : (request_page s).0 / 4096 ≡ v.index = omega (arith, v.at_address) in
          let low : v.index < 2 ^ 40 = omega (arith, v.below, r.narrow) in
          (
            record {
              nonnull = λ e. cc (
                r.null_taken,
                v.was_free,
                ap (is_set s) (zero_index v.index (request_page s).0 v.at_address e),
              );
              aligned = omega (arith, v.at_address);
              in_range = omega (arith, v.at_address);
              was_free = ap (is_set s) number ∙ v.was_free;
              takes = λ j. v.taken j ∙ ap (λ i. if i == j then true else is_set s j) (sym number);
              room_left = omega (
                arith,
                ap (λ (n : ℕ). u64 (n * 8)) v.size_kept,
                ap (λ (n : ℕ). count (request_page s).1.page_bitmap (u64 (n * 8))) v.size_kept,
                count-mark s.page_bitmap (request_page s).1.page_bitmap v.index (bits s.page_bitmap)
                    v.taken v.was_free v.below,
              );
            },
            record {
              consistent = request_page-IsConsistent r.consistent;
              null_taken = v.taken 0 ∙ ground (arith, r.null_taken);
              narrow = omega (arith, v.size_kept, r.narrow);
            },
          )
    ]
  where
    zero_index : (i a : ℕ) → a ≡ i * 4096 → a ≡ 0 → i ≡ 0
    zero_index i a e h = omega arith

-- The allocator as the source of pages.
abbrev pub frames_source : Source
frames_source = record {
  State = Frames;
  request_page = request_page;
  IsGood = IsReady;
  taken = is_set;
  room = free_pages_left;
  request_fresh = request_page-Fresh;
}
