-- ===== src/Tests/Heaps.antt =====
-- A heap of two free segments, at 64 and at 192, up to 256, and heaps that calls make.
use mates_os.Bitmap
use mates_os.Base.{
  ok, panic, some, none, ℕ, true, if◌then◌else◌, ◌∷◌, ◌≡◌, [], refl, ◌==◌, ◌-◌, arith, Option,
  Result, false, List, ◌*◌,
}
use mates_os.Heap.Calls.{create_heap-IsHeap}
use mates_os.Heap.{free_block, create_heap, malloc, create_pages, add_page}
use mates_os.Heap.Chain.{Block}
use mates_os.Heap.Segments.{Heap, split, Segment, combine_forward, combine_backward, put_segment}
use mates_os.Paging.FramesSource.{frames_source}
use mates_os.Tests.Pages.{small_space}
use mates_os.FrameAllocator.{request_page, request_page_from}
use mates_os.Heap.Malloc.{Allocation, malloc-Allocation}
use mates_os.Heap.Merge.{IsHeap}
use mates_os.Heap.Used.{used}
use mates_os.Heap.Free.{free_block-removes}

abbrev first_block : Block
first_block = record { size = 96; is_free = true }

abbrev second_block : Block
second_block = record { size = 32; is_free = true }

abbrev two_segments : ℕ → Segment
two_segments a =
    if a == 64
    then record { length = 96; next = 192; last = 0; free = true }
    else record { length = 32; next = 0; last = 64; free = true }

abbrev small_heap : Heap frames_source
small_heap = record {
  heap_start = 64;
  heap_end = 256;
  last_hdr = 192;
  used_pages = 1;
  segments = two_segments;
  space = small_space;
}

-- A request of 40 bytes takes 48 of the first segment; giving them free joins its two parts again.
heap_run :
    ((free_block frames_source 96 (split frames_source 64 48 small_heap).1).segments 64).length ≡ 96
unfolding free_block split combine_forward combine_backward
heap_run = refl

-- Before `CreateHeap`: every header is 0.
abbrev no_heap : Heap frames_source
no_heap = record {
  heap_start = 0;
  heap_end = 0;
  last_hdr = 0;
  used_pages = 0;
  segments = λ a. record { length = 0; next = 0; last = 0; free = false };
  space = small_space;
}

abbrev heap_of : Result (Heap frames_source) → Heap frames_source
heap_of (ok h) = h
heap_of (panic e) = no_heap

abbrev block_of : Option (ℕ × Heap frames_source) → Heap frames_source
block_of (some (a, h)) = h
block_of none = no_heap

-- A heap of one page, and the same after a request for 40 bytes.
abbrev new_heap : Heap frames_source
new_heap = heap_of (create_heap frames_source 4096 0x10000 1 no_heap)

abbrev first_taken : Heap frames_source
first_taken = block_of (malloc frames_source 3 0x900 4096 40 new_heap)

create_run : create_heap frames_source 4096 0x10000 1 no_heap ≡ ok new_heap
unfolding create_heap create_pages add_page request_page request_page_from Bitmap.get
create_run = refl

new_heap_end : new_heap.heap_end ≡ 0x11000
unfolding create_heap create_pages add_page request_page request_page_from Bitmap.get
new_heap_end = refl

new_heap-IsHeap :
    IsHeap frames_source new_heap (record { size = 1 * 0x1000 - 32; is_free = true } ∷ [])
new_heap-IsHeap =
    (create_heap-IsHeap frames_source 4096 0x10000 1 no_heap new_heap refl (omega arith)
      (omega arith) (omega arith) create_run).0

malloc-Allocation_example :
    Allocation frames_source new_heap
      (record { size = 1 * 0x1000 - 32; is_free = true } ∷ [])
      5000
      (malloc frames_source 3 4 4096 5000 new_heap)
malloc-Allocation_example =
    malloc-Allocation frames_source 4 4096 5000 new_heap
      (record { size = 1 * 0x1000 - 32; is_free = true }) [] (omega arith)
      (omega (arith, new_heap_end)) (omega arith) new_heap-IsHeap

-- The small heap with its first segment in use.
abbrev half_taken : Heap frames_source
half_taken = record small_heap {
  segments =
      put_segment 64 (record { length = 96; next = 192; last = 0; free = false }) two_segments;
}

free_block-removes_example :
    (blocks : List Block) × IsHeap frames_source (free_block frames_source 96 half_taken) blocks
    × (used (free_block frames_source 96 half_taken).heap_start blocks ≡ [])
    × ((free_block frames_source 96 half_taken).heap_start ≡ 64)
    × ((free_block frames_source 96 half_taken).heap_end ≡ 256)
free_block-removes_example =
    free_block-removes frames_source half_taken
      (record { size = 96; is_free = false } ∷ second_block ∷ []) [] [] 96 96
      (record {
        positive = omega arith;
        fits = omega arith;
        chain = (refl, (refl, refl));
        ends = refl;
      })
      refl
