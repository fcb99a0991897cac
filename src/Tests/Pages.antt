-- ===== src/Tests/Pages.antt =====
-- Instances for the page bitmap, the page frame allocator and the page tables.
use mates_os.Base.{
  ℕ, ◌/◌, ◌≡◌, refl, ap, ◌∙◌, arith, ◌==◌, Option, false, if◌then◌else◌, List, some, [], true, none,
  ◌≤◌, ◌*◌, u64, ◌+◌,
}
use mates_os.Bitmap.{Bitmap, bit_indexer}
use mates_os.Bitmap.Count.{count}
use mates_os.FrameAllocator.{
  Frames, request_page, lock_page, free_page, reserve_page, unreserve_page,
}
use mates_os.FrameAllocator.Marks.{is_set}
use mates_os.FrameAllocator.Consistent.{IsConsistent, page_operations-IsConsistent}
use mates_os.FrameAllocator.Consistent.Request.{Outcome, request_page-Outcome}
use mates_os.Paging.FramesSource.{IsReady, free_pages_left, frames_source, request_page-Fresh}
use mates_os.Paging.Source.{Fresh}
use mates_os.Paging.Entry.{get_flag, present}
use mates_os.Paging.Manager.{
  Space, map_memory, round_up, unmap_memory, identity_map_memory, remap_memory, identity_map_from,
}
use mates_os.Paging.Manager.Map.{IsSpace, Mapped, map_memory-Mapped}
use mates_os.EfiMemory.{Descriptors, get_memory_size, add_sizes}
use mates_os.FrameAllocator.Boot.{
  Boot, read_efi_memory_map, largest_segment, fill_bitmap, init_bitmap,
}
use mates_os.FrameAllocator.Boot.Laws.{in_segments, fill_bitmap-past_memory}
use mates_os.FrameAllocator.Boot.Start.{Started, read_efi_memory_map-Started, IsBootable}
use mates_os.Paging.Manager.Range.{IdentityMapped, identity_map_memory-IdentityMapped}
use mates_os.Paging.Manager.Unmap.{Unmapped, unmap_memory-Unmapped, Remapped, remap_memory-Remapped}
use mates_os.Bitmap

-- Sixteen pages; page 0 is reserved, and page 1 holds the PML4.
abbrev two_taken : Bitmap
two_taken = record { size = 2; buffer = λ i. if i == 0 then 0b11000000 else 0 }

abbrev small_frames : Frames
small_frames = record {
  page_bitmap = two_taken;
  total_memory = 65536;
  free_memory = 57344;
  reserved_memory = 4096;
  used_memory = 4096;
  page_bitmap_index = 0;
}

small_frames-IsConsistent : IsConsistent small_frames
unfolding count Bitmap.get
small_frames-IsConsistent = record {
  balance = refl;
  census = refl;
  hint = λ j p. absurd (omega arith);
}

small_frames-IsReady : IsReady small_frames
unfolding Bitmap.get
small_frames-IsReady = record {
  consistent = small_frames-IsConsistent;
  null_taken = refl;
  narrow = omega arith;
}

abbrev pub small_space : Space frames_source
small_space = record { memory = λ a. 0; frames = small_frames }

abbrev pml4_label : ℕ → Option (List ℕ)
pml4_label a = if a == 4096 then some [] else none

small_space-IsSpace : IsSpace frames_source 4096 small_space
small_space-IsSpace = record {
  label = pml4_label;
  tree = record {
    root = refl;
    aligned = λ a n h. ground arith;
    in_range = λ a n h. ground arith;
    in_use = λ a n h. ap (λ x. is_set small_frames (x / 4096)) (only_pml4 a n h) ∙ pml4_taken;
    child = λ a n i h d p q. cc (q, zero_absent);
  };
  good = small_frames-IsReady;
}
  where
    zero_absent : get_flag 0 present ≡ false
    zero_absent = unfold get_flag in refl

    only_pml4 : (a : ℕ) (n : List ℕ) → pml4_label a ≡ some n → a ≡ 4096
    only_pml4 a n h = ground arith

    pml4_taken : is_set small_frames 1 ≡ true
    pml4_taken = unfold Bitmap.get in refl

map_memory-Mapped_example :
    Mapped frames_source 4096 0x10000000_0000 0x5000 small_space
      (map_memory frames_source 4096 0x10000000_0000 0x5000 small_space).1
unfolding count Bitmap.get
map_memory-Mapped_example =
    map_memory-Mapped frames_source 4096 0x10000000_0000 0x5000 small_space small_space-IsSpace
      (omega arith)

first_map :
    Mapped frames_source 4096 0x10000000_0000 0x5000 small_space
      (map_memory frames_source 4096 0x10000000_0000 0x5000 small_space).1
unfolding count Bitmap.get
first_map =
    map_memory-Mapped frames_source 4096 0x10000000_0000 0x5000 small_space small_space-IsSpace
      (omega arith)

request_page-Outcome_example : Outcome two_taken (request_page small_frames)
request_page-Outcome_example =
    request_page-Outcome small_frames (omega arith) small_frames-IsConsistent

request_page-Fresh_example :
    Fresh Frames is_set free_pages_left small_frames
      (request_page small_frames).0
      (request_page small_frames).1
    × IsReady (request_page small_frames).1
unfolding count Bitmap.get
request_page-Fresh_example = request_page-Fresh small_frames small_frames-IsReady (omega arith)

page_operations-IsConsistent_example :
    IsConsistent (lock_page 0x2000 small_frames)
    × IsConsistent (free_page 0x2000 small_frames)
    × IsConsistent (reserve_page 0x2000 small_frames)
    × IsConsistent (unreserve_page 0x2000 small_frames)
page_operations-IsConsistent_example = page_operations-IsConsistent 0x2000 small_frames-IsConsistent

unmap_memory-Unmapped_example :
    Unmapped frames_source 4096 0x5000 small_space.memory
      (unmap_memory 4096 0x5000 small_space.memory)
      pml4_label
      small_frames
unfolding small_space-IsSpace
unmap_memory-Unmapped_example =
    unmap_memory-Unmapped frames_source 4096 0x5000 pml4_label small_space.memory small_frames
      small_space-IsSpace.tree

identity_map_memory-IdentityMapped_example :
    (s : Space frames_source) × (identity_map_memory frames_source 4096 0x5000 0x1800 small_space
      ≡ some s)
    × (identity_map_from frames_source 100 4096 0x5000
          (u64 (0x5000 + round_up 0x1800 0x1000))
          small_space
        ≡ some s)
    × IdentityMapped frames_source 4096
        (0x5000 / 4096)
        (round_up 0x1800 0x1000 / 0x1000)
        small_space
        s
unfolding count Bitmap.get
identity_map_memory-IdentityMapped_example =
    identity_map_memory-IdentityMapped frames_source 4096 100 0x5000 0x1800 small_space
      small_space-IsSpace (omega arith) (omega arith) (omega arith)

-- One conventional segment of 1 MiB, at 1 MiB.
abbrev one_segment : Descriptors
one_segment i = record {
  type = 7;
  phys_addr = if i == 0 then 0x100000 else 0;
  virt_addr = 0;
  num_pages = if i == 0 then 256 else 0;
  attribs = 0;
}

abbrev unused_frames : Frames
unused_frames = record {
  page_bitmap = record { size = 0; buffer = λ i. 0 };
  total_memory = 0;
  free_memory = 0;
  reserved_memory = 0;
  used_memory = 0;
  page_bitmap_index = 0;
}

abbrev before_boot : Boot
before_boot = record {
  initialized = false;
  memory_size_bytes = 0;
  buffer_address = 0;
  frames = unused_frames;
}

one_segment-IsBootable : IsBootable (λ a. 0) one_segment 48 48 before_boot
unfolding get_memory_size add_sizes largest_segment init_bitmap Bitmap.get
one_segment-IsBootable = record {
  first_call = refl;
  some_entries = omega arith;
  fits = λ i. ground arith;
  small = omega arith;
  segment_found = omega arith;
  segment_room = omega arith;
  unused = refl;
  unreserved = refl;
  from_start = refl;
  next_clear = refl;
}

read_efi_memory_map-Started_example :
    Started
      (λ a. 0)
      one_segment
      48
      48
      before_boot
      (read_efi_memory_map (λ a. 0) (some one_segment) 48 48 before_boot)
read_efi_memory_map-Started_example =
    read_efi_memory_map-Started (λ a. 0) one_segment 48 48 before_boot one_segment-IsBootable

fill_bitmap-past_memory_example :
    (0x100000 ≤ 263 * 4096)
    × (is_set (fill_bitmap (λ a. 0) one_segment 0 0x10000 0x100000 unused_frames) 263 ≡ false)
unfolding in_segments
fill_bitmap-past_memory_example =
    fill_bitmap-past_memory (λ a. 0) one_segment 0 0x10000 0x100000 unused_frames
      (λ i. ground arith) (omega arith) (omega arith) (omega arith) (omega arith) refl refl

abbrev mapped_space : Space frames_source
mapped_space = (map_memory frames_source 4096 0x10000000_0000 0x5000 small_space).1

remap_memory-Remapped_example :
    Remapped frames_source 4096 0x10000000_0000 0x20000000_0000 mapped_space
      (remap_memory frames_source 4096 0x10000000_0000 0x20000000_0000 mapped_space).0
      (remap_memory frames_source 4096 0x10000000_0000 0x20000000_0000 mapped_space).1
unfolding count Bitmap.get
remap_memory-Remapped_example =
    remap_memory-Remapped frames_source 4096 0x10000000_0000 0x20000000_0000 mapped_space
      first_map.space (omega (arith, first_map.room_left)) (omega arith)
      (omega (arith, first_map.reached))
