-- ===== src/FrameAllocator/Boot.antt =====
-- `PageFrameAllocator::ReadEFIMemoryMap` and `InitBitmap`: how the allocator starts from the firmware's
-- memory map.
pub mod Laws
pub mod Start
use mates_os.Base.{
  ℕ, zero, suc, ◌+◌, ◌*◌, ◌/◌, Bool, true, false, Option, none, some, ◌&&◌, ◌||◌, ltb, ◌==◌,
  if◌then◌else◌, u64, Result, ok, panic,
}
use mates_os.EfiMemory.{Descriptor, Descriptors, efi_conventional_memory, get_memory_size}
use mates_os.Bitmap.{Bitmap}
use mates_os.FrameAllocator.{Frames, page_size, lock_pages, reserve_pages, unreserve_pages}

-- `Initialized`, the static variable of `GetMemorySize`, `PageBitmap.Buffer`, and the allocator.
pub record Boot : Type 0 where
  pub initialized : Bool
  pub memory_size_bytes : ℕ
  pub buffer_address : ℕ
  pub frames : Frames

-- The search for the largest conventional segment: its address and its size in bytes.
unfoldable pub largest_segment : ℕ → ℕ → Descriptors → ℕ × ℕ → ℕ × ℕ
largest_segment zero i map best = best
largest_segment (suc left) i map best =
    let desc = map i in
    largest_segment left (i + 1) map (
      if (desc.type == efi_conventional_memory) && ltb best.1 (u64 (desc.num_pages * 4096))
      then (desc.phys_addr, u64 (desc.num_pages * 4096))
      else best)

-- `InitBitmap`; `ram` is the contents of the memory at each address.
unfoldable pub init_bitmap : (ℕ → ℕ) → ℕ → ℕ → Bitmap
init_bitmap ram bitmap_size address = record {
  size = bitmap_size;
  buffer = λ i. if ltb i bitmap_size then 0 else ram (address + i);
}

-- The body of the loop that gives the conventional segments free.
pub unreserve_segment : Descriptor → Frames → Frames
unreserve_segment desc s =
    if desc.type == efi_conventional_memory
    then unreserve_pages desc.phys_addr desc.num_pages s
    else s

-- That loop.
pub unreserve_segments : ℕ → ℕ → Descriptors → Frames → Frames
unreserve_segments zero i map s = s
unreserve_segments (suc left) i map s =
    unreserve_segments left (i + 1) map (unreserve_segment (map i) s)

-- The second half of `ReadEFIMemoryMap`, from the bitmap's segment and the size of the memory on.
unfoldable pub fill_bitmap : (ℕ → ℕ) → Descriptors → ℕ → ℕ → ℕ → Frames → Frames
fill_bitmap ram map entries segment total s =
    let bitmap_size = total / 4096 / 8 + 1 in
    let s1 = record s {
      total_memory = total;
      free_memory = total;
      page_bitmap = init_bitmap ram bitmap_size segment;
    } in
    let total_pages = total / 4096 + 1 in
    let s2 = reserve_pages 0 total_pages s1 in
    let s3 = unreserve_segments entries 0 map s2 in
    let s4 = reserve_pages 0 0x100 s3 in lock_pages segment (s4.page_bitmap.size / 4096 + 1) s4

unfoldable pub read_efi_memory_map : (ℕ → ℕ) → Option Descriptors → ℕ → ℕ → Boot → Result Boot
read_efi_memory_map ram none map_size desc_size b =
    if b.initialized then ok b else panic "PageFrameAllocator get invalid EFI_MEMORY_DESCRIPTOR"
read_efi_memory_map ram (some map) map_size desc_size b =
    if b.initialized
    then ok b
    else if (map_size == 0) || (desc_size == 0) || ltb map_size desc_size
    then panic "PageFrameAllocator get invalid EFI_MEMORY_DESCRIPTOR"
    else let entries = map_size / desc_size in
      let segment = (largest_segment entries 0 map (0, 0)).0 in
      let total = get_memory_size b.memory_size_bytes map entries in
      if segment == 0
      then panic "Failed to get free memory segment from EFI memory descriptor"
      else ok (record {
        initialized = true;
        memory_size_bytes = total;
        buffer_address = segment;
        frames = fill_bitmap ram map entries segment total b.frames;
      })
