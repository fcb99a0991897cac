-- ===== src/FrameAllocator/Boot/Laws.antt =====
-- What the bitmap holds once the memory map is read.
use mates_os.Base.{
  ℕ, zero, suc, ◌+◌, ◌*◌, ◌/◌, ◌^◌, ◌≤◌, ◌≡◌, refl, ◌∙◌, arith, Bool, true, false, ◌&&◌, ◌||◌, leb,
  ◌==◌, if◌then◌else◌, ltb, ◌<◌, not, ◌%◌, ◌-◌, u64, ap, Bool-cases, inl, inr,
}
use mates_os.EfiMemory.{Descriptors, efi_conventional_memory, Descriptor}
use mates_os.FrameAllocator.{
  Frames, page_size, lock_pages, reserve_pages, unreserve_pages, reserve_page, lock_page,
  unreserve_page,
}
use mates_os.Bits.{bit_and-le_left}
use mates_os.FrameAllocator.Marks.{
  last_index, is_set, in_run, for_pages-Marks, reserve_page-Marks, lock_page-Marks,
  unreserve_page-Marks,
}
use mates_os.FrameAllocator.Boot.{unreserve_segments, fill_bitmap, init_bitmap, unreserve_segment}
use mates_os.FrameAllocator.Consistent.{
  IsConsistent, for_pages-IsConsistent, lock_page-IsConsistent, unreserve_page-IsConsistent,
  reserve_page-IsConsistent,
}
use mates_os.Bitmap.Count.{count, count-empty}
use mates_os.Bitmap

abbrev pub in_segment : Descriptor → ℕ → Bool
in_segment desc j =
    (desc.type == efi_conventional_memory) && in_run (desc.phys_addr / page_size) desc.num_pages j

-- Whether a page lies in one of the conventional segments `i … i + left - 1` of the map.
unfoldable pub in_segments : ℕ → ℕ → Descriptors → ℕ → Bool
in_segments zero i map j = false
in_segments (suc left) i map j = in_segment (map i) j || in_segments left (i + 1) map j

-- No segment of the map runs over the end of the address space.
abbrev pub Fits : Descriptors → Type 0
Fits map = (i : ℕ) → (map i).phys_addr + (map i).num_pages * page_size ≤ 2 ^ 64

-- What a run of pages does to the bitmap, for the plural operations.
abbrev pub RunMarks : Bool → (ℕ → ℕ → Frames → Frames) → Type 0
RunMarks v op =
    (address n j : ℕ) (s : Frames)
    → address + n * page_size ≤ 2 ^ 64
    → (is_set (op address n s) j
        ≡ (if in_run (address / page_size) n j && leb j (last_index s) then v else is_set s j))
      × ((op address n s).page_bitmap.size ≡ s.page_bitmap.size)

pub reserve_pages-RunMarks : RunMarks true reserve_pages
unfolding reserve_pages
reserve_pages-RunMarks address n j s h =
    let m = for_pages-Marks true reserve_page reserve_page-Marks n 0 address j s (omega arith) in
    (ground (arith, m), m.1)

pub lock_pages-RunMarks : RunMarks true lock_pages
unfolding lock_pages
lock_pages-RunMarks address n j s h =
    let m = for_pages-Marks true lock_page lock_page-Marks n 0 address j s (omega arith) in
    (ground (arith, m), m.1)

pub unreserve_pages-RunMarks : RunMarks false unreserve_pages
unfolding unreserve_pages
unreserve_pages-RunMarks address n j s h =
    let m =
      for_pages-Marks false unreserve_page unreserve_page-Marks n 0 address j s (omega arith) in
    (ground (arith, m), m.1)

unreserve_segment-marks :
    (desc : Descriptor) (j : ℕ) (s : Frames)
    → desc.phys_addr + desc.num_pages * page_size ≤ 2 ^ 64
    → (is_set (unreserve_segment desc s) j
        ≡ (if in_segment desc j && leb j (last_index s) then false else is_set s j))
      × ((unreserve_segment desc s).page_bitmap.size ≡ s.page_bitmap.size)
unfolding unreserve_segment
unreserve_segment-marks desc j s h =
    let m = unreserve_pages-RunMarks desc.phys_addr desc.num_pages j s h in
    (ground (arith, m), ground (arith, m))

unreserve_segments-marks :
    (map : Descriptors)
    → Fits map
    → (left i j : ℕ) (s : Frames)
    → (is_set (unreserve_segments left i map s) j
        ≡ (if in_segments left i map j && leb j (last_index s) then false else is_set s j))
      × ((unreserve_segments left i map s).page_bitmap.size ≡ s.page_bitmap.size)
unfolding unreserve_segments in_segments
unreserve_segments-marks map fits zero i j s = (refl, refl)
unreserve_segments-marks map fits (suc left) i j s =
    let m = unreserve_segment-marks (map i) j s (fits i) in
    let ih = unreserve_segments-marks map fits left (i + 1) j (unreserve_segment (map i) s) in
    (ground (arith, ih, m), ih.1 ∙ m.1)

unreserve_segments-IsConsistent :
    (map : Descriptors) (left i : ℕ) {s : Frames}
    → IsConsistent s
    → IsConsistent (unreserve_segments left i map s)
unfolding unreserve_segments unreserve_segment unreserve_pages
unreserve_segments-IsConsistent map zero i c = c
unreserve_segments-IsConsistent map (suc left) i {s} c =
    unreserve_segments-IsConsistent map left (i + 1)
      (elim (Bool-cases ((map i).type == efi_conventional_memory)) [
        | inl conventional ↦ rw conventional (
            for_pages-IsConsistent unreserve_page (λ a s c. unreserve_page-IsConsistent a c) _ 0 _
              c)
        | inr other ↦ rw other c
      ])

-- The pages that no one may be given once the memory map is read: below 1 MiB, those of the bitmap
-- itself, and every page up to the total size that lies in no conventional segment.
abbrev pub held : Descriptors → ℕ → ℕ → ℕ → ℕ → ℕ → Bool
held map entries segment size total j =
    in_run (segment / page_size) (size / 4096 + 1) j
    || ltb j 0x100
    || (ltb j (total / 4096 + 1) && not (in_segments entries 0 map j))

module _ (ram : ℕ → ℕ) (map : Descriptors) (entries segment total : ℕ) (s : Frames)
    (fits : Fits map) (small : total < 2 ^ 60)
    (room : segment + (total / 4096 / 8 + 2) * page_size ≤ 2 ^ 63) where
  abbrev size : ℕ
  size = total / 4096 / 8 + 1

  zeroed : (j : ℕ) → j < size * 8 → Bitmap.get (init_bitmap ram size segment) j ≡ false
  unfolding Bitmap.get init_bitmap
  zeroed j p = ground (arith, bit_and-le_left 0 (Bitmap.bit_indexer j))

  -- Every bit of the bitmap after the memory map is read.
  pub fill_bitmap-held :
      (j : ℕ)
      → j < size * 8
      → is_set (fill_bitmap ram map entries segment total s) j
        ≡ held map entries segment size total j
  unfolding fill_bitmap init_bitmap
  fill_bitmap-held j p =
      let s1 = record s {
        total_memory = total;
        free_memory = total;
        page_bitmap = init_bitmap ram size segment;
      } in
      let s2 = reserve_pages 0 (total / 4096 + 1) s1 in
      let s3 = unreserve_segments entries 0 map s2 in
      let s4 = reserve_pages 0 0x100 s3 in
      let m2 = reserve_pages-RunMarks 0 (total / 4096 + 1) j s1 (omega arith) in
      let m3 = unreserve_segments-marks map fits entries 0 j s2 in
      let m4 = reserve_pages-RunMarks 0 0x100 j s3 (omega arith) in
      let e : s4.page_bitmap.size ≡ size = m4.1 ∙ m3.1 ∙ m2.1 in
      let m5 = lock_pages-RunMarks segment (s4.page_bitmap.size / 4096 + 1) j s4 (omega arith) in
      ground (arith, zeroed j p, m2, m3, m4, e, m5)

  -- Where the number of pages of the memory leaves a remainder below 7 by 8, the bitmap has more
  -- than 256 bits, and neither a conventional segment nor the bitmap reaches the page of the last
  -- bit: that page starts at or past the end of the memory, and it is free once the memory map is
  -- read.
  pub fill_bitmap-past_memory :
      total / 4096 % 8 < 7
      → 0x100 < size * 8
      → in_segments entries 0 map (size * 8 - 1) ≡ false
      → in_run (segment / page_size) (size / 4096 + 1) (size * 8 - 1) ≡ false
      → (total ≤ (size * 8 - 1) * page_size)
        × (is_set (fill_bitmap ram map entries segment total s) (size * 8 - 1) ≡ false)
  fill_bitmap-past_memory h1 h2 h3 h4 =
      (omega arith, fill_bitmap-held (size * 8 - 1) (omega arith) ∙ ground arith)

  module _ (unused : s.used_memory ≡ 0) (unreserved : s.reserved_memory ≡ 0)
      (from_start : s.page_bitmap_index ≡ 0)
      (next_clear : Bitmap.get (init_bitmap ram size segment) (size * 8) ≡ false) where
    started-IsConsistent : IsConsistent (record s {
      total_memory = total;
      free_memory = total;
      page_bitmap = init_bitmap ram size segment;
    })
    unfolding init_bitmap
    started-IsConsistent =
        let empty : count (init_bitmap ram size segment) (size * 8 + 1) ≡ 0 =
          count-empty (init_bitmap ram size segment) (size * 8 + 1) (λ j p.
            elim (Bool-cases (j == size * 8)) [
              | inl last ↦ ground (arith, next_clear)
              | inr before ↦ zeroed j (ground arith)
            ]) in
        record {
          balance = omega (arith, unused, unreserved);
          census = omega (arith, unused, unreserved, empty, wide);
          hint = λ j p. absurd (omega (arith, from_start));
        }
      where
        wide :
            count (init_bitmap ram size segment) (u64 (size * 8) + 1)
            ≡ count (init_bitmap ram size segment) (size * 8 + 1)
        wide = ap (count (init_bitmap ram size segment)) (omega arith)

    -- The counters and the bitmap agree once the memory map is read.
    pub fill_bitmap-IsConsistent : IsConsistent (fill_bitmap ram map entries segment total s)
    unfolding fill_bitmap reserve_pages lock_pages
    fill_bitmap-IsConsistent =
        for_pages-IsConsistent lock_page (λ a s c. lock_page-IsConsistent a c) _ 0 segment
          (for_pages-IsConsistent reserve_page (λ a s c. reserve_page-IsConsistent a c) 0x100 0 0
            (unreserve_segments-IsConsistent map entries 0 (
              for_pages-IsConsistent reserve_page (λ a s c. reserve_page-IsConsistent a c) _ 0 0
                started-IsConsistent)))
