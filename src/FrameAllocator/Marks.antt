-- ===== src/FrameAllocator/Marks.antt =====
-- Which bits of the page bitmap each operation changes.
use mates_os.Base.{
  ℕ, zero, suc, ◌+◌, ◌*◌, ◌/◌, ◌^◌, ◌≤◌, ◌≡◌, refl, ◌∙◌, arith, Bool, true, false, ◌&&◌, ltb, leb,
  ◌==◌, if◌then◌else◌, u64,
}
use mates_os.Bitmap.Laws.{get-set, size-set, set-in_range}
use mates_os.FrameAllocator.{
  Frames, page_size, free_page, lock_page, unreserve_page, reserve_page, for_pages,
}
use mates_os.Bitmap

-- The last index that the guards of the bitmap let through.
abbrev pub last_index : Frames → ℕ
last_index s = u64 (s.page_bitmap.size * 8)

abbrev pub is_set : Frames → ℕ → Bool
is_set s j = Bitmap.get s.page_bitmap j

-- The operation gives the value `v` to the bit of the page at its address, where the bitmap has such a
-- bit, and leaves the others.
abbrev pub Marks : Bool → (ℕ → Frames → Frames) → Type 0
Marks v op =
    (address j : ℕ) (s : Frames)
    → (is_set (op address s) j ≡ (
        if leb (address / page_size) (last_index s) && (address / page_size == j)
        then v
        else is_set s j))
      × ((op address s).page_bitmap.size ≡ s.page_bitmap.size)
      × ((op address s).total_memory ≡ s.total_memory)

pub lock_page-Marks : Marks true lock_page
unfolding lock_page
lock_page-Marks address j s =
    let i = address / page_size in
    ground (
      arith,
      get-set s.page_bitmap i j true,
      size-set s.page_bitmap i true,
      set-in_range s.page_bitmap i true,
    )

pub reserve_page-Marks : Marks true reserve_page
unfolding reserve_page
reserve_page-Marks address j s =
    let i = address / page_size in
    ground (
      arith,
      get-set s.page_bitmap i j true,
      size-set s.page_bitmap i true,
      set-in_range s.page_bitmap i true,
    )

pub free_page-Marks : Marks false free_page
unfolding free_page
free_page-Marks address j s =
    let i = address / page_size in
    ground (
      arith,
      get-set s.page_bitmap i j false,
      size-set s.page_bitmap i false,
      set-in_range s.page_bitmap i false,
    )

pub unreserve_page-Marks : Marks false unreserve_page
unfolding unreserve_page
unreserve_page-Marks address j s =
    let i = address / page_size in
    ground (
      arith,
      get-set s.page_bitmap i j false,
      size-set s.page_bitmap i false,
      set-in_range s.page_bitmap i false,
    )

-- The pages `from … from + n - 1` of the bitmap get the value `v`.
abbrev pub in_run : ℕ → ℕ → ℕ → Bool
in_run from n j = leb from j && ltb j (from + n)

pub for_pages-Marks :
    (v : Bool) (op : ℕ → Frames → Frames)
    → Marks v op
    → (left t address j : ℕ) (s : Frames) → address + (t + left) * page_size ≤ 2 ^ 64
    → (is_set (for_pages op left t address s) j ≡ (
        if in_run (address / page_size + t) left j && leb j (last_index s) then v else is_set s j))
      × ((for_pages op left t address s).page_bitmap.size ≡ s.page_bitmap.size)
      × ((for_pages op left t address s).total_memory ≡ s.total_memory)
unfolding for_pages
for_pages-Marks v op m zero t address j s h = (ground arith, refl, refl)
for_pages-Marks v op m (suc left) t address j s h =
    let a = u64 (address + t * page_size) in
    let ih = for_pages-Marks v op m left (t + 1) address j (op a s) (omega arith) in
    let one = m a j s in
    let e : a / page_size ≡ address / page_size + t = omega arith in
    (ground (arith, ih, one, e), ih.1 ∙ one.1, ih.2 ∙ one.2)
