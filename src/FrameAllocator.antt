-- ===== src/FrameAllocator.antt =====
-- kernel/src/memory_management/PageFrameAllocator.hpp and PageFrameAllocator.cpp: the allocator of
-- physical pages. What it prints on the screen is left out.
pub mod Marks
pub mod Consistent
pub mod Boot
use mates_os.Base.{
  ℕ, zero, suc, ◌+◌, ◌-◌, ◌*◌, ◌/◌, Bool, true, false, ltb, ◌==◌, if◌then◌else◌, u64, sub64,
}
use mates_os.Bitmap.{Bitmap}
use mates_os.Bitmap

-- `pageBitmapIndex` and `Initialized` are variables of the file, the rest are members of the class.
pub record Frames : Type 0 where
  pub page_bitmap : Bitmap
  pub total_memory : ℕ
  pub free_memory : ℕ
  pub reserved_memory : ℕ
  pub used_memory : ℕ
  pub page_bitmap_index : ℕ

abbrev pub page_size : ℕ
page_size = 4096

-- `if (pageBitmapIndex > index) pageBitmapIndex = index;`
abbrev pub lowered : ℕ → ℕ → ℕ
lowered next index = if ltb index next then index else next

-- A call of `PageBitmap.Set`; the counters follow only if it wrote.
abbrev pub after_set : Frames → ℕ → Bool → (Bitmap → Frames) → Frames
after_set s index value update =
    let (bitmap, written) = Bitmap.set s.page_bitmap index value in
    if written then update bitmap else record s { page_bitmap = bitmap }

-- What each operation does once `PageBitmap.Set` has written.
abbrev pub locked : Frames → Bitmap → Frames
locked s bitmap = record s {
  page_bitmap = bitmap;
  free_memory = sub64 s.free_memory page_size;
  used_memory = u64 (s.used_memory + page_size);
}

abbrev pub reserved : Frames → Bitmap → Frames
reserved s bitmap = record s {
  page_bitmap = bitmap;
  free_memory = sub64 s.free_memory page_size;
  reserved_memory = u64 (s.reserved_memory + page_size);
}

abbrev pub freed : Frames → ℕ → Bitmap → Frames
freed s index bitmap = record s {
  page_bitmap = bitmap;
  free_memory = u64 (s.free_memory + page_size);
  used_memory = sub64 s.used_memory page_size;
  page_bitmap_index = lowered s.page_bitmap_index index;
}

abbrev pub unreserved : Frames → ℕ → Bitmap → Frames
unreserved s index bitmap = record s {
  page_bitmap = bitmap;
  free_memory = u64 (s.free_memory + page_size);
  reserved_memory = sub64 s.reserved_memory page_size;
  page_bitmap_index = lowered s.page_bitmap_index index;
}

unfoldable pub free_page : ℕ → Frames → Frames
free_page address s =
    let index = address / page_size in
    if Bitmap.get s.page_bitmap index then after_set s index false (freed s index) else s

unfoldable pub lock_page : ℕ → Frames → Frames
lock_page address s =
    let index = address / page_size in
    if Bitmap.get s.page_bitmap index then s else after_set s index true (locked s)

unfoldable pub unreserve_page : ℕ → Frames → Frames
unreserve_page address s =
    let index = address / page_size in
    if Bitmap.get s.page_bitmap index then after_set s index false (unreserved s index) else s

unfoldable pub reserve_page : ℕ → Frames → Frames
reserve_page address s =
    let index = address / page_size in
    if Bitmap.get s.page_bitmap index then s else after_set s index true (reserved s)

-- `for (t = 0; t < pageCount; t++) op(address + t * 4096)`, with the rounds that are left.
pub for_pages : (ℕ → Frames → Frames) → ℕ → ℕ → ℕ → Frames → Frames
for_pages op zero t address s = s
for_pages op (suc left) t address s =
    for_pages op left (t + 1) address (op (u64 (address + t * page_size)) s)

unfoldable pub free_pages : ℕ → ℕ → Frames → Frames
free_pages address page_count s = for_pages free_page page_count 0 address s

unfoldable pub lock_pages : ℕ → ℕ → Frames → Frames
lock_pages address page_count s = for_pages lock_page page_count 0 address s

unfoldable pub unreserve_pages : ℕ → ℕ → Frames → Frames
unreserve_pages address page_count s = for_pages unreserve_page page_count 0 address s

unfoldable pub reserve_pages : ℕ → ℕ → Frames → Frames
reserve_pages address page_count s = for_pages reserve_page page_count 0 address s

-- The loop of `RequestPage`: `pageBitmapIndex` stays where the search stops. NULL is 0.
unfoldable pub request_page_from : ℕ → Frames → ℕ × Frames
request_page_from zero s = (0, s)
request_page_from (suc left) s =
    let index = s.page_bitmap_index in
    let rest = request_page_from left (record s { page_bitmap_index = index + 1 }) in
    if Bitmap.get s.page_bitmap index
    then rest
    else (u64 (index * page_size), lock_page (u64 (index * page_size)) s)

unfoldable pub request_page : Frames → ℕ × Frames
request_page s = request_page_from (u64 (s.page_bitmap.size * 8) - s.page_bitmap_index) s
