-- ===== src/FrameAllocator/Consistent/Request.antt =====
-- `RequestPage`: it hands out the lowest free page, and NULL only when no page is free.
use mates_os.Base.{
  ℕ, zero, suc, ◌+◌, ◌-◌, ◌*◌, ◌/◌, ◌^◌, ◌<◌, ◌≡◌, refl, arith, ◌⊎◌, true, false, ◌==◌,
  if◌then◌else◌, u64, inl, inr, Bool-cases,
}
use mates_os.Bitmap.{Bitmap}
use mates_os.FrameAllocator.{Frames, page_size, lock_page, request_page_from, request_page}
use mates_os.FrameAllocator.Marks.{last_index, is_set, lock_page-Marks}
use mates_os.FrameAllocator.Consistent.{IsConsistent, lock_page-IsConsistent}
use mates_os.Bitmap

-- The number of bits that `RequestPage` looks through.
abbrev pub bits : Bitmap → ℕ
bits b = u64 (b.size * 8)

-- The call returned the address of the lowest free page, and took that page alone.
pub record Served (b : Bitmap) (address : ℕ) (s' : Frames) : Type 0 where
  pub index : ℕ
  pub below : index < bits b
  pub was_free : Bitmap.get b index ≡ false
  pub lowest : (j : ℕ) → j < index → Bitmap.get b j ≡ true
  pub at_address : address ≡ index * page_size
  pub taken : (j : ℕ) → is_set s' j ≡ (if index == j then true else Bitmap.get b j)
  pub size_kept : s'.page_bitmap.size ≡ b.size

-- No page is free, the result is NULL, and the bitmap stays.
pub record Exhausted (b : Bitmap) (address : ℕ) (s' : Frames) : Type 0 where
  pub null : address ≡ 0
  pub full : (j : ℕ) → j < bits b → Bitmap.get b j ≡ true
  pub bitmap_kept : s'.page_bitmap ≡ b

abbrev pub Outcome : Bitmap → ℕ × Frames → Type 0
Outcome b r = Served b r.0 r.1 ⊎ Exhausted b r.0 r.1

module _ (s : Frames) (fits : s.page_bitmap.size < 2 ^ 48) where
  here-Served :
      ((j : ℕ) → j < s.page_bitmap_index → is_set s j ≡ true)
      → s.page_bitmap_index < last_index s
      → is_set s s.page_bitmap_index ≡ false
      → let a = u64 (s.page_bitmap_index * page_size) in Served s.page_bitmap a (lock_page a s)
  here-Served hint below free =
      let i = s.page_bitmap_index in
      let e : u64 (i * page_size) / page_size ≡ i = omega arith in
      record {
        index = i;
        below = below;
        was_free = free;
        lowest = hint;
        at_address = omega arith;
        taken = λ j. ground (arith, lock_page-Marks (u64 (i * page_size)) j s, e);
        size_kept = (lock_page-Marks (u64 (i * page_size)) 0 s).1;
      }

abbrev stepped : Frames → Frames
stepped s = record s { page_bitmap_index = s.page_bitmap_index + 1 }

hint_suc :
    (s : Frames)
    → ((j : ℕ) → j < s.page_bitmap_index → is_set s j ≡ true)
    → is_set s s.page_bitmap_index ≡ true
    → (j : ℕ) → j < s.page_bitmap_index + 1
    → is_set s j ≡ true
hint_suc s hint busy j p = elim (Bool-cases (j == s.page_bitmap_index)) [
  | inl same ↦ ground arith
  | inr other ↦ hint j (ground arith)
]

request_page_from-Outcome :
    (left : ℕ) (s : Frames)
    → s.page_bitmap.size < 2 ^ 48
    → ((j : ℕ) → j < s.page_bitmap_index → is_set s j ≡ true)
    → left ≡ last_index s - s.page_bitmap_index
    → Outcome s.page_bitmap (request_page_from left s)
unfolding request_page_from
request_page_from-Outcome zero s fits hint e =
    inr (record { null = refl; full = λ j p. hint j (omega arith); bitmap_kept = refl })
request_page_from-Outcome (suc left) s fits hint e =
    elim (Bool-cases (is_set s s.page_bitmap_index)) [
      | inr free ↦ rw free (inl (here-Served s fits hint (omega arith) free))
      | inl busy ↦
          rw busy
            (request_page_from-Outcome left (stepped s) fits (hint_suc s hint busy) (omega arith))
    ]

-- With the books in order and a bitmap below 2 ^ 48 bytes, `RequestPage` returns the address of
-- the lowest free page and takes that page alone, or returns NULL and leaves the bitmap, and that
-- only if no page that it looks through is free.
pub request_page-Outcome :
    (s : Frames)
    → s.page_bitmap.size < 2 ^ 48
    → IsConsistent s
    → Outcome s.page_bitmap (request_page s)
unfolding request_page
request_page-Outcome s fits c = request_page_from-Outcome _ s fits c.hint refl

request_page_from-IsConsistent :
    (left : ℕ) (s : Frames) → IsConsistent s → IsConsistent (request_page_from left s).1
unfolding request_page_from
request_page_from-IsConsistent zero s c = c
request_page_from-IsConsistent (suc left) s c = elim (Bool-cases (is_set s s.page_bitmap_index)) [
  | inr free ↦ rw free (lock_page-IsConsistent (u64 (s.page_bitmap_index * page_size)) c)
  | inl busy ↦ rw busy (
      request_page_from-IsConsistent left (stepped s)
        (record { balance = c.balance; census = c.census; hint = hint_suc s c.hint busy }))
]

pub request_page-IsConsistent : {s : Frames} → IsConsistent s → IsConsistent (request_page s).1
unfolding request_page
request_page-IsConsistent c = request_page_from-IsConsistent _ _ c
