-- ===== src/FrameAllocator/Consistent.antt =====
-- The bookkeeping of the allocator: the counters add up, they agree with the bitmap, and no page below
-- the hint is free. Every operation keeps this.
pub mod Request
use mates_os.Base.{
  ℕ, zero, suc, ◌+◌, ◌-◌, ◌*◌, ◌/◌, ◌^◌, ◌≤◌, ◌<◌, ◌≡◌, refl, ◌∙◌, ap, arith, Bool, true, false,
  not, ◌&&◌, ltb, leb, ◌==◌, if◌then◌else◌, u64, sub64, inl, inr, Bool-cases, ◌⊎◌, ltb→ge,
}
use mates_os.Bitmap.{Bitmap}
use mates_os.Bitmap.Laws.{get-set, size-set, set-in_range}
use mates_os.Bitmap.Count.{count, count-set, to_nat}
use mates_os.FrameAllocator.{
  Frames, page_size, after_set, lowered, free_page, lock_page, unreserve_page, reserve_page,
  for_pages, freed, locked, reserved, unreserved,
}
use mates_os.FrameAllocator.Marks.{last_index, is_set}
use mates_os.Bitmap

-- The number of pages that are not free.
abbrev pub taken : Frames → ℕ
taken s = count s.page_bitmap (last_index s + 1)

pub record IsConsistent (s : Frames) : Type 0 where
  pub balance : u64 (s.free_memory + s.reserved_memory + s.used_memory) ≡ u64 s.total_memory
  pub census : u64 (s.reserved_memory + s.used_memory) ≡ u64 (taken s * page_size)
  pub hint : (j : ℕ) → j < s.page_bitmap_index → is_set s j ≡ true

after_set_cases :
    (s : Frames) (i : ℕ) (v : Bool) (update : Bitmap → Frames)
    → (after_set s i v update ≡ s)
      ⊎ ((i ≤ last_index s) × (after_set s i v update ≡ update (Bitmap.set s.page_bitmap i v).0))
unfolding Bitmap.set
after_set_cases s i v update = elim (Bool-cases (ltb (last_index s) i)) [
  | inl out ↦ inl (rw out)
  | inr in_range ↦ inr (omega (arith, ltb→ge (last_index s) i), rw in_range)
]

module _ (s : Frames) (c : IsConsistent s) (i : ℕ) (p : i ≤ last_index s) where
  open s use {page_bitmap, free_memory, used_memory, reserved_memory, page_bitmap_index}

  census_take :
      Bitmap.get page_bitmap i ≡ false
      → u64 (u64 (reserved_memory + used_memory) + page_size)
        ≡ u64 (
            count
              (Bitmap.set page_bitmap i true).0
              (u64 ((Bitmap.set page_bitmap i true).0.size * 8) + 1)
            * page_size)
  census_take f = rw (size-set page_bitmap i true) (
      omega (
        arith,
        c.census,
        count-set page_bitmap i true (last_index s + 1) p (omega arith),
        ap to_nat f,
      ))

  census_give :
      Bitmap.get page_bitmap i ≡ true
      → u64 (u64 (reserved_memory + used_memory) + 2 ^ 64 - page_size)
        ≡ u64 (
            count
              (Bitmap.set page_bitmap i false).0
              (u64 ((Bitmap.set page_bitmap i false).0.size * 8) + 1)
            * page_size)
  census_give f = rw (size-set page_bitmap i false) (
      omega (
        arith,
        c.census,
        count-set page_bitmap i false (last_index s + 1) p (omega arith),
        ap to_nat f,
      ))

  hint_take :
      (j : ℕ) → j < page_bitmap_index → Bitmap.get (Bitmap.set page_bitmap i true).0 j ≡ true
  hint_take j q = ground (arith, c.hint j q, get-set page_bitmap i j true)

  hint_give :
      (j : ℕ)
      → j < lowered page_bitmap_index i
      → Bitmap.get (Bitmap.set page_bitmap i false).0 j ≡ true
  hint_give j q = ground (arith, c.hint j (ground arith), get-set page_bitmap i j false)

  locked-IsConsistent :
      Bitmap.get page_bitmap i ≡ false → IsConsistent (locked s (Bitmap.set page_bitmap i true).0)
  locked-IsConsistent f = record {
    balance = omega (arith, c.balance);
    census = omega (arith, census_take f);
    hint = hint_take;
  }

  reserved-IsConsistent :
      Bitmap.get page_bitmap i ≡ false → IsConsistent (reserved s (Bitmap.set page_bitmap i true).0)
  reserved-IsConsistent f = record {
    balance = omega (arith, c.balance);
    census = omega (arith, census_take f);
    hint = hint_take;
  }

  freed-IsConsistent :
      Bitmap.get page_bitmap i ≡ true → IsConsistent (freed s i (Bitmap.set page_bitmap i false).0)
  freed-IsConsistent f = record {
    balance = omega (arith, c.balance);
    census = omega (arith, census_give f);
    hint = hint_give;
  }

  unreserved-IsConsistent :
      Bitmap.get page_bitmap i ≡ true
      → IsConsistent (unreserved s i (Bitmap.set page_bitmap i false).0)
  unreserved-IsConsistent f = record {
    balance = omega (arith, c.balance);
    census = omega (arith, census_give f);
    hint = hint_give;
  }

module _ (address : ℕ) {s : Frames} (c : IsConsistent s) where
  abbrev at : ℕ
  at = address / page_size

  after_set-IsConsistent :
      (v : Bool) (update : Bitmap → Frames)
      → (at ≤ last_index s → IsConsistent (update (Bitmap.set s.page_bitmap at v).0))
      → IsConsistent (after_set s at v update)
  after_set-IsConsistent v update keep = elim (after_set_cases s at v update) [
    | inl same ↦ rw same c
    | inr (p, e) ↦ rw e (keep p)
  ]

  pub lock_page-IsConsistent : IsConsistent (lock_page address s)
  unfolding lock_page
  lock_page-IsConsistent = elim (Bool-cases (Bitmap.get s.page_bitmap at)) [
    | inl t ↦ rw t c
    | inr f ↦ rw f (after_set-IsConsistent true (locked s) (λ p. locked-IsConsistent s c at p f))
  ]

  pub reserve_page-IsConsistent : IsConsistent (reserve_page address s)
  unfolding reserve_page
  reserve_page-IsConsistent = elim (Bool-cases (Bitmap.get s.page_bitmap at)) [
    | inl t ↦ rw t c
    | inr f ↦
        rw f (after_set-IsConsistent true (reserved s) (λ p. reserved-IsConsistent s c at p f))
  ]

  pub free_page-IsConsistent : IsConsistent (free_page address s)
  unfolding free_page
  free_page-IsConsistent = elim (Bool-cases (Bitmap.get s.page_bitmap at)) [
    | inl t ↦ rw t (after_set-IsConsistent false (freed s at) (λ p. freed-IsConsistent s c at p t))
    | inr f ↦ rw f c
  ]

  pub unreserve_page-IsConsistent : IsConsistent (unreserve_page address s)
  unfolding unreserve_page
  unreserve_page-IsConsistent = elim (Bool-cases (Bitmap.get s.page_bitmap at)) [
    | inl t ↦
        rw t
          (after_set-IsConsistent false (unreserved s at) (λ p. unreserved-IsConsistent s c at p t))
    | inr f ↦ rw f c
  ]

-- A run of pages keeps what each page keeps.
pub for_pages-IsConsistent :
    (op : ℕ → Frames → Frames)
    → ((address : ℕ) (s : Frames) → IsConsistent s → IsConsistent (op address s))
    → (left t address : ℕ) {s : Frames} → IsConsistent s
    → IsConsistent (for_pages op left t address s)
unfolding for_pages
for_pages-IsConsistent op keep zero t address c = c
for_pages-IsConsistent op keep (suc left) t address c =
    for_pages-IsConsistent op keep left (t + 1) address (keep (u64 (address + t * page_size)) _ c)

-- Each of the four operations on a page, at any address, keeps the books in order: the counters add up to
-- the total, reserved and used memory are what the bitmap says, and no page below the hint is free.
pub page_operations-IsConsistent :
    (address : ℕ) {s : Frames}
    → IsConsistent s
    → IsConsistent (lock_page address s)
      × IsConsistent (free_page address s)
      × IsConsistent (reserve_page address s)
      × IsConsistent (unreserve_page address s)
page_operations-IsConsistent address c = (
  lock_page-IsConsistent address c,
  free_page-IsConsistent address c,
  reserve_page-IsConsistent address c,
  unreserve_page-IsConsistent address c,
)
