-- ===== src/FrameAllocator/Boot/Start.antt =====
-- `ReadEFIMemoryMap` from the call to the result.
use mates_os.Base.{
  ℕ, ◌+◌, ◌*◌, ◌/◌, ◌^◌, ◌≤◌, ◌<◌, ◌≡◌, ◌≢◌, refl, arith, true, false, some, Result, ok, inl, suc,
  ◌%◌, ◌⊎◌, Bool-cases, ap, u64, ◌==◌, if◌then◌else◌, inr, ◌&&◌, ltb, zero,
}
use mates_os.EfiMemory.{Descriptors, get_memory_size}
use mates_os.FrameAllocator.{page_size}
use mates_os.FrameAllocator.Marks.{is_set}
use mates_os.FrameAllocator.Consistent.{IsConsistent}
use mates_os.FrameAllocator.Boot.{
  Boot, largest_segment, init_bitmap, fill_bitmap, read_efi_memory_map,
}
use mates_os.FrameAllocator.Boot.Laws.{Fits, held, fill_bitmap-held, fill_bitmap-IsConsistent}
use mates_os.Bitmap

-- Where the search for the largest segment ends: where it started, or with a conventional segment.
abbrev IsChosen : Descriptors → ℕ → ℕ → ℕ × ℕ → ℕ × ℕ → Type 0
IsChosen map i left best r =
    (r ≡ best)
    ⊎ ((k : ℕ) × (i ≤ k)
        × (k < i + left)
        × ((map k).type ≡ 7)
        × (r ≡ ((map k).phys_addr, (map k).num_pages * 4096 % 2 ^ 64)))

largest_segment-IsChosen :
    (map : Descriptors) (left i : ℕ) (best : ℕ × ℕ)
    → IsChosen map i left best (largest_segment left i map best)
unfolding largest_segment
largest_segment-IsChosen map zero i best = inl refl
largest_segment-IsChosen map (suc left) i best =
    elim (Bool-cases (((map i).type == 7) && ltb best.1 (u64 ((map i).num_pages * 4096)))) [
      | inl t ↦ rw t (elim (largest_segment-IsChosen map left (i + 1) (here i)) [
        | inl e ↦ inr (i, omega arith, omega arith, ground (arith, t), e)
        | inr (k, p, q, c, e) ↦ inr (k, omega arith, omega arith, c, e)
      ])
      | inr t ↦ rw t (elim (largest_segment-IsChosen map left (i + 1) best) [
        | inl e ↦ inl e
        | inr (k, p, q, c, e) ↦ inr (k, omega arith, omega arith, c, e)
      ])
    ]
  where
    here : ℕ → ℕ × ℕ
    here j = ((map j).phys_addr, u64 ((map j).num_pages * 4096))

largest_segment-grows :
    (map : Descriptors) (left i : ℕ) (best : ℕ × ℕ) → best.1 ≤ (largest_segment left i map best).1
unfolding largest_segment
largest_segment-grows map zero i best = omega arith
largest_segment-grows map (suc left) i best =
    let next =
      (if ((map i).type == 7) && ltb best.1 (u64 ((map i).num_pages * 4096))
        then ((map i).phys_addr, u64 ((map i).num_pages * 4096))
        else best) in
    let up : best.1 ≤ next.1 = ground arith in
    omega (arith, up, largest_segment-grows map left (i + 1) next)

largest_segment-largest :
    (map : Descriptors) (left i : ℕ) (best : ℕ × ℕ) (k : ℕ)
    → i ≤ k
    → k < i + left
    → (map k).type ≡ 7
    → (map k).num_pages * 4096 % 2 ^ 64 ≤ (largest_segment left i map best).1
unfolding largest_segment
largest_segment-largest map zero i best k p q c = absurd (omega arith)
largest_segment-largest map (suc left) i best k p q c =
    let next =
      (if ((map i).type == 7) && ltb best.1 (u64 ((map i).num_pages * 4096))
        then ((map i).phys_addr, u64 ((map i).num_pages * 4096))
        else best) in
    elim (Bool-cases (i == k)) [
      | inl same ↦
          let grows = largest_segment-grows map left (i + 1) next in
          first_one next grows same (ground arith)
      | inr other ↦ largest_segment-largest map left (i + 1) next k (ground arith) (omega arith) c
    ]
  where
    first_one :
        (next : ℕ × ℕ)
        → next.1 ≤ (largest_segment left (i + 1) map next).1
        → (i == k) ≡ true
        → (map i).num_pages * 4096 % 2 ^ 64 ≤ next.1
        → (map k).num_pages * 4096 % 2 ^ 64 ≤ (largest_segment left (i + 1) map next).1
    first_one next grows same le =
        let e : i ≡ k = ground arith in rw (← e) (omega (arith, le, grows))

module _ (ram : ℕ → ℕ) (map : Descriptors) (map_size desc_size : ℕ) (b : Boot) where
  abbrev pub entries : ℕ
  entries = map_size / desc_size

  abbrev pub segment : ℕ
  segment = (largest_segment entries 0 map (0, 0)).0

  abbrev pub total : ℕ
  total = get_memory_size b.memory_size_bytes map entries

  abbrev pub bitmap_size : ℕ
  bitmap_size = total / 4096 / 8 + 1

  -- The caller's side: a map with entries, none of which runs over the end of the address space, less
  -- than 2 ^ 60 bytes in all, a conventional segment that is not at 0 and has room for the bitmap, and an
  -- allocator that nothing has used.
  pub record IsBootable : Type 0 where
    pub first_call : b.initialized ≡ false
    pub some_entries : (0 < desc_size) × (desc_size ≤ map_size)
    pub fits : Fits map
    pub small : total < 2 ^ 60
    pub segment_found : segment ≢ 0
    pub segment_room : segment + (bitmap_size + 1) * page_size ≤ 2 ^ 63
    pub unused : b.frames.used_memory ≡ 0
    pub unreserved : b.frames.reserved_memory ≡ 0
    pub from_start : b.frames.page_bitmap_index ≡ 0
    pub next_clear : Bitmap.get (init_bitmap ram bitmap_size segment) (bitmap_size * 8) ≡ false

  -- The place of the bitmap is a conventional segment, and no conventional segment is larger, by its size
  -- in bytes as 64 bits hold it.
  pub record IsLargestConventional : Type 0 where
    pub index : ℕ
    pub in_map : index < entries
    pub conventional : (map index).type ≡ 7
    pub place : segment ≡ (map index).phys_addr
    pub largest :
        (k : ℕ)
        → k < entries
        → (map k).type ≡ 7
        → (map k).num_pages * 4096 % 2 ^ 64 ≤ (map index).num_pages * 4096 % 2 ^ 64

  pub record Started (result : Result Boot) : Type 0 where
    pub state : Boot
    pub returns : result ≡ ok state
    pub bitmap_place : state.buffer_address ≡ segment
    pub largest : IsLargestConventional
    pub initialized : state.initialized ≡ true
    pub books : IsConsistent state.frames
    pub pages :
        (j : ℕ)
        → j < bitmap_size * 8
        → is_set state.frames j ≡ held map entries segment bitmap_size total j

  -- The first call of `ReadEFIMemoryMap`, on a map that the allocator can start from, where the top bit of
  -- the byte of memory behind the bitmap is clear, returns. The bitmap then lies at the start of a
  -- conventional segment, and no conventional segment is larger. The books are in order. A page that the
  -- bitmap has a bit for is taken exactly if it lies below 1 MiB, or in the run of pages that is locked
  -- for the bitmap, or in no conventional segment with a number up to the total size over the size of a
  -- page, which is one page past the end of the memory.
  pub read_efi_memory_map-Started :
      IsBootable → Started (read_efi_memory_map ram (some map) map_size desc_size b)
  unfolding read_efi_memory_map
  read_efi_memory_map-Started h = record {
    state = record {
      initialized = true;
      memory_size_bytes = total;
      buffer_address = segment;
      frames = fill_bitmap ram map entries segment total b.frames;
    };
    returns = ground (arith, h.first_call, h.some_entries, h.segment_found);
    bitmap_place = refl;
    largest =
        is_largest (largest_segment-IsChosen map entries 0 (0, 0))
          (largest_segment-largest map entries 0 (0, 0));
    initialized = refl;
    books =
        fill_bitmap-IsConsistent ram map entries segment total b.frames h.fits h.small room h.unused
          h.unreserved h.from_start h.next_clear;
    pages = fill_bitmap-held ram map entries segment total b.frames h.fits h.small room;
  }
    where
      is_largest :
          IsChosen map 0 entries (0, 0) (largest_segment entries 0 map (0, 0))
          → ((k : ℕ)
              → 0 ≤ k
              → k < 0 + entries
              → (map k).type ≡ 7
              → (map k).num_pages * 4096 % 2 ^ 64 ≤ (largest_segment entries 0 map (0, 0)).1)
          → IsLargestConventional
      is_largest (inl e) le = absurd (h.segment_found (ap (λ (p : ℕ × ℕ). p.0) e))
      is_largest (inr (k, low, high, conventional, e)) le = record {
        index = k;
        in_map = omega arith;
        conventional = conventional;
        place = ap (λ (p : ℕ × ℕ). p.0) e;
        largest = λ l lt c. rw (← (ap (λ (p : ℕ × ℕ). p.1) e)) (le l (omega arith) (omega arith) c);
      }

      room : segment + (total / 4096 / 8 + 2) * page_size ≤ 2 ^ 63
      room = omega (arith, h.segment_room)
