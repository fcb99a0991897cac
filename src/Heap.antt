-- ===== src/Heap.antt =====
-- kernel/src/memory_management/heap.hpp and heap.cpp: the kernel heap. A segment is a header at its
-- address, 32 bytes long, and the bytes behind it; the headers form a doubly linked list.
pub mod Segments
pub mod Chain
pub mod Runs
pub mod Used
pub mod Parts
pub mod SplitParts
pub mod Walk
pub mod Merge
pub mod Free
pub mod Held
pub mod Calls
pub mod Sequences
pub mod Expand
pub mod Malloc
pub mod Laws
pub mod Split
pub mod SplitLast
use mates_os.Paging.Source.{Source}
use mates_os.Base.{
  ℕ, if◌then◌else◌, Bool, Option, Result, ltb, sub64, suc, u64, none, ok, true, ◌%◌, ◌*◌, ◌+◌, ◌==◌,
  false, not, panic, some, ◌-◌, ◌/◌, zero, ◌>>=◌,
}
use mates_os.Heap.Segments.{
  Heap, header_size, put_segment, combine_backward, split, combine_forward,
}
use mates_os.Paging.Manager.{Space, round_up, map_memory}
use mates_os.Blocks.{memset}

-- `size` rounded up to a multiple of 16.
abbrev pub round_size : ℕ → ℕ
round_size size = if ltb 0 (size % 0x10) then u64 (size - size % 0x10 + 0x10) else size

module _ (source : Source) where
  open source use {State, request_page}

  -- One pass of the loops that put a page behind the heap; false if there is none.
  unfoldable pub add_page : ℕ → ℕ → Space source → Bool × Space source
  add_page pml4 at space =
      let (page, frames) = request_page space.frames in
      let asked = record space { frames = frames } in
      if page == 0 then (false, asked) else (true, (map_memory source pml4 at page asked).1)

  -- The loop of `ExpandHeap`, `left` pages before its end.
  unfoldable pub add_pages : ℕ → ℕ → Heap source → Bool × Heap source
  add_pages zero pml4 h = (true, h)
  add_pages (suc left) pml4 h =
      let (done, space) = add_page pml4 h.heap_end h.space in
      let rest = add_pages left pml4 (record h {
        heap_end = u64 (h.heap_end + 0x1000);
        used_pages = u64 (h.used_pages + 1);
        space = space;
      }) in
      if done then rest else (false, record h { space = space })

  -- `ExpandHeap`
  unfoldable pub expand_heap : ℕ → ℕ → Heap source → Bool × Heap source
  expand_heap pml4 length h =
      let rounded = round_up length 0x1000 in
      let new_segment = h.heap_end in
      let (done, grown) = add_pages (rounded / 0x1000) pml4 h in
      let first =
        put_segment new_segment
          (record (grown.segments new_segment) { free = true; last = grown.last_hdr })
          grown.segments in
      let second =
        put_segment grown.last_hdr (record (first grown.last_hdr) { next = new_segment }) first in
      let third =
        put_segment new_segment
          (record (second new_segment) { next = 0; length = sub64 rounded header_size }) second in
      if done
      then (
        true,
        combine_backward source new_segment
            (record grown { segments = third; last_hdr = new_segment }),
      )
      else (false, grown)

  -- The end of a search of `malloc`: the address of the bytes, or no segment, or no fuel.
  pub data Search : Type 0 where
    found : ℕ → Heap source → Search
    missing : Heap source → Search
    unfinished : Search

  abbrev take_segment : ℕ → Heap source → Search
  take_segment at h =
      found (u64 (at + header_size)) (record h {
        segments = put_segment at (record (h.segments at) { free = false }) h.segments;
      })

  -- The loop of `malloc` from a segment on.
  unfoldable pub search_loop : ℕ → ℕ → ℕ → Heap source → Search
  search_loop zero at size h = unfinished
  search_loop (suc fuel) at size h =
      let segment = h.segments at in
      let current = sub64 segment.length header_size in
      let rest = search_loop fuel segment.next size h in
      let next = if segment.next == 0 then missing h else rest in
      if not segment.free
      then next
      else if ltb size current
      then take_segment at (split source at size h).1
      else if current == size
      then take_segment at h
      else next

  -- `malloc` with `rounds` calls of itself left, each of which walks at most `fuel` segments.
  unfoldable pub malloc : ℕ → ℕ → ℕ → ℕ → Heap source → Option (ℕ × Heap source)
  malloc zero fuel pml4 size h = none
  malloc (suc rounds) fuel pml4 size h =
      let rounded = round_size size in
      let again = λ (grown : Heap source). malloc rounds fuel pml4 rounded grown in
      if size == 0 then some (0, h) else elim (search_loop fuel h.heap_start rounded h) [
        | found at taken ↦ some (at, taken)
        | unfinished ↦ none
        | missing same ↦
            let (done, grown) = expand_heap pml4 rounded same in
            if done then again grown else some (0, grown)
      ]

  -- `calloc`, with the bytes of the segments.
  unfoldable pub calloc : ℕ → ℕ → ℕ → ℕ → Heap source → (ℕ → ℕ) → Option (ℕ × Heap source × (ℕ → ℕ))
  calloc rounds fuel pml4 size h bytes =
      let rounded = round_size size in
      if size == 0 then some (0, h, bytes) else elim (malloc rounds fuel pml4 rounded h) [
        | none ↦ none
        | some (mem, taken) ↦
            some (mem, taken, if mem == 0 then bytes else memset mem 0 rounded bytes)
      ]

  -- `free`
  unfoldable pub free_block : ℕ → Heap source → Heap source
  free_block address h =
      let segment = sub64 address header_size in
      let freed = record h {
        segments = put_segment segment (record (h.segments segment) { free = true }) h.segments;
      } in
      if address == 0
      then h
      else combine_backward source segment (combine_forward source segment freed)

  -- The loop of `CreateHeap`.
  unfoldable pub create_pages : ℕ → ℕ → ℕ → Heap source → Result (Heap source)
  create_pages zero pml4 pos h = ok h
  create_pages (suc left) pml4 pos h =
      let (done, space) = add_page pml4 pos h.space in
      let rest =
        create_pages left pml4 (u64 (pos + 0x1000))
          (record h { used_pages = u64 (h.used_pages + 1); space = space }) in
      if done then rest else panic "Cant request heap page"

  -- `CreateHeap`
  unfoldable pub create_heap : ℕ → ℕ → ℕ → Heap source → Result (Heap source)
  create_heap pml4 heap_address page_count h =
      let heap_length = u64 (page_count * 0x1000) in
      if not (h.heap_start == 0)
      then panic "Heap already initialized"
      else create_pages page_count pml4 heap_address h >>= λ filled. ok (record filled {
        heap_start = heap_address;
        heap_end = u64 (heap_address + heap_length);
        last_hdr = heap_address;
        segments =
            put_segment heap_address
              (record { length = sub64 heap_length header_size; next = 0; last = 0; free = true })
              filled.segments;
      })
