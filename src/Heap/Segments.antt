-- ===== src/Heap/Segments.antt =====
-- kernel/src/memory_management/heap.cpp: the list of segments, and how it is split and combined.
use mates_os.Base.{ℕ, Bool, if◌then◌else◌, sub64, u64, ◌==◌, ◌+◌, ltb, not, ◌||◌, leb, ◌^◌}
use mates_os.Paging.Source.{Source}
use mates_os.Paging.Manager.{Space}

-- `HeapSegHdr`
pub record Segment : Type 0 where
  pub length : ℕ
  pub next : ℕ
  pub last : ℕ
  pub free : Bool

-- `sizeof(HeapSegHdr)`
abbrev pub header_size : ℕ
header_size = 32

-- A write of the header at an address; headers do not overlap.
abbrev pub put_segment : ℕ → Segment → (ℕ → Segment) → ℕ → Segment
put_segment at s segments a = if at == a then s else segments a

module _ (source : Source) where
  -- The globals of the file, the headers by their address, and the address space.
  pub record Heap : Type 0 where
    pub heap_start : ℕ
    pub heap_end : ℕ
    pub last_hdr : ℕ
    pub used_pages : ℕ
    pub segments : ℕ → Segment
    pub space : Space source

  -- `HeapSegHdr::Split`, and its result. The length left over is signed.
  unfoldable pub split : ℕ → ℕ → Heap → ℕ × Heap
  split this split_length h =
      let s = h.segments this in
      let left = sub64 (sub64 s.length split_length) header_size in
      let new = u64 (this + split_length + header_size) in
      let first = put_segment s.next (record (h.segments s.next) { last = new }) h.segments in
      let second =
        put_segment new (record { length = left; next = s.next; last = this; free = s.free })
          first in
      let third =
        put_segment this (record (second this) { next = new; length = split_length }) second in
      if ltb split_length 0x10
      then (0, h)
      else if ltb left 0x10 || leb (2 ^ 63) left
      then (0, h)
      else (
        new,
        record h { segments = third; last_hdr = if h.last_hdr == this then new else h.last_hdr },
      )

  -- `HeapSegHdr::CombineForward`
  unfoldable pub combine_forward : ℕ → Heap → Heap
  combine_forward this h =
      let s = h.segments this in
      let n = h.segments s.next in
      let after =
        if n.next == 0
        then h.segments
        else put_segment n.next (record (h.segments n.next) { last = this }) h.segments in
      let joined =
        put_segment this
          (record (after this) { length = u64 (s.length + n.length + header_size); next = n.next })
          after in
      if s.next == 0 then h else if not n.free then h else record h {
        segments = joined;
        last_hdr = if s.next == h.last_hdr then this else h.last_hdr;
      }

  -- `HeapSegHdr::CombineBackward`
  unfoldable pub combine_backward : ℕ → Heap → Heap
  combine_backward this h =
      let l = (h.segments this).last in
      if l == 0 then h else if (h.segments l).free then combine_forward l h else h
