-- ===== src/Heap/Sequences.antt =====
-- What the callers of `malloc` and `free` of kernel/src/memory_management/heap.cpp hold, at the end of a
-- sequence of calls, of which the last may find no page.
use mates_os.Base.{some, ℕ, List, ◌≡◌, ◌<◌, ◌*◌, ◌+◌, ◌^◌}
use mates_os.Paging.Source.{Source}
use mates_os.Heap.{malloc}
use mates_os.Heap.Segments.{Heap}
use mates_os.Heap.Held.{AreHeld, AreApart}
use mates_os.Heap.Calls.{Reaches}

module _ (source : Source) where
  -- The heap after a call of `malloc`, behind a sequence of calls, that gives NULL.
  pub data Fails : Heap source → List (ℕ × ℕ) → Type 0 where
    in_vain :
        (fuel pml4 size : ℕ) (h h' : Heap source) (held : List (ℕ × ℕ))
        → Reaches source h held
        → 0 < size
        → h.heap_end + 3 * size + 0x2100 < 2 ^ 62
        → h.heap_end + 64 < 32 * fuel
        → malloc source 3 fuel pml4 size h ≡ some (0, h')
        → Fails h' held

  -- The blocks of a heap that are held are apart.
  abbrev pub HoldsApart : Heap source → List (ℕ × ℕ) → Type 0
  HoldsApart h held =
      (blocks : List (ℕ × ℕ)) × AreHeld blocks held × AreApart h.heap_start h.heap_end blocks
