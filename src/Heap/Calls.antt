-- ===== src/Heap/Calls.antt =====
-- `CreateHeap`, and every sequence of calls of `malloc` and `free` after it, of
-- kernel/src/memory_management/heap.cpp.
use mates_os.Base.{
  inl, inr, refl, some, none, ok, panic, ℕ, List, Result, ◌≡◌, arith, ◌<◌, ◌>>=◌, sym, ◌*◌, ◌+◌, ap,
  length, ◌-◌, ◌^◌, [], true, ◌≤◌, ◌∷◌, ◌≢◌, Option, not, ◌++◌, ◌==◌, false, ◌∙◌,
}
use mates_os.Paging.Source.{Source}
use mates_os.Heap.{create_heap, malloc, free_block, create_pages}
use mates_os.Heap.Segments.{Heap, Segment}
use mates_os.Heap.Chain.{Block, IsChain, behind, IsChain-le}
use mates_os.Heap.Held.{AreHeld, AreHeld-remove, AreHeld-same}
use mates_os.Heap.Merge.{IsHeap}
use mates_os.Heap.Used.{used}
use mates_os.Heap.Free.{free_block-removes}
use mates_os.Heap.Malloc.{Allocation, malloc-Allocation, IsAllocated}
use mates_os.Heap.Laws.{put-here, segment_ext}

module _ (source : Source) where
  bind_ok :
      {h' : Heap source} (r : Result (Heap source)) (f : Heap source → Heap source)
      → (r >>= λ g. ok (f g)) ≡ ok h'
      → (g : Heap source) × (h' ≡ f g)
  bind_ok (ok g) f e = (g, sym (ap (from_ok (f g)) e))
    where
      from_ok : Heap source → Result (Heap source) → Heap source
      from_ok d (ok g) = g
      from_ok d (panic m) = d
  bind_ok (panic m) f e = absurd (ground (arith, e))

  -- `CreateHeap` that succeeds makes a heap of one free block.
  pub create_heap-IsHeap :
      (pml4 address count : ℕ) (h h' : Heap source)
      → h.heap_start ≡ 0
      → 0 < address
      → 0 < count
      → address + count * 0x1000 < 2 ^ 63
      → create_heap source pml4 address count h ≡ ok h'
      → IsHeap source h' (record { size = count * 0x1000 - 32; is_free = true } ∷ [])
        × (h'.heap_start ≡ address)
        × (h'.heap_end ≡ address + count * 0x1000)
  unfolding create_heap
  create_heap-IsHeap pml4 address count h h' start pos some_pages fits e =
      let t : not (h.heap_start == 0) ≡ false = ground arith in
      let pages = create_pages source count pml4 address h in
      let (g, same) = bind_ok pages _ (rw t at e) in
      rw same (
        record {
          positive = pos;
          fits = omega arith;
          chain = (
            put-here address _ g.segments ∙ segment_ext _ _ (omega arith) refl refl refl,
            omega arith,
          );
          ends = refl;
        },
        refl,
        omega arith,
      )

  -- The heaps that calls lead to, with the addresses that `malloc` gave and `free` was not called on, each
  -- with the number of bytes that were asked for. A call of `malloc` has fuel for all headers that there
  -- is room for.
  pub data Reaches : Heap source → List (ℕ × ℕ) → Type 0 where
    created :
        (pml4 address count : ℕ) (h h' : Heap source)
        → h.heap_start ≡ 0
        → 0 < address
        → 0 < count
        → address + count * 0x1000 < 2 ^ 62
        → create_heap source pml4 address count h ≡ ok h'
        → Reaches h' []
    taken :
        (fuel pml4 size address : ℕ) (h h' : Heap source) (held : List (ℕ × ℕ))
        → Reaches h held
        → 0 < size
        → h.heap_end + 3 * size + 0x2100 < 2 ^ 62
        → h.heap_end + 64 < 32 * fuel
        → malloc source 3 fuel pml4 size h ≡ some (address, h')
        → address ≢ 0
        → Reaches h' ((address, size) ∷ held)
    given_back :
        (address size : ℕ) (h : Heap source) (xs ys : List (ℕ × ℕ))
        → Reaches h (xs ++ (address, size) ∷ ys)
        → Reaches (free_block source address h) (xs ++ ys)
    nothing_asked :
        (fuel pml4 address : ℕ) (h h' : Heap source) (held : List (ℕ × ℕ))
        → Reaches h held
        → malloc source 3 fuel pml4 0 h ≡ some (address, h')
        → Reaches h' held
    nothing_given :
        (h : Heap source) (held : List (ℕ × ℕ))
        → Reaches h held
        → Reaches (free_block source 0 h) held

  -- What holds after every call.
  pub record IsSound (h : Heap source) (held : List (ℕ × ℕ)) : Type 0 where
    pub blocks : List Block
    pub heap : IsHeap source h blocks
    pub some_room : h.heap_start < h.heap_end
    pub are_held : AreHeld (used h.heap_start blocks) held

  pub IsChain-length :
      (s : ℕ → Segment) (end last a : ℕ) (bs : List Block)
      → IsChain s end last a bs
      → a + 32 * length bs ≤ end
  IsChain-length s end last a [] c = omega (arith, c)
  IsChain-length s end last a (b ∷ bs) (e, c) =
      omega (arith, IsChain-length s end a (behind a b) bs c)

  from_some : ℕ × Heap source → Option (ℕ × Heap source) → ℕ × Heap source
  from_some d none = d
  from_some d (some x) = x

  pub some_inj : {x y : ℕ × Heap source} → some x ≡ some y → x ≡ y
  unfolding from_some
  some_inj {x} q = ap (from_some x) q

  -- A result of `malloc` that is not NULL is a block.
  allocated :
      (h h' : Heap source) (bs : List Block) (n address : ℕ) (r : Option (ℕ × Heap source))
      → address ≢ 0
      → r ≡ some (address, h')
      → Allocation source h bs n r
      → IsAllocated source h bs n address h'
  allocated h h' bs n address r nonnull e (inr (g, q, x)) =
      absurd (nonnull (ap (λ (p : ℕ × Heap source). p.0) (some_inj (sym e ∙ q))))
  allocated h h' bs n address r nonnull e (inl (at, g, q, x)) =
      let both : (at, g) ≡ (address, h') = some_inj (sym q ∙ e) in
      rw
        (sym (ap (λ (p : ℕ × Heap source). p.0) both), sym (ap (λ (p : ℕ × Heap source). p.1) both))
        x

  malloc-IsSound :
      (fuel pml4 size address : ℕ) (h h' : Heap source) (held : List (ℕ × ℕ))
      → IsSound h held
      → 0 < size
      → h.heap_end + 3 * size + 0x2100 < 2 ^ 62
      → h.heap_end + 64 < 32 * fuel
      → malloc source 3 fuel pml4 size h ≡ some (address, h')
      → address ≢ 0
      → IsSound h' ((address, size) ∷ held)
  malloc-IsSound fuel pml4 size address h h' held sound pos top enough e nonnull =
      on sound.blocks sound.heap sound.are_held
    where
      end_of :
          (bs : List Block) (g : Heap source) (x : ℕ × ℕ) (ps qs : List (ℕ × ℕ))
          → IsHeap source g bs
          → used g.heap_start bs ≡ ps ++ x ∷ qs
          → g.heap_start < g.heap_end
      end_of [] g x [] qs p q = absurd (omega (arith, ap (λ (l : List (ℕ × ℕ)). length l) q))
      end_of [] g x (y ∷ ps) qs p q = absurd (omega (arith, ap (λ (l : List (ℕ × ℕ)). length l) q))
      end_of (b ∷ bs) g x ps qs p q = omega (
        arith,
        IsChain-le g.segments g.heap_end g.heap_start (behind g.heap_start b) bs p.chain.1,
      )

      given :
          (b : Block) (bs : List Block)
          → AreHeld (used h.heap_start (b ∷ bs)) held
          → IsAllocated source h (b ∷ bs) size address h'
          → IsSound h' ((address, size) ∷ held)
      given b bs k x =
          let (ps, qs, m, n) = x.placed in
          record {
            blocks = x.blocks;
            heap = x.heap;
            some_room = end_of x.blocks h' (address, x.taken) ps qs x.heap n;
            are_held = (x.taken, used h.heap_start (b ∷ bs), x.placed, x.enough, k);
          }

      on :
          (bs : List Block)
          → IsHeap source h bs
          → AreHeld (used h.heap_start bs) held
          → IsSound h' ((address, size) ∷ held)
      on [] p k = absurd (omega (arith, p.chain, sound.some_room))
      on (b ∷ bs) p k = given b bs k (
          allocated h h' (b ∷ bs) size address (malloc source 3 fuel pml4 size h) nonnull e (
            malloc-Allocation source fuel pml4 size h b bs pos top
              (omega (
                arith,
                IsChain-length h.segments h.heap_end 0 h.heap_start (b ∷ bs) p.chain,
                p.positive,
              ))
              p))

  malloc-nothing :
      (fuel pml4 address : ℕ) (h h' : Heap source)
      → malloc source 3 fuel pml4 0 h ≡ some (address, h')
      → h ≡ h'
  unfolding malloc
  malloc-nothing fuel pml4 address h h' e = ap (λ (p : ℕ × Heap source). p.1) (some_inj e)

  free_block-nothing : (h : Heap source) → free_block source 0 h ≡ h
  unfolding free_block
  free_block-nothing h = refl

  -- After every sequence of calls on a created heap, `malloc` of any size and `free` of any address
  -- that is held, the headers form a chain and the blocks in use are those at the addresses held.
  pub Reaches-IsSound : (h : Heap source) (held : List (ℕ × ℕ)) → Reaches h held → IsSound h held
  Reaches-IsSound h held (created pml4 address count g h' start pos some_pages fits e) =
      let (p, s, f) =
        create_heap-IsHeap pml4 address count g h start pos some_pages (omega arith) e in
      record {
        blocks = record { size = count * 0x1000 - 32; is_free = true } ∷ [];
        heap = p;
        some_room = omega (arith, s, f);
        are_held = refl;
      }
  Reaches-IsSound h held (taken fuel pml4 size address g h' rest r pos top enough e nonnull) =
      malloc-IsSound fuel pml4 size address g h rest (Reaches-IsSound g rest r) pos top enough e
        nonnull
  Reaches-IsSound h held (given_back address asked g xs ys r) =
      let sound = Reaches-IsSound g (xs ++ (address, asked) ∷ ys) r in
      let (size, ps, qs, e, k) =
        AreHeld-remove (used g.heap_start sound.blocks) xs (address, asked) ys sound.are_held in
      let (blocks, p, same, start, end) =
        free_block-removes source g sound.blocks ps qs address size sound.heap e in
      record {
        blocks = blocks;
        heap = p;
        some_room = omega (arith, start, end, sound.some_room);
        are_held =
            AreHeld-same (ps ++ qs) (used (free_block source address g).heap_start blocks)
              (xs ++ ys) (sym same) k;
      }
  Reaches-IsSound h held (nothing_asked fuel pml4 address g h' rest r e) =
      rw (← (malloc-nothing fuel pml4 address g h e)) (Reaches-IsSound g held r)
  Reaches-IsSound h held (nothing_given g rest r) =
      rw (free_block-nothing g) (Reaches-IsSound g held r)
