-- ===== src/Heap/Malloc.antt =====
-- `malloc` of kernel/src/memory_management/heap.cpp on a heap whose headers form a chain.
use mates_os.Base.{
  inl, inr, zero, suc, refl, ℕ, List, ◌+◌, ◌<◌, ◌^◌, ◌≡◌, Option, ◌*◌, ◌≤◌, Bool-cases, length,
  some, sym, arith, if◌then◌else◌, ltb, ◌==◌, ◌∙◌, ◌∷◌, ◌⊎◌, [], false, ◌%◌, ap, u64, ◌-◌, ltb→lt,
}
use mates_os.Paging.Source.{Source}
use mates_os.Heap.{malloc, round_size, search_loop, found, missing, expand_heap, round_up}
use mates_os.Heap.Segments.{Heap}
use mates_os.Heap.Chain.{Block, IsChain-start}
use mates_os.Heap.Merge.{IsHeap}
use mates_os.Heap.Used.{Inserted, used}
use mates_os.Heap.Walk.{NoRoom, IsTaken, search_loop-Outcome}
use mates_os.Heap.Expand.{IsExpanded, IsShort, round_up-props, expand_heap-cases}
use mates_os.Heap.Runs.{tail_room, last_of}
use mates_os.Paging.Manager.{round_up}

round_size-props :
    (size : ℕ)
    → 0 < size
    → size < 2 ^ 62
    → (16 ≤ round_size size)
      × (size ≤ round_size size)
      × (round_size size < size + 16)
      × (round_size (round_size size) ≡ round_size size)
round_size-props size pos fits = elim (Bool-cases (ltb 0 (size % 0x10))) [
  | inl t ↦
      let e : ltb 0 (u64 (size - size % 0x10 + 0x10) % 0x10) ≡ false = ground arith in
      rw t (omega (arith, ltb→lt 0 (size % 0x10) t), omega arith, ground arith, rw e refl)
  | inr t ↦ rw t (ground arith, omega arith, omega arith, rw t refl)
]

NoRoom-tail_room : (size : ℕ) (bs : List Block) → NoRoom size bs → tail_room bs < size + 64
NoRoom-tail_room size [] n = omega arith
NoRoom-tail_room size (b ∷ []) (f, u) = elim (Bool-cases b.is_free) [
  | inl t ↦ rw t (omega (arith, (f t).1))
  | inr t ↦ rw t (omega arith)
]
NoRoom-tail_room size (b ∷ c ∷ bs) (f, n) = NoRoom-tail_room size (c ∷ bs) n

abbrev times : ℕ → ℕ → ℕ
times zero n = 0
times (suc k) n = n + times k n

module _ (source : Source) where
  -- The heap with one more block in use, which starts at the address, and has the size or had fewer
  -- than 32 bytes.
  pub record IsAllocated (h : Heap source) (bs : List Block) (size address : ℕ) (h' : Heap source)
      : Type 0 where
    pub blocks : List Block
    pub heap : IsHeap source h' blocks
    pub taken : ℕ
    pub placed : Inserted (address, taken) (used h.heap_start bs) (used h'.heap_start blocks)
    pub enough : (size ≤ taken) ⊎ (taken < 32)

  -- A call has given a block, or NULL after `RequestPage` gave NULL.
  abbrev pub Allocation : Heap source → List Block → ℕ → Option (ℕ × Heap source) → Type 0
  Allocation h bs size r =
      ((address : ℕ) × (h' : Heap source) × (r ≡ some (address, h'))
        × IsAllocated h bs size address h')
      ⊎ ((h' : Heap source) × (r ≡ some (0, h')) × IsShort source h bs h')

  malloc-found :
      (rounds fuel pml4 size n address : ℕ) (h h' : Heap source)
      → 0 < size
      → round_size size ≡ n
      → search_loop source fuel h.heap_start n h ≡ found address h'
      → malloc source (suc rounds) fuel pml4 size h ≡ some (address, h')
  unfolding malloc
  malloc-found rounds fuel pml4 size n address h h' pos e r =
      let t : (size == 0) ≡ false = ground arith in rw (t, e, r) refl

  malloc-missing_rounded :
      (rounds fuel pml4 size : ℕ) (h : Heap source)
      → 0 < size
      → search_loop source fuel h.heap_start (round_size size) h ≡ missing h
      → malloc source (suc rounds) fuel pml4 size h ≡ (
          if (expand_heap source pml4 (round_size size) h).0
          then malloc source rounds fuel pml4
              (round_size size)
              (expand_heap source pml4 (round_size size) h).1
          else some (0, (expand_heap source pml4 (round_size size) h).1))
  unfolding malloc
  malloc-missing_rounded rounds fuel pml4 size h pos r =
      let t : (size == 0) ≡ false = ground arith in rw (t, r) refl

  malloc-missing :
      (rounds fuel pml4 size n : ℕ) (h : Heap source)
      → 0 < size
      → round_size size ≡ n
      → search_loop source fuel h.heap_start n h ≡ missing h
      → malloc source (suc rounds) fuel pml4 size h ≡ (
          if (expand_heap source pml4 n h).0
          then malloc source rounds fuel pml4 n (expand_heap source pml4 n h).1
          else some (0, (expand_heap source pml4 n h).1))
  malloc-missing rounds fuel pml4 size n h pos e r =
      rw (sym e) (malloc-missing_rounded rounds fuel pml4 size h pos (rw e r))

  Inserted-same :
      (x : ℕ × ℕ) (xs xs' ys : List (ℕ × ℕ)) → xs ≡ xs' → Inserted x xs ys → Inserted x xs' ys
  Inserted-same x xs xs' ys e (ps, qs, f, g) = (ps, qs, sym e ∙ f, g)

  -- An allocation after the heap was expanded is one of the heap before.
  expanded-Allocation :
      (h g : Heap source) (bs : List Block) (rounded size : ℕ) (r s : Option (ℕ × Heap source))
      → (x : IsExpanded source h bs rounded g) → Allocation g x.blocks size r
      → s ≡ r
      → Allocation h bs size s
  expanded-Allocation h g bs rounded size r s x (inl (address, h', e, a)) q = inl (
    address,
    h',
    q ∙ e,
    record {
      blocks = a.blocks;
      heap = a.heap;
      taken = a.taken;
      placed = Inserted-same (address, a.taken) _ _ _ x.same_used a.placed;
      enough = a.enough;
    },
  )
  expanded-Allocation h g bs rounded size r s x (inr (h', e, a)) q = inr (
    h',
    q ∙ e,
    record {
      end = a.end;
      blocks = a.blocks;
      chain = a.chain;
      same_used = a.same_used ∙ x.same_used;
      below = a.below;
      no_page = a.no_page;
    },
  )

  found-Allocation :
      (h : Heap source) (bs : List Block) (size : ℕ) (r : Option (ℕ × Heap source)) (address : ℕ)
      (h' : Heap source)
      → r ≡ some (address, h')
      → IsTaken source h 0 h.heap_start bs size address h'
      → Allocation h bs size r
  found-Allocation h bs size r address h' e t =
      let start = t.keeps.same_start in
      let p = t.part in
      inl (
        address,
        h',
        e,
        record {
          blocks = t.blocks;
          heap = record {
            positive = omega (arith, start, p.positive);
            fits = p.fits;
            chain =
                IsChain-start h'.segments h'.heap_end 0 h.heap_start h'.heap_start t.blocks
                  (sym start) p.chain;
            ends = p.ends ∙ ap (λ (n : ℕ). last_of n t.blocks) (sym start);
          };
          taken = t.taken;
          placed =
              (let (ps, qs, f, g) = t.placed in
                (ps, qs, f, ap (λ (n : ℕ). used n t.blocks) start ∙ g));
          enough = t.enough;
        },
      )

  -- What is shown of a call with `k` rounds after this one, of a size that is rounded.
  abbrev Ends : ℕ → ℕ → ℕ → ℕ → Heap source → Type 0
  Ends k fuel pml4 n h =
      (b : Block) (bs : List Block)
      → h.heap_end + n + times k (n + 0x1000) < 2 ^ 62
      → length bs + k < fuel
      → n + 64 ≤ tail_room (b ∷ bs) + times k (round_up n 0x1000)
      → IsHeap source h (b ∷ bs)
      → Allocation h (b ∷ bs) n (malloc source (suc k) fuel pml4 n h)

  expanded-Ends :
      (k fuel pml4 size n : ℕ) (h : Heap source) (b : Block) (bs : List Block)
      → 16 ≤ n
      → h.heap_end + n + times (suc k) (n + 0x1000) < 2 ^ 62
      → length bs + suc k < fuel
      → n + 64 ≤ tail_room (b ∷ bs) + times (suc k) (round_up n 0x1000)
      → IsHeap source h (b ∷ bs)
      → malloc source (suc (suc k)) fuel pml4 size h ≡ (
          if (expand_heap source pml4 n h).0
          then malloc source (suc k) fuel pml4 n (expand_heap source pml4 n h).1
          else some (0, (expand_heap source pml4 n h).1))
      → Ends k fuel pml4 n (expand_heap source pml4 n h).1
      → Allocation h (b ∷ bs) n (malloc source (suc (suc k)) fuel pml4 size h)
  expanded-Ends k fuel pml4 size n h b bs low top enough room p m ends =
      elim (expand_heap-cases source pml4 n h b bs (omega arith) (omega arith) p) [
        | inr (f, x) ↦ inr ((expand_heap source pml4 n h).1, m ∙ rw f refl, x)
        | inl (t, x) ↦
            let (low_up, high_up, exact, page) = round_up-props n (omega arith) (omega arith) in
            expanded-Allocation h (expand_heap source pml4 n h).1 (b ∷ bs) (round_up n 0x1000) n
              (malloc source (suc k) fuel pml4 n (expand_heap source pml4 n h).1)
              (malloc source (suc (suc k)) fuel pml4 size h) x
              (more x.blocks x.heap (omega (arith, x.room)) (omega (arith, x.few))
                (omega (arith, x.room)) (omega (arith, x.end)) ends)
              (m ∙ rw t refl)
      ]
    where
      more :
          (blocks : List Block)
          → IsHeap source (expand_heap source pml4 n h).1 blocks
          → 0 < tail_room blocks
          → length blocks + k < suc fuel
          → n + 64 ≤ tail_room blocks + times k (round_up n 0x1000)
          → (expand_heap source pml4 n h).1.heap_end + n + times k (n + 0x1000) < 2 ^ 62
          → Ends k fuel pml4 n (expand_heap source pml4 n h).1
          → Allocation
              (expand_heap source pml4 n h).1
              blocks
              n
              (malloc source (suc k) fuel pml4 n (expand_heap source pml4 n h).1)
      more [] heap some_room few room top ends = absurd (omega arith)
      more (c ∷ cs) heap some_room few room top ends = ends c cs top (omega arith) room heap

  malloc_rounds-Allocation :
      (k fuel pml4 size n : ℕ) (h : Heap source) (b : Block) (bs : List Block)
      → 0 < size
      → round_size size ≡ n
      → round_size n ≡ n
      → 16 ≤ n
      → h.heap_end + n + times k (n + 0x1000) < 2 ^ 62
      → length bs + k < fuel
      → n + 64 ≤ tail_room (b ∷ bs) + times k (round_up n 0x1000)
      → IsHeap source h (b ∷ bs)
      → Allocation h (b ∷ bs) n (malloc source (suc k) fuel pml4 size h)
  malloc_rounds-Allocation zero fuel pml4 size n h b bs pos e again low top enough room p =
      elim (search_loop-Outcome source fuel h 0 h.heap_start n b bs (omega arith) low (omega arith)
        p) [
          | inr (address, h', r, t) ↦
              found-Allocation h (b ∷ bs) n (malloc source 1 fuel pml4 size h) address h'
                (malloc-found 0 fuel pml4 size n address h h' pos e r) t
          | inl (r, none_fits) ↦ absurd (omega (arith, NoRoom-tail_room n (b ∷ bs) none_fits))
        ]
  malloc_rounds-Allocation (suc k) fuel pml4 size n h b bs pos e again low top enough room p =
      elim (search_loop-Outcome source fuel h 0 h.heap_start n b bs (omega arith) low (omega arith)
        p) [
          | inr (address, h', r, t) ↦
              found-Allocation h (b ∷ bs) n (malloc source (suc (suc k)) fuel pml4 size h) address
                h' (malloc-found (suc k) fuel pml4 size n address h h' pos e r) t
          | inl (r, none_fits) ↦
              expanded-Ends k fuel pml4 size n h b bs low top enough room p
                (malloc-missing (suc k) fuel pml4 size n h pos e r)
                (λ c cs x y z w.
                  malloc_rounds-Allocation k fuel pml4 n n (expand_heap source pml4 n h).1 c cs
                    (omega arith) again again low x y z w)
        ]

  -- A block that has the larger size has the smaller one.
  Allocation-le :
      (h : Heap source) (bs : List Block) (m n : ℕ) (r : Option (ℕ × Heap source))
      → m ≤ n
      → Allocation h bs n r
      → Allocation h bs m r
  Allocation-le h bs m n r le (inr x) = inr x
  Allocation-le h bs m n r le (inl (address, h', e, a)) = inl (
    address,
    h',
    e,
    record {
      blocks = a.blocks;
      heap = a.heap;
      taken = a.taken;
      placed = a.placed;
      enough = ground (arith, a.enough);
    },
  )

  -- `malloc` of at least one byte, in a heap whose headers form a chain, with room behind it in the
  -- addresses, three rounds and fuel for two more headers than there are: it ends. Either it gives a
  -- block that was not in use, puts it among those in use and leaves all others, in a heap that is
  -- again a chain, and the block has at least the bytes that were asked for, or has fewer than 32 bytes;
  -- or it gives NULL, the last page that it asked the page allocator for was NULL, and the blocks in use
  -- are those of before.
  pub malloc-Allocation :
      (fuel pml4 size : ℕ) (h : Heap source) (b : Block) (bs : List Block)
      → 0 < size
      → h.heap_end + 3 * size + 0x2100 < 2 ^ 62
      → length bs + 2 < fuel
      → IsHeap source h (b ∷ bs)
      → Allocation h (b ∷ bs) size (malloc source 3 fuel pml4 size h)
  malloc-Allocation fuel pml4 size h b bs pos top enough p =
      let (low, ge, lt, again) = round_size-props size pos (omega arith) in
      let (low_up, high_up, exact, page) =
        round_up-props (round_size size) (omega arith) (omega arith) in
      Allocation-le h (b ∷ bs) size (round_size size) (malloc source 3 fuel pml4 size h) ge (
        malloc_rounds-Allocation 2 fuel pml4 size (round_size size) h b bs pos refl again low
          (omega arith) enough (omega arith) p)
