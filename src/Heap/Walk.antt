-- ===== src/Heap/Walk.antt =====
-- The search of `malloc` in kernel/src/memory_management/heap.cpp from a header to the end of the heap.
use mathlib.Core.Path.{ap₂}
use mates_os.Base.{
  zero, suc, refl, inl, inr, ℕ, List, ◌∷◌, ◌≡◌, ◌≤◌, true, ◌<◌, ◌+◌, ◌^◌, ◌⊎◌, [], if◌then◌else◌,
  u64, ◌==◌, false, arith, ap, length, Bool-cases, ◌∙◌, ltb, sub64, ge→ltb, leb, ltb→lt, sym,
  ltb→ge, ne→==, eq→==,
}
use mates_os.Paging.Source.{Source}
use mates_os.Heap.{search_loop, found, header_size, missing, split, Search, take_segment}
use mates_os.Heap.Segments.{Heap, header_size, split, Segment}
use mates_os.Heap.Chain.{Block, next_of, behind, IsChain-le, front, rest_of, header}
use mates_os.Heap.Parts.{IsPart, Keeps, marked, marked-IsPart, mark, Keeps-Keeps}
use mates_os.Heap.SplitParts.{split-IsPart, split-small}
use mates_os.Heap.Used.{Inserted, used, Inserted-cons}
use mates_os.Heap.Runs.{last_of}

-- No free block is taken for the size: each has 32 bytes and fewer than the size and a header.
abbrev pub NoRoom : ℕ → List Block → Type 0
NoRoom size [] = Unit {0}
NoRoom size (b ∷ bs) = (b.is_free ≡ true → (32 ≤ b.size) × (b.size < size + 32)) × NoRoom size bs

module _ (source : Source) where
  -- The chain from `a` on after a block was taken: one more is in use, at `address`, and it has the
  -- size, or had fewer than 32 bytes.
  pub record IsTaken (h : Heap source) (last a : ℕ) (bs : List Block) (size address : ℕ)
      (h' : Heap source) : Type 0 where
    pub blocks : List Block
    pub part : IsPart source h' last a blocks
    pub head : next_of a blocks ≡ a
    pub keeps : Keeps source a h h'
    pub taken : ℕ
    pub placed : Inserted (address, taken) (used a bs) (used a blocks)
    pub enough : (size ≤ taken) ⊎ (taken < 32)

  whole-IsTaken :
      (h : Heap source) (last a size : ℕ) (b : Block) (bs : List Block)
      → b.is_free ≡ true
      → (size ≤ b.size) ⊎ (b.size < 32)
      → IsPart source h last a (b ∷ bs)
      → IsTaken h last a (b ∷ bs) size (u64 (a + header_size)) (marked source a false h)
  whole-IsTaken h last a size b bs free fit p =
      let (part, keeps) = marked-IsPart source h last a false b bs p in
      let up = IsChain-le h.segments h.heap_end a (behind a b) bs p.chain.1 in
      let place : a + header_size ≡ u64 (a + header_size) = omega (arith, p.fits) in
      record {
        blocks = mark source false b ∷ bs;
        part = part;
        head = refl;
        keeps = keeps;
        taken = b.size;
        placed = (
          [],
          used (behind a b) bs,
          rw free refl,
          ap (λ (n : ℕ). (n, b.size) ∷ used (behind a b) bs) place,
        );
        enough = fit;
      }

  front-IsTaken :
      (h : Heap source) (last a size : ℕ) (b : Block) (bs : List Block)
      → b.is_free ≡ true
      → 16 ≤ size
      → size + 48 ≤ b.size
      → IsPart source h last a (b ∷ bs)
      → IsTaken h last a
          (b ∷ bs)
          size
          (u64 (a + header_size))
          (marked source a false (split source a size h).1)
  front-IsTaken h last a size b bs free low high p =
      let (q, k) = split-IsPart source h last a size b bs low high p in
      let (part, keeps) =
        marked-IsPart source (split source a size h).1 last a false (front size b)
          (rest_of size b ∷ bs) q in
      let up = IsChain-le h.segments h.heap_end a (behind a b) bs p.chain.1 in
      let place : a + header_size ≡ u64 (a + header_size) = omega (arith, p.fits) in
      let past : behind (a + header_size + size) (rest_of size b) ≡ behind a b = omega arith in
      record {
        blocks = mark source false (front size b) ∷ rest_of size b ∷ bs;
        part = part;
        head = refl;
        keeps = Keeps-Keeps source k keeps;
        taken = size;
        placed = (
          [],
          used (behind a b) bs,
          rw free refl,
          rw (free) (
              ap₂ (λ (n : ℕ) (l : List (ℕ × ℕ)). (n, size) ∷ l) place
                (ap (λ (n : ℕ). used n bs) past)),
        );
        enough = inl (omega arith);
      }

  -- What the loop does at a free block that it takes, and at one that it passes.
  head-IsTaken :
      (fuel : ℕ) (h : Heap source) (last a size : ℕ) (b : Block) (bs : List Block)
      → b.is_free ≡ true
      → 16 ≤ size
      → size < 2 ^ 62
      → (b.size < 32) ⊎ (size + 32 ≤ b.size)
      → IsPart source h last a (b ∷ bs)
      → (address : ℕ) × (h' : Heap source) × (search_loop source (suc fuel) a size h
          ≡ found address h')
        × IsTaken h last a (b ∷ bs) size address h'
  unfolding search_loop
  head-IsTaken fuel h last a size b bs free low top room p =
      let size_at : (h.segments a).length ≡ b.size = ap (λ (t : Segment). t.length) p.chain.0 in
      let free_at : (h.segments a).free ≡ true = ap (λ (t : Segment). t.free) p.chain.0 ∙ free in
      let up = IsChain-le h.segments h.heap_end a (behind a b) bs p.chain.1 in
      let fits = p.fits in
      let current : ℕ = sub64 (h.segments a).length header_size in
      elim (Bool-cases (ltb size current)) [
        | inl q ↦ elim (Bool-cases (leb (size + 48) b.size)) [
          | inl w ↦ (
            u64 (a + header_size),
            marked source a false (split source a size h).1,
            rw (free_at, q) refl,
            front-IsTaken h last a size b bs free low (ground arith) p,
          )
          | inr w ↦
              let e = split-small source h last a size b bs top (ground arith) p in
              (
                u64 (a + header_size),
                marked source a false h,
                rw (free_at, q) (ap (take_segment source a) e),
                whole-IsTaken h last a size b bs free (fit room) p,
              )
        ]
        | inr q ↦
            let le : current ≤ size = ltb→ge size current q in
            let same : current ≡ size = omega arith in
            let t : (current == size) ≡ true = eq→== current size same in
            (
              u64 (a + header_size),
              marked source a false h,
              rw (free_at, q, t) refl,
              whole-IsTaken h last a size b bs free (fit room) p,
            )
      ]
    where
      fit : (b.size < 32) ⊎ (size + 32 ≤ b.size) → (size ≤ b.size) ⊎ (b.size < 32)
      fit (inl x) = inr x
      fit (inr x) = inl (omega arith)

  pass-search :
      (fuel : ℕ) (h : Heap source) (last a size : ℕ) (b : Block) (bs : List Block)
      → 16 ≤ size
      → size < 2 ^ 62
      → (b.is_free ≡ true → (32 ≤ b.size) × (b.size < size + 32))
      → IsPart source h last a (b ∷ bs)
      → search_loop source (suc fuel) a size h ≡ (
          if next_of (behind a b) bs == 0
          then missing h
          else search_loop source fuel (next_of (behind a b) bs) size h)
  unfolding search_loop
  pass-search fuel h last a size b bs low top small p =
      let size_at : (h.segments a).length ≡ b.size = ap (λ (t : Segment). t.length) p.chain.0 in
      let next_at : (h.segments a).next ≡ next_of (behind a b) bs =
        ap (λ (t : Segment). t.next) p.chain.0 in
      let free_at : (h.segments a).free ≡ b.is_free = ap (λ (t : Segment). t.free) p.chain.0 in
      let then_on : (if (h.segments a).next == 0
            then missing h
            else search_loop source fuel (h.segments a).next size h)
          ≡ (if next_of (behind a b) bs == 0
              then missing h
              else search_loop source fuel (next_of (behind a b) bs) size h) =
        ap (λ (n : ℕ). if n == 0 then missing h else search_loop source fuel n size h) next_at in
      let up = IsChain-le h.segments h.heap_end a (behind a b) bs p.chain.1 in
      let fits = p.fits in
      elim (Bool-cases b.is_free) [
        | inr f ↦ let e : (h.segments a).free ≡ false = free_at ∙ f in rw e then_on
        | inl f ↦
            let e : (h.segments a).free ≡ true = free_at ∙ f in
            let (x, y) = small f in
            let t1 : ltb size (sub64 (h.segments a).length header_size) ≡ false =
              ge→ltb _ _ (omega arith) in
            let t2 : (sub64 (h.segments a).length header_size == size) ≡ false =
              ne→== _ _ (λ q. omega arith) in
            rw (e, t1, t2) then_on
      ]

  -- The result of the search from a header on.
  abbrev pub Outcome : Heap source → ℕ → ℕ → List Block → ℕ → Search source → Type 0
  Outcome h last a bs size r =
      ((r ≡ missing h) × NoRoom size bs)
      ⊎ ((address : ℕ) × (h' : Heap source) × (r ≡ found address h')
          × IsTaken h last a bs size address h')

  -- A block that was taken behind a block that is passed.
  behind-IsTaken :
      (h h' : Heap source) (last a size address : ℕ) (b : Block) (c : Block) (cs : List Block)
      → IsPart source h last a (b ∷ c ∷ cs)
      → IsTaken h a (behind a b) (c ∷ cs) size address h'
      → IsTaken h last a (b ∷ c ∷ cs) size address h'
  behind-IsTaken h h' last a size address b c cs p t =
      let k = t.keeps in
      let at : h'.segments a ≡ h.segments a = k.below a p.positive (omega arith) in
      let (e, rest) = p.chain in
      record {
        blocks = b ∷ t.blocks;
        part = record {
          positive = p.positive;
          fits = t.part.fits;
          chain = (at ∙ e ∙ ap (λ (n : ℕ). header a last n b) (sym t.head), t.part.chain);
          ends = t.part.ends ∙ last_of-cons a b t.blocks t.head p.positive;
        };
        head = refl;
        keeps = record {
          below = λ i x y. k.below i x (omega arith);
          same_start = k.same_start;
          same_end = k.same_end;
        };
        taken = t.taken;
        placed = elim (Bool-cases b.is_free) [
          | inl f ↦ rw f t.placed
          | inr f ↦ rw f (
              Inserted-cons (address, t.taken) (a + header_size, b.size)
                (used (behind a b) (c ∷ cs)) (used (behind a b) t.blocks) t.placed)
        ];
        enough = t.enough;
      }
    where
      last_of-cons :
          (a : ℕ) (b : Block) (bs : List Block)
          → next_of (behind a b) bs ≡ behind a b
          → 0 < a
          → last_of (behind a b) bs ≡ last_of a (b ∷ bs)
      last_of-cons a b [] e q = absurd (omega arith)
      last_of-cons a b (c ∷ bs) e q = refl

  -- The search visits every header: with fuel for one more than the blocks behind, it ends.
  pub search_loop-Outcome :
      (fuel : ℕ) (h : Heap source) (last a size : ℕ) (b : Block) (bs : List Block)
      → length bs < fuel
      → 16 ≤ size
      → size < 2 ^ 62
      → IsPart source h last a (b ∷ bs)
      → Outcome h last a (b ∷ bs) size (search_loop source fuel a size h)
  search_loop-Outcome zero h last a size b bs q low top p = ground arith
  search_loop-Outcome (suc fuel) h last a size b bs q low top p = elim (room b) [
    | inl (free, fit) ↦ inr (head-IsTaken fuel h last a size b bs free low top fit p)
    | inr small ↦
        onward bs q p small (pass-search fuel h last a size b bs low top small p)
          (λ c cs r. search_loop-Outcome fuel h a (behind a b) size c cs r low top)
  ]
    where
      room :
          (b : Block)
          → ((b.is_free ≡ true) × ((b.size < 32) ⊎ (size + 32 ≤ b.size)))
            ⊎ (b.is_free ≡ true → (32 ≤ b.size) × (b.size < size + 32))
      room b = elim (Bool-cases b.is_free) [
        | inr f ↦ inr (λ e. ground arith)
        | inl f ↦ elim (Bool-cases (ltb b.size 32)) [
          | inl x ↦ inl (f, inl (ltb→lt b.size 32 x))
          | inr x ↦ elim (Bool-cases (ltb b.size (size + 32))) [
            | inl y ↦ inr (λ e. (ltb→ge b.size 32 x, ltb→lt b.size (size + 32) y))
            | inr y ↦ inl (f, inr (ltb→ge b.size (size + 32) y))
          ]
        ]
      ]

      onward :
          (bs : List Block)
          → length bs < suc fuel
          → IsPart source h last a (b ∷ bs)
          → (b.is_free ≡ true → (32 ≤ b.size) × (b.size < size + 32))
          → search_loop source (suc fuel) a size h ≡ (
              if next_of (behind a b) bs == 0
              then missing h
              else search_loop source fuel (next_of (behind a b) bs) size h)
          → ((c : Block) (cs : List Block)
              → length cs < fuel
              → IsPart source h a (behind a b) (c ∷ cs)
              → Outcome h a
                  (behind a b)
                  (c ∷ cs)
                  size
                  (search_loop source fuel (behind a b) size h))
          → Outcome h last a (b ∷ bs) size (search_loop source (suc fuel) a size h)
      onward [] q p small e ih = inl (e, (small, tt))
      onward (c ∷ cs) q p small e ih =
          let t : (behind a b == 0) ≡ false = ne→== (behind a b) 0 (λ x. omega (arith, x)) in
          let e' : search_loop source (suc fuel) a size h
              ≡ search_loop source fuel (behind a b) size h =
            e ∙ rw t refl in
          let part : IsPart source h a (behind a b) (c ∷ cs) = record {
            positive = omega arith;
            fits = p.fits;
            chain = p.chain.1;
            ends = p.ends;
          } in
          elim (ih c cs (omega arith) part) [
            | inl (x, y) ↦ inl (e' ∙ x, (small, y))
            | inr (address, h', x, y) ↦
                inr (address, h', e' ∙ x, behind-IsTaken h h' last a size address b c cs p y)
          ]
