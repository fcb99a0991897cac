-- ===== src/Paging/Manager/Range.antt =====
-- The ranged `IndentityMapMemory`: every page of the range is translated to itself.
use mates_os.Base.{
  ℕ, zero, suc, ◌+◌, ◌*◌, ◌/◌, ◌^◌, ◌≤◌, ◌<◌, ◌≡◌, refl, ◌∙◌, arith, u64, ◌⊎◌, lt→ltb, Bool-cases,
  ◌==◌, inl, inr, ltb, ap, false, some, if◌then◌else◌, true, none,
}
use mates_os.Paging.Source.{Source}
use mates_os.Paging.Manager.{
  map_memory, Space, identity_map_from, identity_map_memory, round_up, indexer, get_flag, table_of,
}
use mates_os.Paging.Manager.Map.{page_of, IsSpace, map_memory-Mapped}
use mates_os.Paging.Indexer.{indexer, indexer-page}
use mates_os.Paging.Manager.Leaf.{page_entry, translate}
use mates_os.Paging.Entry.{get_flag, present, read_write}
use mates_os.Base.{sym, ◌%◌}
use mates_os.Base.{leb}

same_indices : (v w : ℕ) → page_of v ≡ page_of w → indexer v ≡ indexer w
same_indices v w h = ground (arith, indexer-page v, indexer-page w)

ltb-false : (a b : ℕ) → b ≤ a → ltb a b ≡ false
ltb-false a b h = ground arith

module _ (source : Source) (pml4 : ℕ) where
  open source use {room}

  -- The pages `first … first + n - 1` are translated to themselves, all others as before.
  pub record IdentityMapped (first n : ℕ) (s s' : Space source) : Type 0 where
    pub space : IsSpace source pml4 s'
    pub inside :
        (v : ℕ)
        → first ≤ page_of v
        → page_of v < first + n
        → (translate pml4 v s'.memory ≡ some (page_of v * 4096))
          × (get_flag (page_entry pml4 v s'.memory) read_write ≡ true)
    pub outside :
        (v : ℕ)
        → (page_of v < first) ⊎ (first + n ≤ page_of v)
        → page_entry pml4 v s'.memory ≡ page_entry pml4 v s.memory

  page_entry_same_page :
      (v w : ℕ) (s : Space source)
      → page_of v ≡ page_of w
      → page_entry pml4 v s.memory ≡ page_entry pml4 w s.memory
  page_entry_same_page v w s h = rw (same_indices v w h)

  identity_map_from-IdentityMapped :
      (n fuel ptr end : ℕ) (s : Space source)
      → n < fuel
      → IsSpace source pml4 s
      → 3 * n ≤ room s.frames
      → ptr + n * 0x1000 ≡ end
      → end ≤ 2 ^ 48
      → (s' : Space source) × (identity_map_from source fuel pml4 ptr end s ≡ some s')
        × IdentityMapped (ptr / 4096) n s s'
  unfolding identity_map_from
  identity_map_from-IdentityMapped n zero ptr end s f w r e h = absurd (omega arith)
  identity_map_from-IdentityMapped zero (suc fuel) ptr end s f w r e h = (
    s,
    rw (ltb-false ptr end (omega arith)) refl,
    record { space = w; inside = λ v p q. absurd (omega arith); outside = λ v p. refl },
  )
  identity_map_from-IdentityMapped (suc n) (suc fuel) ptr end s f w r e h =
      let one = map_memory-Mapped source pml4 ptr ptr s w (omega arith) in
      let s1 = (map_memory source pml4 ptr ptr s).1 in
      let next : u64 (ptr + 0x1000) ≡ ptr + 0x1000 = omega arith in
      let (rest_space, returns, rest) =
        identity_map_from-IdentityMapped n fuel (u64 (ptr + 0x1000)) end s1 (omega arith) one.space
          (omega (arith, one.room_left)) (omega arith) h in
      (
        rest_space,
        rw (lt→ltb ptr end (omega arith)) returns,
        record {
          space = rest.space;
          inside = λ v p q. elim (Bool-cases (page_of v == page_of ptr)) [
            | inl same ↦
                let there : page_entry pml4 v rest_space.memory ≡ page_entry pml4 ptr s1.memory =
                  rest.outside v (ground arith) ∙ page_entry_same_page v ptr s1 (ground arith) in
                (
                  ap (λ x. if get_flag x present then some (table_of x) else none) there
                      ∙ (one.translated ∙ ap (λ p. some p) (ground arith)),
                  ap (λ x. get_flag x read_write) there ∙ one.writable,
                )
            | inr other ↦ rest.inside v (ground arith) (ground arith)
          ];
          outside = λ v p. rest.outside v (ground arith) ∙ one.same_entry v (ground arith);
        },
      )

  -- The rounds that the loop may take do not matter where there are enough of them: it ends, with the same.
  identity_map_from-same :
      (n f g ptr end : ℕ) (s : Space source)
      → n < f
      → n < g
      → (end ≤ ptr) ⊎ (ptr + n * 0x1000 ≡ end)
      → end < 2 ^ 64
      → (s' : Space source) × (identity_map_from source f pml4 ptr end s ≡ some s')
        × (identity_map_from source g pml4 ptr end s ≡ some s')
  unfolding identity_map_from
  identity_map_from-same n zero g ptr end s p q e h = absurd (omega arith)
  identity_map_from-same n (suc f) zero ptr end s p q e h = absurd (omega arith)
  identity_map_from-same zero (suc f) (suc g) ptr end s p q e h =
      let t : ltb ptr end ≡ false = ltb-false ptr end (ground (arith, e)) in
      (s, rw t refl, rw t refl)
  identity_map_from-same (suc n) (suc f) (suc g) ptr end s p q e h =
      let s1 = (map_memory source pml4 ptr ptr s).1 in
      let up : (ltb ptr end ≡ true)
          → (end ≤ u64 (ptr + 0x1000)) ⊎ (u64 (ptr + 0x1000) + n * 0x1000 ≡ end) =
        λ t. inr (next e t h) in
      elim (Bool-cases (ltb ptr end)) [
        | inr t ↦ (s, rw t refl, rw t refl)
        | inl t ↦
            let (s', x, y) =
              identity_map_from-same n f g (u64 (ptr + 0x1000)) end s1 (omega arith) (omega arith)
                (up t) h in
            (s', rw t x, rw t y)
      ]
    where
      next :
          (end ≤ ptr) ⊎ (ptr + suc n * 0x1000 ≡ end)
          → ltb ptr end ≡ true
          → end < 2 ^ 64
          → u64 (ptr + 0x1000) + n * 0x1000 ≡ end
      next (inl le) t h = absurd (ground (arith, le, t))
      next (inr e) t h = elim (Bool-cases (n == 0)) [
        | inl z ↦ ground (arith, e, h, z)
        | inr z ↦ ground (arith, e, h, z)
      ]

  -- The ranged `IndentityMapMemory` ends, whatever its range.
  pub identity_map_memory-ends :
      (address size : ℕ) (s : Space source)
      → size < 2 ^ 64
      → (s' : Space source) × (identity_map_memory source pml4 address size s ≡ some s')
  unfolding identity_map_memory
  identity_map_memory-ends address size s small =
      let rounds = round_up size 0x1000 / 0x1000 in
      let end = u64 (address + round_up size 0x1000) in
      let (s', e, f) =
        identity_map_from-same rounds (rounds + 1) (rounds + 1) address end s (omega arith)
          (omega arith) (stops (round_up size 0x1000) (ground arith) (ground arith))
          (omega arith) in
      (s', e)
    where
      stops :
          (rounded : ℕ)
          → rounded < 2 ^ 64
          → rounded % 0x1000 ≡ 0
          → (u64 (address + rounded) ≤ address)
            ⊎ (address + rounded / 0x1000 * 0x1000 ≡ u64 (address + rounded))
      stops rounded p q = elim (Bool-cases (leb (u64 (address + rounded)) address)) [
        | inl t ↦ inl (ground (arith, t))
        | inr t ↦ inr (ground (arith, t))
      ]

  -- The ranged `IndentityMapMemory` of a range that ends in the lower half of the address space, with
  -- three pages left in the allocator for each page of the range, on tables that form a tree: for every page
  -- from the one of the address on, as many as the size rounded up has, the processor then finds the page
  -- itself, with a last entry that allows writing. For every other page the last entry is as before. The loop
  -- ends by its own test, and with the same in any number of rounds above the number of pages that it may
  -- take.
  pub identity_map_memory-IdentityMapped :
      (fuel address size : ℕ) (s : Space source)
      → IsSpace source pml4 s
      → 3 * (size / 4096 + 1) ≤ room s.frames
      → address + size + 4096 ≤ 2 ^ 48
      → round_up size 0x1000 / 0x1000 < fuel
      → (s' : Space source) × (identity_map_memory source pml4 address size s ≡ some s')
        × (identity_map_from source fuel pml4 address (u64 (address + round_up size 0x1000)) s
            ≡ some s')
        × IdentityMapped (address / 4096) (round_up size 0x1000 / 0x1000) s s'
  unfolding identity_map_memory
  identity_map_memory-IdentityMapped fuel address size s w r h more =
      let rounds = round_up size 0x1000 / 0x1000 in
      let end = u64 (address + round_up size 0x1000) in
      let (s', returns, mapped) =
        identity_map_from-IdentityMapped rounds (rounds + 1) address end s (omega arith) w
          (ground arith) (ground arith) (ground arith) in
      let (s'', e, f) =
        identity_map_from-same rounds fuel (rounds + 1) address end s more (omega arith)
          (inr (ground arith)) (omega arith) in
      (s', returns, e ∙ sym f ∙ returns, mapped)
