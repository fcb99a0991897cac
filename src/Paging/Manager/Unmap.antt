-- ===== src/Paging/Manager/Unmap.antt =====
-- `UnmapMemory` and `RemapMemory`.
use mates_os.Base.{
  ℕ, ◌<◌, ◌≡◌, ◌≢◌, refl, ap, ◌∙◌, arith, true, false, List, [], ◌∷◌, length, sym, Bool-cases, some,
  inr, inl, ◌/◌, ◌%◌, ◌^◌, ◌≤◌, ◌*◌, ◌==◌, if◌then◌else◌, none,
}
use mates_os.Paging.Entry.{present, get_flag, clear, read_write}
use mates_os.Paging.Source.{Source}
use mates_os.Paging.Manager.{
  Memory, entry, table_of, set_entry, walk_memory, unmap_memory, Space, remap_memory, map_memory,
}
use mates_os.Paging.Manager.Tree.{IsTree, Labels, follow-absent, follow-present}
use mates_os.Paging.Manager.Descend.{AllIndices, zero_null, zero_absent}
use mates_os.Paging.Manager.Leaf.{
  indices, walk-follow, entry_above, leaf-IsTree, leaf-follows, page_entry, translate,
}
use mates_os.Paging.Manager.Map.{
  page_of, down, follow-last, same_page, indices-AllIndices, IsSpace, Mapped, map_memory-Mapped,
}
use mates_os.Paging.Indexer.{Indexer, indexer, indexer-page}
use mates_os.Paging.Entry.Laws.{get_address-field}

null_entry : (pml4 v : ℕ) (m : Memory) → page_entry pml4 v m ≡ 0 → translate pml4 v m ≡ none
null_entry pml4 v m h =
    ap (λ e. if get_flag e present then some (table_of e) else none) h ∙ rw zero_absent

module _ (source : Source) (pml4 : ℕ) where
  open source use {State, IsGood, room}

  pub record Unmapped (virtual : ℕ) (m m' : Memory) (label : Labels) (s : State) : Type 0 where
    pub tree : IsTree source pml4 label m' s
    pub untranslated : translate pml4 virtual m' ≡ none
    pub same_entry :
        (w : ℕ) → page_of w ≢ page_of virtual → page_entry pml4 w m' ≡ page_entry pml4 w m
    pub gone : walk_memory pml4 virtual m' ≡ 0
    pub kept : (w : ℕ) → page_of w ≢ page_of virtual → walk_memory pml4 w m' ≡ walk_memory pml4 w m

  module _ (virtual : ℕ) (label : Labels) (m : Memory) (s : State)
      (t : IsTree source pml4 label m s) where
    abbrev x : Indexer
    x = indexer virtual

    abbrev e1 : ℕ
    e1 = entry m pml4 x.pdp_i

    abbrev e2 : ℕ
    e2 = entry m (table_of e1) x.pd_i

    abbrev e3 : ℕ
    e3 = entry m (table_of e2) x.pt_i

    untouched : page_entry pml4 virtual m ≡ 0 → Unmapped virtual m m label s
    untouched h = record {
      tree = t;
      untranslated = null_entry pml4 virtual m h;
      same_entry = λ w ne. refl;
      gone = walk-follow m pml4 virtual ∙ (ap table_of h ∙ zero_null);
      kept = λ w ne. refl;
    }

    module _ (p1 : get_flag e1 present ≡ true) (p2 : get_flag e2 present ≡ true)
        (p3 : get_flag e3 present ≡ true) where
      abbrev small : AllIndices (indices x)
      small = indices-AllIndices source pml4 virtual

      at_1 : label (table_of e1) ≡ some (x.pdp_i ∷ [])
      at_1 = t.child pml4 [] x.pdp_i t.root (omega arith) (indexer-page virtual).0 p1

      at_2 : label (table_of e2) ≡ some (x.pd_i ∷ x.pdp_i ∷ [])
      at_2 =
          t.child (table_of e1) (x.pdp_i ∷ []) x.pd_i at_1 (omega arith) (indexer-page virtual).1 p2

      abbrev way : List ℕ
      way = x.pt_i ∷ x.pd_i ∷ x.pdp_i ∷ []

      at_3 : label (table_of e3) ≡ some way
      at_3 =
          t.child (table_of e2) (x.pd_i ∷ x.pdp_i ∷ []) x.pt_i at_2 (omega arith)
            (indexer-page virtual).2 p3

      abbrev m' : Memory
      m' = set_entry m (table_of e3) x.p_i clear

      above :
          (a i : ℕ) (k : List ℕ)
          → label a ≡ some k
          → length k < 3
          → i < 512
          → entry m' a i ≡ entry m a i
      above =
          entry_above source pml4 label m s t (table_of e3) x.p_i clear way at_3 refl
            (indexer-page virtual).3

      last : page_entry pml4 virtual m' ≡ 0
      last =
          down m' pml4 x.pdp_i x.pd_i (x.pt_i ∷ x.p_i ∷ [])
            (above pml4 x.pdp_i [] t.root (omega arith) (indexer-page virtual).0) p1 refl
          ∙ (down m' (table_of e1) x.pd_i x.pt_i (x.p_i ∷ [])
                (above (table_of e1) x.pd_i (x.pdp_i ∷ []) at_1 (omega arith)
                  (indexer-page virtual).1)
                p2 refl
              ∙ (down m' (table_of e2) x.pt_i x.p_i []
                    (above (table_of e2) x.pt_i (x.pd_i ∷ x.pdp_i ∷ []) at_2 (omega arith)
                      (indexer-page virtual).2)
                    p3 refl
                  ∙ (follow-last m' (table_of e3) x.p_i ∙ leaf)))
        where
          leaf : entry m' (table_of e3) x.p_i ≡ 0
          leaf = ground arith

      same_entry :
          (w : ℕ) → page_of w ≢ page_of virtual → page_entry pml4 w m' ≡ page_entry pml4 w m
      same_entry w ne =
          leaf-follows source pml4 label m s t (table_of e3) x.p_i clear way at_3 refl
            (indexer-page virtual).3 (indices (indexer w)) pml4 [] t.root refl
            (indices-AllIndices source pml4 w) (λ e. ne (same_page w virtual e))

      cleared : Unmapped virtual m m' label s
      cleared = record {
        tree =
            leaf-IsTree source pml4 label m s t (table_of e3) x.p_i clear way at_3 refl
              (indexer-page virtual).3;
        untranslated = null_entry pml4 virtual m' last;
        same_entry = same_entry;
        gone = walk-follow m' pml4 virtual ∙ (ap table_of last ∙ zero_null);
        kept = λ w ne.
            walk-follow m' pml4 w ∙ (ap table_of (same_entry w ne) ∙ sym (walk-follow m pml4 w));
      }

    -- `UnmapMemory` on a tree of tables: the processor then meets an entry that is not present on the way to
    -- the address, and `WalkMemory` gives NULL. For every address of another virtual page the last entry is as
    -- before, and with it what `WalkMemory` gives. The tables stay a tree.
    pub unmap_memory-Unmapped : Unmapped virtual m (unmap_memory pml4 virtual m) label s
    unfolding unmap_memory
    unmap_memory-Unmapped = elim (Bool-cases (get_flag e1 present)) [
      | inr a1 ↦ rw a1 (untouched (null_1 a1))
      | inl p1 ↦ elim (Bool-cases (get_flag e2 present)) [
        | inr a2 ↦ rw (p1, a2) (untouched (null_2 p1 a2))
        | inl p2 ↦ elim (Bool-cases (get_flag e3 present)) [
          | inr a3 ↦ rw (p1, p2, a3) (untouched (null_3 p1 p2 a3))
          | inl p3 ↦ rw (p1, p2, p3) (cleared p1 p2 p3)
        ]
      ]
    ]
      where
        null_1 : get_flag e1 present ≡ false → page_entry pml4 virtual m ≡ 0
        null_1 a1 = follow-absent m pml4 x.pdp_i x.pd_i (x.pt_i ∷ x.p_i ∷ []) a1

        null_2 :
            get_flag e1 present ≡ true → get_flag e2 present ≡ false → page_entry pml4 virtual m ≡ 0
        null_2 p1 a2 =
            follow-present m pml4 x.pdp_i x.pd_i (x.pt_i ∷ x.p_i ∷ []) p1
            ∙ follow-absent m (table_of e1) x.pd_i x.pt_i (x.p_i ∷ []) a2

        null_3 :
            get_flag e1 present ≡ true
            → get_flag e2 present ≡ true
            → get_flag e3 present ≡ false
            → page_entry pml4 virtual m ≡ 0
        null_3 p1 p2 a3 =
            follow-present m pml4 x.pdp_i x.pd_i (x.pt_i ∷ x.p_i ∷ []) p1
            ∙ (follow-present m (table_of e1) x.pd_i x.pt_i (x.p_i ∷ []) p2
                ∙ follow-absent m (table_of e2) x.pt_i x.p_i [] a3)

walk_memory_range :
    (pml4 v : ℕ) (m : Memory) → walk_memory pml4 v m / 4096 % 2 ^ 40 * 4096 ≡ walk_memory pml4 v m
unfolding walk_memory
walk_memory_range pml4 v m = ground (
  arith,
  get_address-field (
      entry m
        (table_of (
          entry m (table_of (entry m (table_of (entry m pml4 (indexer v).pdp_i)) (indexer v).pd_i))
            (indexer v).pt_i))
        (indexer v).p_i),
)

module _ (source : Source) (pml4 : ℕ) where
  open source use {State, IsGood, room}

  pub record Remapped (old new : ℕ) (s : Space source) (result : ℕ) (s' : Space source)
      : Type 0 where
    pub returned : result ≡ new
    pub space : IsSpace source pml4 s'
    pub reached : walk_memory pml4 new s'.memory ≡ walk_memory pml4 old s.memory
    pub gone : walk_memory pml4 old s'.memory ≡ 0
    pub translated : translate pml4 new s'.memory ≡ some (walk_memory pml4 old s.memory)
    pub writable : get_flag (page_entry pml4 new s'.memory) read_write ≡ true
    pub untranslated : translate pml4 old s'.memory ≡ none
    pub same_entry :
        (w : ℕ)
        → page_of w ≢ page_of old
        → page_of w ≢ page_of new
        → page_entry pml4 w s'.memory ≡ page_entry pml4 w s.memory
    pub kept :
        (w : ℕ)
        → page_of w ≢ page_of old
        → page_of w ≢ page_of new
        → walk_memory pml4 w s'.memory ≡ walk_memory pml4 w s.memory

  -- `RemapMemory` of an address that is not translated does nothing and returns NULL.
  pub remap_memory-unmapped :
      (old new : ℕ) (s : Space source)
      → walk_memory pml4 old s.memory ≡ 0
      → remap_memory source pml4 old new s ≡ (0, s)
  unfolding remap_memory
  remap_memory-unmapped old new s h = rw h

  -- `RemapMemory` of an address for which `WalkMemory` does not give NULL, to an address of another virtual
  -- page, with at least three pages left, on tables that form a tree: the processor then finds the physical
  -- page of the old address for the new one, with a last entry that allows writing, and meets an entry that
  -- is not present on the way to the old one. For every address of another virtual page the last entry is as before. What
  -- `WalkMemory` gives agrees, and the new address is returned.
  pub remap_memory-Remapped :
      (old new : ℕ) (s : Space source)
      → IsSpace source pml4 s
      → 3 ≤ room s.frames
      → page_of old ≢ page_of new
      → walk_memory pml4 old s.memory ≢ 0
      → Remapped old new s
          (remap_memory source pml4 old new s).0
          (remap_memory source pml4 old new s).1
  unfolding remap_memory
  remap_memory-Remapped old new s w rooms ne some_page = rw (test_false _ some_page) (record {
    returned = unfold map_memory in refl;
    space = mapped.space;
    reached = mapped.reached ∙ walk_memory_range pml4 old s.memory;
    gone = mapped.kept old ne ∙ without.gone;
    translated = mapped.translated ∙ ap (λ p. some p) (walk_memory_range pml4 old s.memory);
    writable = mapped.writable;
    untranslated =
        ap (λ e. if get_flag e present then some (table_of e) else none) (mapped.same_entry old ne)
        ∙ without.untranslated;
    same_entry = λ v a b. mapped.same_entry v b ∙ without.same_entry v a;
    kept = λ v a b. mapped.kept v b ∙ without.kept v a;
  })
    where
      test_false : (n : ℕ) → n ≢ 0 → (n == 0) ≡ false
      test_false n h = ground arith

      without : Unmapped source pml4 old s.memory (unmap_memory pml4 old s.memory) w.label s.frames
      without = unmap_memory-Unmapped source pml4 old w.label s.memory s.frames w.tree

      between : Space source
      between = record s { memory = unmap_memory pml4 old s.memory }

      mapped :
          Mapped source pml4 new
            (walk_memory pml4 old s.memory)
            between
            (map_memory source pml4 new (walk_memory pml4 old s.memory) between).1
      mapped =
          map_memory-Mapped source pml4 new (walk_memory pml4 old s.memory) between
            (record { label = w.label; tree = without.tree; good = w.good }) rooms
