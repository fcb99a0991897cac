-- ===== src/Paging/Manager/Map.antt =====
-- `MapMemory` as a whole: the mapped page is reached, every other page keeps its translation, and the
-- tables stay a tree.
use mates_os.Base.{
  ℕ, ◌*◌, ◌/◌, ◌%◌, ◌^◌, ◌≤◌, ◌<◌, ◌≡◌, ◌≢◌, refl, ap, ◌∙◌, arith, true, List, [], ◌∷◌, length, sym,
  some, ◌+◌, if◌then◌else◌, none,
}
use mates_os.Paging.Entry.{present, get_flag, read_write}
use mates_os.Paging.Source.{Source}
use mates_os.Paging.Manager.{
  Memory, entry, table_of, set_entry, walk_memory, map_memory, descend, Space, point_to,
}
use mates_os.Paging.Manager.Tree.{
  IsTree, Labels, follow, follow-present, table_of-point_to, point_to-read_write, point_to-present,
}
use mates_os.Paging.Manager.Descend.{AllIndices, Descended, descend-Descended}
use mates_os.Paging.Manager.Leaf.{
  onto, indices, walk-follow, entry_above, leaf-IsTree, leaf-follows, page_entry, translate,
}
use mates_os.Paging.Indexer.{Indexer, indexer, indexer-page}

-- The number of a virtual page, as far as the tables tell pages apart.
abbrev pub page_of : ℕ → ℕ
page_of v = v / 4096 % 2 ^ 36

pub down :
    (m : Memory) (a i j : ℕ) (l : List ℕ) {e b : ℕ}
    → entry m a i ≡ e
    → get_flag e present ≡ true
    → table_of e ≡ b
    → follow m a (i ∷ j ∷ l) ≡ follow m b (j ∷ l)
down m a i j l p q r =
    follow-present m a i j l (ap (λ y. get_flag y present) p ∙ q)
    ∙ ap (λ y. follow m y (j ∷ l)) (ap table_of p ∙ r)

pub follow-last : (m : Memory) (a i : ℕ) → follow m a (i ∷ []) ≡ entry m a i
unfolding follow
follow-last m a i = refl

-- Addresses with the same indices lie in the same page.
pub same_page :
    (v w : ℕ)
    → onto (indices (indexer v)) [] ≡ onto (indices (indexer w)) []
    → page_of v ≡ page_of w
same_page v w e = ground (arith, e, indexer-page v, indexer-page w)

module _ (source : Source) (pml4 : ℕ) where
  open source use {State, IsGood, room}

  -- The space is well formed: a tree of tables over an allocator in a good state.
  pub record IsSpace (s : Space source) : Type 0 where
    pub label : Labels
    pub tree : IsTree source pml4 label s.memory s.frames
    pub good : IsGood s.frames

  -- What `MapMemory` of `virtual` to `physical` does to the translations.
  pub record Mapped (virtual physical : ℕ) (s s' : Space source) : Type 0 where
    pub space : IsSpace s'
    pub room_left : room s.frames ≤ room s'.frames + 3
    pub translated : translate pml4 virtual s'.memory ≡ some (physical / 4096 % 2 ^ 40 * 4096)
    pub writable : get_flag (page_entry pml4 virtual s'.memory) read_write ≡ true
    pub same_entry :
        (w : ℕ)
        → page_of w ≢ page_of virtual
        → page_entry pml4 w s'.memory ≡ page_entry pml4 w s.memory
    pub reached : walk_memory pml4 virtual s'.memory ≡ physical / 4096 % 2 ^ 40 * 4096
    pub kept :
        (w : ℕ)
        → page_of w ≢ page_of virtual
        → walk_memory pml4 w s'.memory ≡ walk_memory pml4 w s.memory

  pub indices-AllIndices : (v : ℕ) → AllIndices (indices (indexer v))
  indices-AllIndices v = let b = indexer-page v in (b.0, (b.1, (b.2, (b.3, tt))))

  module _ (virtual physical : ℕ) (s : Space source) (w : IsSpace s)
      (rooms : 3 ≤ room s.frames) where
    abbrev x : Indexer
    x = indexer virtual

    abbrev r1 : ℕ × Space source
    r1 = descend source pml4 x.pdp_i s

    d1 : Descended source pml4 w.label s pml4 x.pdp_i [] r1.0 r1.1
    d1 =
        descend-Descended source pml4 w.label s w.tree w.good pml4 x.pdp_i [] w.tree.root
          (omega arith) (indexer-page virtual).0 (omega arith)

    abbrev r2 : ℕ × Space source
    r2 = descend source r1.0 x.pd_i r1.1

    d2 : Descended source pml4 d1.label' r1.1 r1.0 x.pd_i (x.pdp_i ∷ []) r2.0 r2.1
    d2 =
        descend-Descended source pml4 d1.label' r1.1 d1.tree d1.good r1.0 x.pd_i (x.pdp_i ∷ [])
          d1.labelled (omega arith) (indexer-page virtual).1 (omega (arith, d1.room_left))

    abbrev r3 : ℕ × Space source
    r3 = descend source r2.0 x.pt_i r2.1

    d3 : Descended source pml4 d2.label' r2.1 r2.0 x.pt_i (x.pd_i ∷ x.pdp_i ∷ []) r3.0 r3.1
    d3 =
        descend-Descended source pml4 d2.label' r2.1 d2.tree d2.good r2.0 x.pt_i
          (x.pd_i ∷ x.pdp_i ∷ []) d2.labelled (omega arith) (indexer-page virtual).2
          (omega (arith, d1.room_left, d2.room_left))

    abbrev leaf_value : ℕ
    leaf_value = point_to (entry r3.1.memory r3.0 x.p_i) physical

    abbrev m4 : Memory
    m4 = set_entry r3.1.memory r3.0 x.p_i leaf_value

    abbrev way : List ℕ
    way = x.pt_i ∷ x.pd_i ∷ x.pdp_i ∷ []

    above :
        (a i : ℕ) (k : List ℕ)
        → d3.label' a ≡ some k
        → length k < 3
        → i < 512
        → entry m4 a i ≡ entry r3.1.memory a i
    above =
        entry_above source pml4 d3.label' r3.1.memory r3.1.frames d3.tree r3.0 x.p_i leaf_value way
          d3.labelled refl (indexer-page virtual).3

    -- The three upper entries on the way, after all writes.
    upper_1 : entry m4 pml4 x.pdp_i ≡ entry r1.1.memory pml4 x.pdp_i
    upper_1 =
        let small = (indexer-page virtual).0 in
        let once = d2.keeps pml4 x.pdp_i [] d1.tree.root small d1.linked in
        above pml4 x.pdp_i [] d3.tree.root (omega arith) small
        ∙ (d3.keeps pml4 x.pdp_i [] d2.tree.root small
              (ap (λ e. get_flag e present) once ∙ d1.linked)
            ∙ once)

    upper_2 : entry m4 r1.0 x.pd_i ≡ entry r2.1.memory r1.0 x.pd_i
    upper_2 =
        let small = (indexer-page virtual).1 in
        let known = d2.grows r1.0 (x.pdp_i ∷ []) d1.labelled in
        above r1.0 x.pd_i (x.pdp_i ∷ []) (d3.grows r1.0 (x.pdp_i ∷ []) known) (omega arith) small
        ∙ d3.keeps r1.0 x.pd_i (x.pdp_i ∷ []) known small d2.linked

    upper_3 : entry m4 r2.0 x.pt_i ≡ entry r3.1.memory r2.0 x.pt_i
    upper_3 =
        above r2.0 x.pt_i (x.pd_i ∷ x.pdp_i ∷ [])
          (d3.grows r2.0 (x.pd_i ∷ x.pdp_i ∷ []) d2.labelled) (omega arith) (indexer-page virtual).2

    leaf : entry m4 r3.0 x.p_i ≡ leaf_value
    leaf = ground arith

    last : page_entry pml4 virtual m4 ≡ leaf_value
    last =
        down m4 pml4 x.pdp_i x.pd_i (x.pt_i ∷ x.p_i ∷ []) upper_1 d1.linked d1.points
        ∙ (down m4 r1.0 x.pd_i x.pt_i (x.p_i ∷ []) upper_2 d2.linked d2.points
            ∙ (down m4 r2.0 x.pt_i x.p_i [] upper_3 d3.linked d3.points
                ∙ (follow-last m4 r3.0 x.p_i ∙ leaf)))

    abbrev before : ℕ
    before = entry r3.1.memory r3.0 x.p_i

    translated : translate pml4 virtual m4 ≡ some (physical / 4096 % 2 ^ 40 * 4096)
    translated =
        ap (λ e. if get_flag e present then some (table_of e) else none) last
        ∙ rw (point_to-present before physical, table_of-point_to before physical)

    reached : walk_memory pml4 virtual m4 ≡ physical / 4096 % 2 ^ 40 * 4096
    reached = walk-follow m4 pml4 virtual ∙ (ap table_of last ∙ table_of-point_to before physical)

    same_entry :
        (v : ℕ) → page_of v ≢ page_of virtual → page_entry pml4 v m4 ≡ page_entry pml4 v s.memory
    same_entry v ne =
        let l = indices (indexer v) in
        let small = indices-AllIndices v in
        leaf-follows source pml4 d3.label' r3.1.memory r3.1.frames d3.tree r3.0 x.p_i leaf_value way
          d3.labelled refl (indexer-page virtual).3 l pml4 [] d3.tree.root refl small
          (λ e. ne (same_page v virtual e))
        ∙ ((d3.follows l pml4 [] d2.tree.root refl small
            ∙ (d2.follows l pml4 [] d1.tree.root refl small
                ∙ d1.follows l pml4 [] w.tree.root refl small)))

    kept :
        (v : ℕ) → page_of v ≢ page_of virtual → walk_memory pml4 v m4 ≡ walk_memory pml4 v s.memory
    kept v ne =
        walk-follow m4 pml4 v ∙ (ap table_of (same_entry v ne) ∙ sym (walk-follow s.memory pml4 v))

    -- `MapMemory`, with at least three pages left in the allocator, on tables that form a tree: the processor,
    -- which follows four present entries, then finds the physical page for the address, the last entry allows
    -- writing, and `WalkMemory` gives the page too. For every address of another virtual page the last entry is as before, and
    -- with it what `WalkMemory` gives. The tables form a tree again.
    pub map_memory-Mapped : Mapped virtual physical s (map_memory source pml4 virtual physical s).1
    unfolding map_memory
    map_memory-Mapped = record {
      space = record {
        label = d3.label';
        tree =
            leaf-IsTree source pml4 d3.label' r3.1.memory r3.1.frames d3.tree r3.0 x.p_i leaf_value
              way d3.labelled refl (indexer-page virtual).3;
        good = d3.good;
      };
      room_left = omega (arith, d1.room_left, d2.room_left, d3.room_left);
      translated = translated;
      writable = ap (λ e. get_flag e read_write) last ∙ point_to-read_write before physical;
      same_entry = same_entry;
      reached = reached;
      kept = kept;
    }
