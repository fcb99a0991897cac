-- ===== src/Paging/Manager/Leaf.antt =====
-- The last write of `MapMemory` and of `UnmapMemory`: an entry of a table of the last level.
use mates_os.Base.{
  ℕ, ◌+◌, ◌<◌, ◌≡◌, ◌≢◌, refl, ap, ◌∙◌, arith, true, false, some, List, [], ◌∷◌, length, ◌==◌, sym,
  Bool-cases, inl, inr, ◌&&◌, ==_iff, Option, if◌then◌else◌, none,
}
use mates_os.Paging.Entry.{present, get_flag}
use mates_os.Paging.Source.{Source}
use mates_os.Paging.Manager.{Memory, entry, table_of, set_entry, walk_memory}
use mates_os.Paging.Manager.Tree.{
  IsTree, Labels, follow, follow-absent, follow-present, entry-set_entry,
}
use mates_os.Paging.Manager.Descend.{AllIndices, depth_of, zero_null}
use mates_os.Paging.Indexer.{Indexer, indexer}

-- The way to a table, with the indices of a list added to it.
abbrev pub onto : List ℕ → List ℕ → List ℕ
onto [] k = k
onto (i ∷ l) k = onto l (i ∷ k)

abbrev pub indices : Indexer → List ℕ
indices x = x.pdp_i ∷ x.pd_i ∷ x.pt_i ∷ x.p_i ∷ []

-- The entry of the last level that the processor reads for an address: 0 where it meets a table that is
-- not present.
abbrev pub page_entry : ℕ → ℕ → Memory → ℕ
page_entry pml4 v m = follow m pml4 (indices (indexer v))

-- The page that the processor finds for an address: `none` is a page fault, where one of the four entries
-- is not present.
abbrev pub translate : ℕ → ℕ → Memory → Option ℕ
translate pml4 v m =
    if get_flag (page_entry pml4 v m) present then some (table_of (page_entry pml4 v m)) else none

-- `WalkMemory` gives the address of that entry.
pub walk-follow : (m : Memory) (pml4 v : ℕ) → walk_memory pml4 v m ≡ table_of (page_entry pml4 v m)
unfolding walk_memory follow
walk-follow m pml4 v =
    let e1 = entry m pml4 (indexer v).pdp_i in
    let e2 = entry m (table_of e1) (indexer v).pd_i in
    let e3 = entry m (table_of e2) (indexer v).pt_i in
    elim (Bool-cases (get_flag e1 present)) [
      | inr a1 ↦ rw a1 (sym zero_null)
      | inl p1 ↦ elim (Bool-cases (get_flag e2 present)) [
        | inr a2 ↦ rw (p1, a2) (sym zero_null)
        | inl p2 ↦ elim (Bool-cases (get_flag e3 present)) [
          | inr a3 ↦ rw (p1, p2, a3) (sym zero_null)
          | inl p3 ↦ rw (p1, p2, p3)
        ]
      ]
    ]

module _ (source : Source) (pml4 : ℕ) (label : Labels) (m : Memory) (s : source.State)
    (t : IsTree source pml4 label m s) (table index value : ℕ) (n : List ℕ)
    (here : label table ≡ some n) (depth : length n ≡ 3) (small : index < 512) where
  abbrev m' : Memory
  m' = set_entry m table index value

  -- Tables above the last level are as they were.
  pub entry_above :
      (a i : ℕ) (k : List ℕ)
      → label a ≡ some k
      → length k < 3
      → i < 512
      → entry m' a i ≡ entry m a i
  entry_above a i k h d p =
      entry-set_entry m table index value a i (t.aligned table n here) (t.aligned a k h) small p
      ∙ rw (apart a k h d)
    where
      apart : (a : ℕ) (k : List ℕ) → label a ≡ some k → length k < 3 → (table == a) ≡ false
      apart a k h d = elim (Bool-cases (table == a)) [
        | inl same ↦
            absurd
              (omega (arith, ap depth_of (sym here ∙ (ap label ((==_iff table a).0 same) ∙ h))))
        | inr other ↦ other
      ]

  pub leaf-IsTree : IsTree source pml4 label m' s
  leaf-IsTree = record {
    root = t.root;
    aligned = t.aligned;
    in_range = t.in_range;
    in_use = t.in_use;
    child = λ a k i h d p q.
        let e = entry_above a i k h d p in
        ap (λ x. label (table_of x)) e
        ∙ t.child a k i h d p (sym (ap (λ x. get_flag x present) e) ∙ q);
  }

  -- Every other way through the tables leads where it led.
  pub leaf-follows :
      (l : List ℕ) (a : ℕ) (k : List ℕ)
      → label a ≡ some k
      → length k + length l ≡ 4
      → AllIndices l
      → onto l k ≢ index ∷ n
      → follow m' a l ≡ follow m a l
  unfolding follow
  leaf-follows [] a k h e q ne = refl
  leaf-follows (i ∷ []) a k h e q ne = elim (Bool-cases ((table == a) && (index == i))) [
    | inl hit ↦ absurd (ne (same_way a i k h hit))
    | inr miss ↦
        entry-set_entry m table index value a i (t.aligned table n here) (t.aligned a k h) small q.0
        ∙ rw miss
  ]
    where
      same_way :
          (a i : ℕ) (k : List ℕ)
          → label a ≡ some k
          → ((table == a) && (index == i)) ≡ true
          → i ∷ k ≡ index ∷ n
      same_way a i k h hit = ground (arith, ap label (same_table a i hit))
        where
          same_table : (a i : ℕ) → ((table == a) && (index == i)) ≡ true → table ≡ a
          same_table a i hit = ground arith
  leaf-follows (i ∷ j ∷ l) a k h e q ne =
      let above = entry_above a i k h (omega arith) q.0 in
      elim (Bool-cases (get_flag (entry m a i) present)) [
        | inl p ↦
            follow-present m' a i j l (ap (λ x. get_flag x present) above ∙ p)
            ∙ (ap (λ x. follow m' (table_of x) (j ∷ l)) above
                ∙ (leaf-follows (j ∷ l) (table_of (entry m a i)) (i ∷ k)
                      (t.child a k i h (omega arith) q.0 p) (omega arith) q.1 ne
                    ∙ sym (follow-present m a i j l p)))
        | inr p ↦
            follow-absent m' a i j l (ap (λ x. get_flag x present) above ∙ p)
            ∙ sym (follow-absent m a i j l p)
      ]
