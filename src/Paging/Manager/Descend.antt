-- ===== src/Paging/Manager/Descend.antt =====
-- One level of `MapMemory` on a tree of tables: it links the table, keeps the tree and changes what no
-- address leads to.
use mates_os.Base.{
  none, ℕ, ◌+◌, ◌/◌, ◌≤◌, ◌<◌, ◌≡◌, ◌≢◌, refl, ap, arith, true, false, some, List, [], ◌∷◌, length,
  ◌==◌, if◌then◌else◌, ◌&&◌, inl, ◌∙◌, ◌⊎◌, Bool-cases, inr, Bool, Option, sym, ◌*◌,
}
use mates_os.Paging.Entry.{present, get_flag, get_address}
use mates_os.Paging.Source.{Source, Fresh}
use mates_os.Paging.Manager.{
  Memory, entry, table_of, Space, set_entry, clear_table, point_to, descend,
}
use mates_os.Paging.Manager.Tree.{
  IsTree, Labels, follow, entry-set_entry, entry-clear_table, point_to_lem, follow-present,
  follow-absent,
}

-- Indices of tables with 512 entries.
abbrev pub AllIndices : List ℕ → Type 0
AllIndices [] = Unit
AllIndices (i ∷ l) = (i < 512) × AllIndices l

abbrev pub add_label : Labels → ℕ → List ℕ → Labels
add_label label at n a = if at == a then some n else label a

abbrev pub depth_of : Option (List ℕ) → ℕ
depth_of none = 0
depth_of (some n) = length n

pub zero_absent : get_flag 0 present ≡ false
unfolding get_flag
zero_absent = refl

pub zero_null : table_of 0 ≡ 0
unfolding get_address
zero_null = refl

module _ (source : Source) (pml4 : ℕ) where
  open source use {State, IsGood, room}

  pub record Descended (label : Labels) (s : Space source) (table index : ℕ) (n : List ℕ)
      (below : ℕ) (s' : Space source) : Type 0 where
    pub label' : Labels
    pub tree : IsTree source pml4 label' s'.memory s'.frames
    pub good : IsGood s'.frames
    pub room_left : room s.frames ≤ room s'.frames + 1
    pub grows : (a : ℕ) (k : List ℕ) → label a ≡ some k → label' a ≡ some k
    pub labelled : label' below ≡ some (index ∷ n)
    pub linked : get_flag (entry s'.memory table index) present ≡ true
    pub points : table_of (entry s'.memory table index) ≡ below
    pub keeps :
        (a i : ℕ) (k : List ℕ)
        → label a ≡ some k
        → i < 512
        → get_flag (entry s.memory a i) present ≡ true
        → entry s'.memory a i ≡ entry s.memory a i
    pub follows :
        (l : List ℕ) (a : ℕ) (k : List ℕ)
        → label a ≡ some k
        → length k + length l ≡ 4
        → AllIndices l
        → follow s'.memory a l ≡ follow s.memory a l

  module _ (label : Labels) (s : Space source) (t : IsTree source pml4 label s.memory s.frames)
      (g : IsGood s.frames) (table index : ℕ) (n : List ℕ) (here : label table ≡ some n)
      (depth : length n < 3) (small : index < 512) where
    found :
        get_flag (entry s.memory table index) present ≡ true
        → Descended label s table index n (table_of (entry s.memory table index)) s
    found p = record {
      label' = label;
      tree = t;
      good = g;
      room_left = omega arith;
      grows = λ a k h. h;
      labelled = t.child table n index here depth small p;
      linked = p;
      points = refl;
      keeps = λ a i k h q r. refl;
      follows = λ l a k h e q. refl;
    }

    module _ (absent : get_flag (entry s.memory table index) present ≡ false) (made : ℕ)
        (frames : State) (f : Fresh State source.taken room s.frames made frames)
        (g' : IsGood frames) where
      abbrev m' : Memory
      m' =
          set_entry (clear_table s.memory made) table index
            (point_to (entry s.memory table index) made)

      -- The new page carries no label.
      unlabelled : (a : ℕ) (k : List ℕ) → label a ≡ some k → made ≢ a
      unlabelled a k h e =
          cc (f.was_free, t.in_use a k h, ap (λ (x : ℕ). source.taken s.frames (x / 4096)) e)

      -- Of the entries of labelled tables only that one changes.
      entry_old :
          (a i : ℕ) (k : List ℕ)
          → label a ≡ some k
          → i < 512
          → entry m' a i ≡ (
              if (table == a) && (index == i)
              then point_to (entry s.memory table index) made
              else entry s.memory a i)
      entry_old a i k h p = ground (
        arith,
        entry-set_entry (clear_table s.memory made) table index
            (point_to (entry s.memory table index) made) a i (t.aligned table n here)
            (t.aligned a k h) small p,
        entry-clear_table s.memory made a i f.aligned (t.aligned a k h) p,
        unlabelled a k h,
      )

      abbrev hits : ℕ → ℕ → Bool
      hits a i = (table == a) && (index == i)

      entry_hit :
          (a i : ℕ) (k : List ℕ)
          → label a ≡ some k
          → i < 512
          → hits a i ≡ true
          → entry m' a i ≡ point_to (entry s.memory table index) made
      entry_hit a i k h p hit = entry_old a i k h p ∙ rw hit

      entry_miss :
          (a i : ℕ) (k : List ℕ)
          → label a ≡ some k
          → i < 512
          → hits a i ≡ false
          → entry m' a i ≡ entry s.memory a i
      entry_miss a i k h p miss = entry_old a i k h p ∙ rw miss

      made_lem :
          (get_flag (point_to (entry s.memory table index) made) present ≡ true)
          × (table_of (point_to (entry s.memory table index) made) ≡ made)
      made_lem = point_to_lem (entry s.memory table index) made f.aligned f.in_range

      hit_label :
          (a i : ℕ) (k : List ℕ)
          → label a ≡ some k
          → hits a i ≡ true
          → some (index ∷ n) ≡ some (i ∷ k)
      hit_label a i k h hit = ground (arith, ap label (hit_table a i hit))
        where
          hit_table : (a i : ℕ) → hits a i ≡ true → table ≡ a
          hit_table a i hit = ground arith

      entry_made : (i : ℕ) → i < 512 → entry m' made i ≡ 0
      entry_made i p = ground (
        arith,
        entry-set_entry (clear_table s.memory made) table index
            (point_to (entry s.memory table index) made) made i (t.aligned table n here) f.aligned
            small p,
        entry-clear_table s.memory made made i f.aligned f.aligned p,
        unlabelled table n here,
      )

      abbrev label' : Labels
      label' = add_label label made (index ∷ n)

      grows : (a : ℕ) (k : List ℕ) → label a ≡ some k → label' a ≡ some k
      grows a k h = ground (arith, unlabelled a k h)

      made-label' : label' made ≡ some (index ∷ n)
      made-label' = ground arith

      label'-cases :
          (a : ℕ) (k : List ℕ)
          → label' a ≡ some k
          → ((made ≡ a) × (k ≡ index ∷ n)) ⊎ (label a ≡ some k)
      label'-cases a k h = elim (Bool-cases (made == a)) [
        | inl same ↦ inl (ground arith)
        | inr other ↦ inr (ground arith)
      ]

      -- The entries of the new page are not present.
      made_absent : (i : ℕ) → i < 512 → get_flag (entry m' made i) present ≡ false
      made_absent i p = ap (λ e. get_flag e present) (entry_made i p) ∙ zero_absent

      child' :
          (a : ℕ) (k : List ℕ) (i : ℕ)
          → label' a ≡ some k
          → length k < 3
          → i < 512
          → get_flag (entry m' a i) present ≡ true
          → label' (table_of (entry m' a i)) ≡ some (i ∷ k)
      child' a k i h d p q = elim (label'-cases a k h) [
        | inl (e, e') ↦ cc (made_absent i p, ap (λ x. get_flag (entry m' x i) present) e)
        | inr old ↦ elim (Bool-cases ((table == a) && (index == i))) [
          | inl hit ↦
              ap (λ x. label' (table_of x)) (entry_hit a i k old p hit)
              ∙ (ap label' made_lem.1 ∙ (made-label' ∙ hit_label a i k old hit))
          | inr miss ↦
              let e = entry_miss a i k old p miss in
              ap (λ x. label' (table_of x)) e
              ∙ grows _ _ (t.child a k i old d p (sym (ap (λ x. get_flag x present) e) ∙ q))
        ]
      ]

      tree' : IsTree source pml4 label' m' frames
      tree' = record {
        root = grows pml4 [] t.root;
        aligned = λ a k h. elim (label'-cases a k h) [
          | inl (e, e') ↦ rw (← e) f.aligned
          | inr old ↦ t.aligned a k old
        ];
        in_range = λ a k h. elim (label'-cases a k h) [
          | inl (e, e') ↦ rw (← e) f.in_range
          | inr old ↦ t.in_range a k old
        ];
        in_use = λ a k h. elim (label'-cases a k h) [
          | inl (e, e') ↦ rw (← e) (ground (arith, f.takes (made / 4096)))
          | inr old ↦ ground (arith, f.takes (a / 4096), t.in_use a k old)
        ];
        child = child';
      }

      absent_at : (a i : ℕ) → hits a i ≡ true → get_flag (entry s.memory a i) present ≡ false
      absent_at a i hit = ap (λ x. get_flag (s.memory x) present) (same_entry a i hit) ∙ absent
        where
          same_entry : (a i : ℕ) → hits a i ≡ true → a + i * 8 ≡ table + index * 8
          same_entry a i hit = ground arith

      follow_made : (i : ℕ) (l : List ℕ) → i < 512 → follow m' made (i ∷ l) ≡ 0
      unfolding follow
      follow_made i [] p = entry_made i p
      follow_made i (j ∷ l) p = rw (made_absent i p)

      follows :
          (l : List ℕ) (a : ℕ) (k : List ℕ)
          → label a ≡ some k
          → length k + length l ≡ 4
          → AllIndices l
          → follow m' a l ≡ follow s.memory a l
      unfolding follow
      follows [] a k h e q = refl
      follows (i ∷ []) a k h e q = elim (Bool-cases (hits a i)) [
        | inl hit ↦ absurd (omega (arith, ap depth_of (hit_label a i k h hit)))
        | inr miss ↦ entry_miss a i k h q.0 miss
      ]
      follows (i ∷ j ∷ l) a k h e q = elim (Bool-cases (hits a i)) [
        | inl hit ↦
            let e = entry_hit a i k h q.0 hit in
            follow-present m' a i j l (ap (λ x. get_flag x present) e ∙ made_lem.0)
            ∙ (ap (λ x. follow m' x (j ∷ l)) (ap table_of e ∙ made_lem.1)
                ∙ (follow_made j l q.1.0
                    ∙ sym (follow-absent s.memory a i j l (absent_at a i hit))))
        | inr miss ↦ elim (Bool-cases (get_flag (entry s.memory a i) present)) [
          | inl p ↦
              let miss_e = entry_miss a i k h q.0 miss in
              follow-present m' a i j l (ap (λ x. get_flag x present) miss_e ∙ p)
              ∙ (ap (λ x. follow m' (table_of x) (j ∷ l)) miss_e
                  ∙ (follows (j ∷ l) (table_of (entry s.memory a i)) (i ∷ k)
                        (t.child a k i h (omega arith) q.0 p) (omega arith) q.1
                      ∙ sym (follow-present s.memory a i j l p)))
          | inr p ↦
              follow-absent m' a i j l
                (ap (λ x. get_flag x present) (entry_miss a i k h q.0 miss) ∙ p)
              ∙ sym (follow-absent s.memory a i j l p)
        ]
      ]

      keeps :
          (a i : ℕ) (k : List ℕ)
          → label a ≡ some k
          → i < 512
          → get_flag (entry s.memory a i) present ≡ true
          → entry m' a i ≡ entry s.memory a i
      keeps a i k h p r = elim (Bool-cases (hits a i)) [
        | inl hit ↦ cc (absent_at a i hit, r)
        | inr miss ↦ entry_miss a i k h p miss
      ]

      built : Descended label s table index n made (record { memory = m'; frames = frames })
      built =
          let e = entry_hit table index n here small (ground arith) in
          record {
            label' = label';
            tree = tree';
            good = g';
            room_left = f.room_left;
            grows = grows;
            labelled = made-label';
            linked = ap (λ x. get_flag x present) e ∙ made_lem.0;
            points = ap table_of e ∙ made_lem.1;
            keeps = keeps;
            follows = follows;
          }

    -- One level of `MapMemory` links a table below the entry, and no address leads elsewhere for it.
    pub descend-Descended :
        0 < room s.frames
        → Descended label s table index n
            (descend source table index s).0
            (descend source table index s).1
    unfolding descend
    descend-Descended some_room =
        elim (Bool-cases (get_flag (entry s.memory table index) present)) [
          | inl p ↦ rw p (found p)
          | inr a ↦
              let f = source.request_fresh s.frames g some_room in
              rw a
                (built a (source.request_page s.frames).0 (source.request_page s.frames).1 f.0 f.1)
        ]
