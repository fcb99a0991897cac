-- ===== src/Paging/Manager/Tree.antt =====
-- The tables form a tree: no table is reached along two ways. Each is labelled with the indices that lead
-- to it, the last one first.
use mates_os.Base.{
  ℕ, ◌/◌, ◌%◌, ◌^◌, ◌<◌, ◌≡◌, true, Option, some, List, [], ◌∷◌, length, if◌then◌else◌, ◌==◌, arith,
  ◌&&◌, inl, false, ◌*◌,
}
use mates_os.Paging.Entry.{present, get_flag, set_address, set_flag, read_write}
use mates_os.Paging.Source.{Source}
use mates_os.Paging.Manager.{Memory, entry, table_of, clear_table, point_to, set_entry}
use mates_os.Paging.Entry.Laws.{get_flag-set_flag, get_address-set_flag, get_address-set_address}

-- What the processor reads: the entry behind the indices, first one first; 0, which is not present, where
-- an entry above the last is not present.
unfoldable pub follow : Memory → ℕ → List ℕ → ℕ
follow m table [] = table
follow m table (i ∷ []) = entry m table i
follow m table (i ∷ j ∷ rest) =
    let below = follow m (table_of (entry m table i)) (j ∷ rest) in
    if get_flag (entry m table i) present then below else 0

pub follow-absent :
    (m : Memory) (a i j : ℕ) (l : List ℕ)
    → get_flag (entry m a i) present ≡ false
    → follow m a (i ∷ j ∷ l) ≡ 0
unfolding follow
follow-absent m a i j l h = rw h

pub follow-present :
    (m : Memory) (a i j : ℕ) (l : List ℕ)
    → get_flag (entry m a i) present ≡ true
    → follow m a (i ∷ j ∷ l) ≡ follow m (table_of (entry m a i)) (j ∷ l)
unfolding follow
follow-present m a i j l h = rw h

abbrev pub Labels : Type 0
Labels = ℕ → Option (List ℕ)

-- A labelled address is that of a page which the allocator has handed out, and the entries of a labelled
-- table above the last level point to labelled tables.
pub record IsTree (source : Source) (pml4 : ℕ) (label : Labels) (m : Memory) (s : source.State)
    : Type 0 where
  pub root : label pml4 ≡ some []
  pub aligned : (a : ℕ) (n : List ℕ) → label a ≡ some n → a % 4096 ≡ 0
  pub in_range : (a : ℕ) (n : List ℕ) → label a ≡ some n → a < 2 ^ 52
  pub in_use : (a : ℕ) (n : List ℕ) → label a ≡ some n → source.taken s (a / 4096) ≡ true
  pub child :
      (a : ℕ) (n : List ℕ) (i : ℕ)
      → label a ≡ some n
      → length n < 3
      → i < 512
      → get_flag (entry m a i) present ≡ true
      → label (table_of (entry m a i)) ≡ some (i ∷ n)

-- Entries of different tables, or of different indices, do not overlap.
pub entry-set_entry :
    (m : Memory) (t i v t' i' : ℕ)
    → t % 4096 ≡ 0
    → t' % 4096 ≡ 0
    → i < 512
    → i' < 512
    → entry (set_entry m t i v) t' i' ≡ (if (t == t') && (i == i') then v else entry m t' i')
entry-set_entry m t i v t' i' a a' p p' = ground arith

pub entry-clear_table :
    (m : Memory) (t t' i' : ℕ)
    → t % 4096 ≡ 0
    → t' % 4096 ≡ 0
    → i' < 512
    → entry (clear_table m t) t' i' ≡ (if t == t' then 0 else entry m t' i')
entry-clear_table m t t' i' a a' p = ground arith

-- The entry that the manager writes is present and points where it should.
pub point_to_lem :
    (pde a : ℕ)
    → a % 4096 ≡ 0
    → a < 2 ^ 52
    → (get_flag (point_to pde a) present ≡ true) × (table_of (point_to pde a) ≡ a)
unfolding point_to
point_to_lem pde a aligned in_range =
    let e1 = set_address pde (a / 2 ^ 12) in
    let e2 = set_flag e1 0 true in
    (
      ground (
        arith,
        get_flag-set_flag e2 1 0 true (omega arith) (omega arith),
        get_flag-set_flag e1 0 0 true (omega arith) (omega arith),
      ),
      omega (
        arith,
        get_address-set_flag e2 1 true (omega arith) (inl (omega arith)),
        get_address-set_flag e1 0 true (omega arith) (inl (omega arith)),
        get_address-set_address pde (a / 2 ^ 12),
      ),
    )

-- The page behind the entry may be written.
pub point_to-read_write : (pde a : ℕ) → get_flag (point_to pde a) read_write ≡ true
unfolding point_to
point_to-read_write pde a =
    let e2 = set_flag (set_address pde (a / 2 ^ 12)) 0 true in
    ground (arith, get_flag-set_flag e2 1 1 true (omega arith) (omega arith))

pub point_to-present : (pde a : ℕ) → get_flag (point_to pde a) present ≡ true
unfolding point_to
point_to-present pde a =
    let e1 = set_address pde (a / 2 ^ 12) in
    let e2 = set_flag e1 0 true in
    ground (
      arith,
      get_flag-set_flag e2 1 0 true (omega arith) (omega arith),
      get_flag-set_flag e1 0 0 true (omega arith) (omega arith),
    )

pub table_of-point_to : (pde a : ℕ) → table_of (point_to pde a) ≡ a / 4096 % 2 ^ 40 * 4096
unfolding point_to
table_of-point_to pde a =
    let e1 = set_address pde (a / 2 ^ 12) in
    let e2 = set_flag e1 0 true in
    omega (
      arith,
      get_address-set_flag e2 1 true (omega arith) (inl (omega arith)),
      get_address-set_flag e1 0 true (omega arith) (inl (omega arith)),
      get_address-set_address pde (a / 2 ^ 12),
    )
