-- ===== src/Acpi/Find.antt =====
-- Which tables kernel/src/acpi/acpi.cpp finds.
use mates_os.Base.{
  ℤ, pos, negsuc, is_zero, ℕ, suc, ◌<◌, ◌≡◌, arith, ◌+◌, zero, ◌⊎◌, Bool-cases, inl, inr, ◌==◌,
  refl, Bool, true, false, ap, ==_iff, ◌∙◌, sym, ◌↔◌,
}
use mates_os.Acpi.{
  suc, Bool, find_loop, has_signature, table_entry, read64, table_entries, read32, find_xsdt_table,
  find_rsdt_table, is_zero, strcmp_len,
}
use mates_os.Strings.{strcmp_len}
use mates_os.Strings.Compare.{AreLong, strcmp_len-Agree}

-- `r` is the first entry below `n` with the signature, or NULL if there is none.
abbrev pub IsFirst : (ℕ → Bool) → (ℕ → ℕ) → ℕ → ℕ → Type 0
IsFirst has entry n r =
    ((i : ℕ) × (i < n) × (r ≡ entry i) × (has i ≡ true) × ((j : ℕ) → j < i → has j ≡ false))
    ⊎ ((r ≡ 0) × ((j : ℕ) → j < n → has j ≡ false))

find_loop_lem :
    (m s : ℕ → ℕ) (entry : ℕ → ℕ) (left t : ℕ)
    → ((j : ℕ) → j < t → has_signature m (entry j) s ≡ false)
    → IsFirst (λ i. has_signature m (entry i) s) entry (t + left) (find_loop m s entry left t)
unfolding find_loop
find_loop_lem m s entry zero t h = inr (refl, λ j p. h j (omega arith))
find_loop_lem m s entry (suc left) t h = elim (Bool-cases (has_signature m (entry t) s)) [
  | inl e ↦ inl (t, omega arith, rw e refl, e, h)
  | inr e ↦
      let n : t + 1 + left ≡ t + suc left = omega arith in
      rw (e, sym n) (find_loop_lem m s entry left (t + 1) (λ j p. before e j p))
]
  where
    before :
        has_signature m (entry t) s ≡ false
        → (j : ℕ) → j < t + 1
        → has_signature m (entry j) s ≡ false
    before e j p = elim (Bool-cases (j == t)) [
      | inl q ↦ ap (λ (i : ℕ). has_signature m (entry i) s) ((==_iff j t).0 q) ∙ e
      | inr q ↦ h j (ground arith)
    ]

-- The four bytes at `table` are the signature.
abbrev pub Signed : (ℕ → ℕ) → (ℕ → ℕ) → ℕ → Type 0
Signed m s table = (i : ℕ) → i < 4 → s i ≡ m (table + i)

-- `FindXSDTTable` and `FindRSDTTable` return the first table of the entries that has the
-- signature, and NULL if none has it; where the signature and those of the tables are four bytes
-- that are not zero, a table has it exactly if its four bytes are the same.
pub find_table-IsFirst :
    (m s : ℕ → ℕ) (header : ℕ)
    → IsFirst
        (λ i. has_signature m (table_entry read64 m header 8 i) s)
        (table_entry read64 m header 8)
        (table_entries m header 8)
        (find_xsdt_table m header s)
      × IsFirst
          (λ i. has_signature m (table_entry read32 m header 4 i) s)
          (table_entry read32 m header 4)
          (table_entries m header 4)
          (find_rsdt_table m header s)
      × ((table : ℕ)
          → AreLong s (λ i. m (table + i)) 0 4
          → (has_signature m table s ≡ true) ↔ Signed m s table)
unfolding find_xsdt_table find_rsdt_table
find_table-IsFirst m s header = (
  at_start (table_entry read64 m header 8) (table_entries m header 8),
  at_start (table_entry read32 m header 4) (table_entries m header 4),
  same,
)
  where
    at_start :
        (entry : ℕ → ℕ) (n : ℕ)
        → IsFirst (λ i. has_signature m (entry i) s) entry n (find_loop m s entry n 0)
    at_start entry n =
        let e : 0 + n ≡ n = omega arith in
        rw e at (find_loop_lem m s entry n 0 (λ j p. ground arith))

    start : (table i : ℕ) → s (0 + i) ≡ m (table + (0 + i)) → s i ≡ m (table + i)
    start table i h = let e : 0 + i ≡ i = omega arith in rw e at h

    back : (table i : ℕ) → s i ≡ m (table + i) → s (0 + i) ≡ m (table + (0 + i))
    back table i h = let e : 0 + i ≡ i = omega arith in rw e h

    zero_test : (d : ℤ) → (is_zero d ≡ true) ↔ (d ≡ pos 0)
    zero_test (pos n) = ground arith
    zero_test (negsuc n) = ground arith

    same :
        (table : ℕ)
        → AreLong s (λ i. m (table + i)) 0 4
        → (has_signature m table s ≡ true) ↔ Signed m s table
    same table h =
        let (f, g) = strcmp_len-Agree 4 s (λ i. m (table + i)) h in
        let (x, y) = zero_test (strcmp_len 4 s (λ i. m (table + i)) 0) in
        ((λ e i p. start table i (f (x e) i p)), λ e. y (g (λ i p. back table i (e i p))))
