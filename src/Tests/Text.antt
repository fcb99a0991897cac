-- ===== src/Tests/Text.antt =====
-- Runs of the string library and of the description tables at concrete inputs.
use mates_os.Base.{
  List, ℕ, ℤ, arith, get_or, if◌then◌else◌, ◌<◌, ◌∷◌, ◌≡◌, [], pos, some, suc, ◌+◌, ◌==◌, ◌^◌, zero,
  ◌-◌, ◌↔◌, ◌≢◌, refl, ◌⊎◌, true,
}
use mates_os.Strings.{strcmp}
use mates_os.Strings.Hex.{
  IsHex, to_hstring64, to_hstring8, to_hstring32, to_hstring16, to_hstring-IsHex,
}
use mates_os.Acpi.{
  has_signature, table_entry, read64, table_entries, enum_xsdt, find_xsdt_table, read32, enum_rsdt,
  find_rsdt_table,
}
use mates_os.Strings.Number.{to_string, to_string_int}
use mates_os.Strings.Decimal.{IsDecimal}
use mates_os.Acpi.Find.{IsFirst, Signed, find_table-IsFirst}
use mates_os.Acpi.Laws.{Enumerates, enum_tables-Enumerates}
use mates_os.Strings.Compare.{Agree, AreLong, Ends, strcmp-Agree}
use mates_os.Strings.Laws.{to_string-IsDecimal, to_string_int-IsDecimal, IsCut}

-- A buffer that holds other text.
abbrev stale : ℕ → ℕ
stale i = 120

abbrev from_list : List ℕ → ℕ → ℕ
from_list xs i = get_or xs i 0

-- "FACP" and "FACE"
abbrev facp : ℕ → ℕ
facp = from_list (70 ∷ 65 ∷ 67 ∷ 80 ∷ [])

abbrev face : ℕ → ℕ
face = from_list (70 ∷ 65 ∷ 67 ∷ 69 ∷ [])

facp-Ends : Ends facp 0 4
facp-Ends = (refl, ends)
  where
    ends : (i : ℕ) → i < 4 → facp (0 + i) ≢ 0
    ends zero p e = ground arith
    ends (suc zero) p e = ground arith
    ends (suc (suc zero)) p e = ground arith
    ends (suc (suc (suc zero))) p e = ground arith
    ends (suc (suc (suc (suc i)))) p e = ground arith

long : AreLong facp face 0 4
long zero p = (omega arith, omega arith, omega arith, omega arith)
long (suc zero) p = (omega arith, omega arith, omega arith, omega arith)
long (suc (suc zero)) p = (omega arith, omega arith, omega arith, omega arith)
long (suc (suc (suc zero))) p = (omega arith, omega arith, omega arith, omega arith)
long (suc (suc (suc (suc i)))) p = ground arith

to_string-IsDecimal_example : (b : ℕ → ℕ) × (to_string 1205 stale ≡ some b) × IsDecimal b 0 1205
to_string-IsDecimal_example = to_string-IsDecimal 1205 stale (omega arith)

to_string_int-IsDecimal_example :
    (b : ℕ → ℕ) × (to_string_int (2 ^ 64 - 37) stale ≡ some b)
    × ((2 ^ 64 - 37 < 2 ^ 63) × IsDecimal b 0 (2 ^ 64 - 37)
        ⊎ ((2 ^ 63 < 2 ^ 64 - 37) × (b 0 ≡ 45) × IsDecimal b 1 (2 ^ 64 - (2 ^ 64 - 37))
            ⊎ (2 ^ 64 - 37 ≡ 2 ^ 63) × IsCut stale b))
to_string_int-IsDecimal_example = to_string_int-IsDecimal (2 ^ 64 - 37) stale (omega arith)

to_hstring-IsHex_example :
    IsHex (to_hstring64 255 stale) 16 255
    × IsHex (to_hstring32 255 stale) 8 255
    × IsHex (to_hstring16 255 stale) 4 255
    × IsHex (to_hstring8 255 stale) 2 255
to_hstring-IsHex_example = to_hstring-IsHex 255 stale

strcmp-Agree_example :
    (d : ℤ) × (strcmp 5 facp face 0 ≡ some d) × ((d ≡ pos 0) ↔ Agree facp face 0 4)
strcmp-Agree_example = strcmp-Agree 5 4 facp face facp-Ends (omega arith)

-- A table of one entry at 100, which is the header of a table at 0 that is all zero.
abbrev tables : ℕ → ℕ
tables a = if a == 104 then 44 else if a == 101 then 212 else 0

enum_tables-Enumerates_example :
    Enumerates tables 100
      (table_entry read64 tables 100 8)
      (table_entries tables 100 8)
      (enum_xsdt tables 100)
    × Enumerates tables 100
        (table_entry read32 tables 100 4)
        (table_entries tables 100 4)
        (enum_rsdt tables 100)
enum_tables-Enumerates_example = enum_tables-Enumerates tables 100

find_table-IsFirst_example :
    IsFirst
      (λ i. has_signature tables (table_entry read64 tables 100 8 i) facp)
      (table_entry read64 tables 100 8)
      (table_entries tables 100 8)
      (find_xsdt_table tables 100 facp)
    × IsFirst
        (λ i. has_signature tables (table_entry read32 tables 100 4 i) facp)
        (table_entry read32 tables 100 4)
        (table_entries tables 100 4)
        (find_rsdt_table tables 100 facp)
    × ((table : ℕ)
        → AreLong facp (λ i. tables (table + i)) 0 4
        → (has_signature tables table facp ≡ true) ↔ Signed tables facp table)
find_table-IsFirst_example = find_table-IsFirst tables facp 100
