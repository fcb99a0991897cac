-- ===== src/Acpi.antt =====
-- kernel/src/acpi/acpi.hpp and acpi.cpp, and `checksum` of kernel/src/utils/helpers.cpp: the system
use mates_os.Base.{
  ℤ, pos, negsuc, minus, is_zero, ℕ, Bool, Result, if◌then◌else◌, sub64, suc, ◌+◌, ltb, ok, u8,
  zero, ◌*◌, ◌/◌, ◌>>=◌, u32, ◌^◌, not, ◌==◌, panic,
}
use Prim.Native.String.{String}
use mates_os.Strings.{strcmp_len}
-- description tables. The memory is read by the address of the byte.
pub mod Laws
pub mod Find

-- `*(uint16_t*)address` and so on: the lowest byte first.
abbrev pub read16 : (ℕ → ℕ) → ℕ → ℕ
read16 m a = m a + m (a + 1) * 2 ^ 8

abbrev pub read32 : (ℕ → ℕ) → ℕ → ℕ
read32 m a = read16 m a + read16 m (a + 2) * 2 ^ 16

abbrev pub read64 : (ℕ → ℕ) → ℕ → ℕ
read64 m a = read32 m a + read32 m (a + 4) * 2 ^ 32

-- The size of `SDTHeader`, which is packed.
abbrev pub sdt_header_size : ℕ
sdt_header_size = 36

-- `header->Length`
abbrev pub sdt_length : (ℕ → ℕ) → ℕ → ℕ
sdt_length m header = read32 m (header + 4)

-- The passes of `for (int t = 0; t < entries; t++)` for a 64-bit value assigned to `int entries`.
abbrev pub int_passes : ℕ → ℕ
int_passes entries = if ltb (u32 entries) (2 ^ 31) then u32 entries else 0

-- The loop of `checksum`, `left` bytes before its end.
unfoldable pub checksum_loop : (ℕ → ℕ) → ℕ → ℕ → ℕ → ℕ
checksum_loop m zero addr sum = sum
checksum_loop m (suc left) addr sum = checksum_loop m left (addr + 1) (u8 (sum + m addr))

unfoldable pub checksum : (ℕ → ℕ) → ℕ → ℕ → ℕ
checksum m addr size = checksum_loop m size addr 0

-- Entry `t` of a table of tables, each `width` bytes wide.
abbrev pub table_entry : ((ℕ → ℕ) → ℕ → ℕ) → (ℕ → ℕ) → ℕ → ℕ → ℕ → ℕ
table_entry read m header width t = read m (header + sdt_header_size + t * width)

-- The number of entries, as the source computes it.
abbrev pub table_entries : (ℕ → ℕ) → ℕ → ℕ → ℕ
table_entries m header width = int_passes (sub64 (sdt_length m header) sdt_header_size / width)

-- The four bytes at the signature of a table.
abbrev pub has_signature : (ℕ → ℕ) → ℕ → (ℕ → ℕ) → Bool
has_signature m table signature = is_zero (strcmp_len 4 signature (λ i. m (table + i)) 0)

-- The search loop, `left` entries before its end; NULL is 0.
unfoldable pub find_loop : (ℕ → ℕ) → (ℕ → ℕ) → (ℕ → ℕ) → ℕ → ℕ → ℕ
find_loop m signature entry zero t = 0
find_loop m signature entry (suc left) t =
    let rest = find_loop m signature entry left (t + 1) in
    if has_signature m (entry t) signature then entry t else rest

unfoldable pub find_xsdt_table : (ℕ → ℕ) → ℕ → (ℕ → ℕ) → ℕ
find_xsdt_table m header signature =
    find_loop m signature (table_entry read64 m header 8) (table_entries m header 8) 0

unfoldable pub find_rsdt_table : (ℕ → ℕ) → ℕ → (ℕ → ℕ) → ℕ
find_rsdt_table m header signature =
    find_loop m signature (table_entry read32 m header 4) (table_entries m header 4) 0

-- What a check that did not halt returns.
pub data Checked : Type 0 where
  checked : Checked

-- The checks of one header; the messages name the table.
abbrev pub check_header : (ℕ → ℕ) → ℕ → String → String → Result Checked
check_header m header bad_sum bad_size =
    if not (checksum m header (sdt_length m header) == 0)
    then panic bad_sum
    else if ltb (sdt_length m header) sdt_header_size
    then panic bad_size
    else ok checked

-- The loop of `EnumXSDT` and `EnumRSDT`, which prints and checks.
unfoldable pub enum_loop : (ℕ → ℕ) → (ℕ → ℕ) → ℕ → ℕ → Result Checked
enum_loop m entry zero t = ok checked
enum_loop m entry (suc left) t =
    check_header m (entry t) "Failed SDT header checksum" "Impossible size of SDT header" >>= λ u.
    enum_loop m entry left (t + 1)

unfoldable pub enum_xsdt : (ℕ → ℕ) → ℕ → Result ℕ
enum_xsdt m header =
    check_header m header "Failed SDT header checksum (XSDT)" "Impossible size of SDT header (XSDT)"
    >>= λ u. enum_loop m (table_entry read64 m header 8) (table_entries m header 8) 0 >>= λ u.
        ok (table_entries m header 8)

unfoldable pub enum_rsdt : (ℕ → ℕ) → ℕ → Result ℕ
enum_rsdt m header =
    check_header m header "Failed SDT header checksum (RSDT)" "Impossible size of SDT header (RSDT)"
    >>= λ u. enum_loop m (table_entry read32 m header 4) (table_entries m header 4) 0 >>= λ u.
        ok (table_entries m header 4)
