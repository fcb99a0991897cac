-- ===== src/Acpi/Laws.antt =====
-- What kernel/src/acpi/acpi.cpp finds and accepts.
use mates_os.Acpi.{
  checksum, checksum_loop, enum_loop, String, sdt_length, suc, check_header, sdt_header_size, ok,
  u8, panic, ltb, checked, Result, enum_xsdt, enum_rsdt, table_entry, read64, table_entries, read32,
}
use mates_os.Base.{
  ℕ, suc, ◌%◌, ◌<◌, ◌≡◌, arith, ◌+◌, u8, zero, ◌≤◌, ◌⊎◌, Bool-cases, inl, inr, ◌==◌, ltb, refl,
  Result, ◌>>=◌,
}

-- The bytes from `addr` on, as a plain sum.
abbrev byte_sum : (ℕ → ℕ) → ℕ → ℕ → ℕ
byte_sum m zero addr = 0
byte_sum m (suc left) addr = m addr + byte_sum m left (addr + 1)

checksum_from :
    (m : ℕ → ℕ) (left addr sum : ℕ)
    → checksum_loop m left addr sum % 256 ≡ (sum + byte_sum m left addr) % 256
unfolding checksum_loop
checksum_from m zero addr sum = omega arith
checksum_from m (suc left) addr sum =
    omega (arith, checksum_from m left (addr + 1) (u8 (sum + m addr)))

checksum_loop-lt : (m : ℕ → ℕ) (left addr sum : ℕ) → sum < 256 → checksum_loop m left addr sum < 256
unfolding checksum_loop
checksum_loop-lt m zero addr sum h = h
checksum_loop-lt m (suc left) addr sum h =
    checksum_loop-lt m left (addr + 1) (u8 (sum + m addr)) (omega arith)

checksum_lem : (m : ℕ → ℕ) (addr size : ℕ) → checksum m addr size ≡ byte_sum m size addr % 256
unfolding checksum
checksum_lem m addr size =
    omega (arith, checksum_from m size addr 0, checksum_loop-lt m size addr 0 (omega arith))

-- The header can be trusted: the bytes of the table add up to 0, and it holds a whole header.
abbrev pub IsValid : (ℕ → ℕ) → ℕ → Type 0
IsValid m header =
    (byte_sum m (sdt_length m header) header % 256 ≡ 0) × (sdt_header_size ≤ sdt_length m header)

check_header_lem :
    (m : ℕ → ℕ) (header : ℕ) (a b : String)
    → (IsValid m header × (check_header m header a b ≡ ok checked))
      ⊎ ((IsValid m header → ⊥) × (e : String) × (check_header m header a b ≡ panic e))
check_header_lem m header a b =
    let c = checksum_lem m header (sdt_length m header) in
    elim (Bool-cases (checksum m header (sdt_length m header) == 0)) [
      | inr e ↦ inr ((λ v. ground (arith, v.0)), a, rw e refl)
      | inl e ↦ elim (Bool-cases (ltb (sdt_length m header) sdt_header_size)) [
        | inl l ↦ inr ((λ v. ground (arith, v.1)), b, rw (e, l) refl)
        | inr l ↦ inl ((ground arith, ground arith), rw (e, l) refl)
      ]
    ]

pub check_header-IsValid :
    (m : ℕ → ℕ) (header : ℕ) (a b : String)
    → IsValid m header
    → check_header m header a b ≡ ok checked
check_header-IsValid m header a b v = elim (check_header_lem m header a b) [
  | inl (w, e) ↦ e
  | inr (w, x, e) ↦ absurd (w v)
]

enum_loop_lem :
    (m : ℕ → ℕ) (entry : ℕ → ℕ) (left t : ℕ)
    → (((i : ℕ) → i < left → IsValid m (entry (t + i))) × (enum_loop m entry left t ≡ ok checked))
      ⊎ (((i : ℕ) × (i < left) × (IsValid m (entry (t + i)) → ⊥))
          × (e : String) × (enum_loop m entry left t ≡ panic e))
unfolding enum_loop
enum_loop_lem m entry zero t = inl ((λ i p. ground arith), refl)
enum_loop_lem m entry (suc left) t =
    elim (check_header_lem m (entry t) "Failed SDT header checksum"
      "Impossible size of SDT header") [
        | inr (v, e, q) ↦ inr ((0, omega arith, λ w. v (at_zero w)), e, rw q refl)
        | inl (v, q) ↦ elim (enum_loop_lem m entry left (t + 1)) [
          | inl (vs, r) ↦ inl (all v vs, rw q r)
          | inr ((i, p, n), e, r) ↦ inr ((suc i, omega arith, λ w. n (at_suc i w)), e, rw q r)
        ]
      ]
  where
    at_zero : IsValid m (entry (t + 0)) → IsValid m (entry t)
    at_zero w = let e : t + 0 ≡ t = omega arith in rw e at w

    at_suc : (i : ℕ) → IsValid m (entry (t + suc i)) → IsValid m (entry (t + 1 + i))
    at_suc i w = let e : t + suc i ≡ t + 1 + i = omega arith in rw e at w

    all :
        IsValid m (entry t)
        → ((i : ℕ) → i < left → IsValid m (entry (t + 1 + i)))
        → (i : ℕ) → i < suc left
        → IsValid m (entry (t + i))
    all v vs zero p = let e : t + 0 ≡ t = omega arith in rw e v
    all v vs (suc i) p = let e : t + suc i ≡ t + 1 + i = omega arith in rw e (vs i (omega arith))

-- One walk over a table of tables: it ends with the number of entries if the header and every
-- table it names can be trusted, and halts the machine if one cannot.
abbrev pub Enumerates : (ℕ → ℕ) → ℕ → (ℕ → ℕ) → ℕ → Result ℕ → Type 0
Enumerates m header entry n r =
    (IsValid m header × ((i : ℕ) → i < n → IsValid m (entry i)) × (r ≡ ok n))
    ⊎ ((IsValid m header → ((i : ℕ) → i < n → IsValid m (entry i)) → ⊥)
        × (e : String) × (r ≡ panic e))

-- `EnumXSDT` and `EnumRSDT` return the number of entries if the header and every table of the
-- entries have a byte sum that is a multiple of 256 and a length of at least a header; in all
-- other cases they halt the machine.
pub enum_tables-Enumerates :
    (m : ℕ → ℕ) (header : ℕ)
    → Enumerates m header
        (table_entry read64 m header 8)
        (table_entries m header 8)
        (enum_xsdt m header)
      × Enumerates m header
          (table_entry read32 m header 4)
          (table_entries m header 4)
          (enum_rsdt m header)
unfolding enum_xsdt enum_rsdt
enum_tables-Enumerates m header = (
  enumerates "Failed SDT header checksum (XSDT)" "Impossible size of SDT header (XSDT)"
      (table_entry read64 m header 8) (table_entries m header 8),
  enumerates "Failed SDT header checksum (RSDT)" "Impossible size of SDT header (RSDT)"
      (table_entry read32 m header 4) (table_entries m header 4),
)
  where
    enumerates :
        (a b : String) (entry : ℕ → ℕ) (n : ℕ)
        → Enumerates m header entry n
            (check_header m header a b >>= λ u. enum_loop m entry n 0 >>= λ u. ok n)
    enumerates a b entry n = elim (check_header_lem m header a b) [
      | inr (v, e, q) ↦ inr ((λ h t. v h), e, rw q refl)
      | inl (v, q) ↦ elim (enum_loop_lem m entry n 0) [
        | inl (vs, r) ↦ inl (v, (λ i p. here i (vs i p)), rw (q, r) refl)
        | inr ((i, p, w), e, r) ↦ inr ((λ h t. w (there i (t i p))), e, rw (q, r) refl)
      ]
    ]
      where
        here : (i : ℕ) → IsValid m (entry (0 + i)) → IsValid m (entry i)
        here i w = let e : 0 + i ≡ i = omega arith in rw e at w

        there : (i : ℕ) → IsValid m (entry i) → IsValid m (entry (0 + i))
        there i w = let e : 0 + i ≡ i = omega arith in rw e w
