-- ===== src/Facp.antt =====
-- kernel/src/facp/facp.hpp and facp.cpp: what the firmware tells of power off and reset, and both.
pub mod Laws
use mates_os.Base.{
  List, Option, ℕ, ℤ, Bool, bit_or, if◌then◌else◌, negsuc, some, ◌+◌, bit_and, not, pos, suc, u16,
  ◌*◌, ◌-◌, ◌<<<◌, ◌==◌, none, true, zero, ◌&&◌, ◌>>>◌, ◌^◌, ◌||◌, ◌∷◌, [], ◌++◌, u32, ltb,
}
use mates_os.Acpi.{read32}

-- The fields of `ACPI::FACPHeader` that are read.
pub record FacpHeader : Type 0 where
  pub dsdt : ℕ
  pub smi_cmd : ℕ
  pub acpi_enable : ℕ
  pub acpi_disable : ℕ
  pub pm1a_cnt_blk : ℕ
  pub pm1b_cnt_blk : ℕ
  pub pm1_cnt_len : ℕ
  pub flags : ℕ
  pub reset_address_space : ℕ
  pub reset_address : ℕ
  pub reset_value : ℕ

-- The globals of the file.
pub record Power : Type 0 where
  pub smi_cmd : ℕ
  pub acpi_enable : ℕ
  pub acpi_disable : ℕ
  pub pm1a_cnt : ℕ
  pub pm1b_cnt : ℕ
  pub slp_typa : ℕ
  pub slp_typb : ℕ
  pub pm1_cnt_len : ℕ
  pub slp_en : ℕ
  pub sci_en : ℕ
  pub reset_flag : ℕ
  pub facp_header : Option FacpHeader

unfoldable pub bake : ℕ → ℕ → ℕ → ℕ → ℕ
bake a b c d = bit_or (bit_or (bit_or a (b <<< 8)) (c <<< 16)) (d <<< 24)

-- `memcmp(S5Addr, "_S5_", 4) == 0`
abbrev pub is_s5 : (ℕ → ℕ) → ℕ → Bool
is_s5 m at = m at == 0x5F && (m (at + 1) == 0x53 && (m (at + 2) == 0x35 && m (at + 3) == 0x5F))

-- The search for `_S5_`, `left` bytes before its end: the address, and `dsdtLength` after the loop.
unfoldable pub s5_loop : ℕ → (ℕ → ℕ) → ℕ → ℕ × ℤ
s5_loop zero m at = (at, negsuc 0)
s5_loop (suc left) m at =
    let rest = s5_loop left m (at + 1) in if is_s5 m at then (at, pos left) else rest

abbrev not_positive : ℤ → Bool
not_positive (pos n) = n == 0
not_positive (negsuc n) = true

-- The test for a name declaration with a package.
abbrev pub is_package : (ℕ → ℕ) → ℕ → Bool
is_package m s5 =
    (m (s5 - 1) == 0x08 || (m (s5 - 2) == 0x08 && m (s5 - 1) == 0x5C)) && m (s5 + 4) == 0x12

-- The address of a number, behind its prefix.
abbrev pub skip_prefix : (ℕ → ℕ) → ℕ → ℕ
skip_prefix m at = if m at == 0x0A then at + 1 else at

-- The address of the first number of the package.
abbrev pub first_number : (ℕ → ℕ) → ℕ → ℕ
first_number m s5 = s5 + 5 + ((bit_and (m (s5 + 5)) 0xC0 >>> 6) + 2)

-- The block of `InitFACP` for a valid package.
unfoldable pub read_s5 : FacpHeader → (ℕ → ℕ) → ℕ → Power → Power
read_s5 facp m s5 p =
    let a = skip_prefix m (first_number m s5) in
    let b = skip_prefix m (a + 1) in
    record p {
      slp_typa = u16 (m a <<< 10);
      slp_typb = u16 (m b <<< 10);
      smi_cmd = facp.smi_cmd;
      acpi_enable = facp.acpi_enable;
      acpi_disable = facp.acpi_disable;
      pm1a_cnt = facp.pm1a_cnt_blk;
      pm1b_cnt = facp.pm1b_cnt_blk;
      pm1_cnt_len = facp.pm1_cnt_len;
      slp_en = 1 <<< 13;
      sci_en = 1;
    }

-- `dsdtLength` after it is doubled, as the rounds of the loop: an `int` of 32 bits, which wraps around, and
-- with which no round is made if it is negative.
abbrev pub search_rounds : (ℕ → ℕ) → ℕ → ℕ
search_rounds m dsdt =
    let doubled = u32 (read32 m (dsdt + 4) * 2) in if ltb doubled (2 ^ 31) then doubled else 0

-- `InitFACP`
unfoldable pub init_facp : FacpHeader → (ℕ → ℕ) → Power → Power
init_facp facp m p =
    let kept = record p { facp_header = some facp } in
    let (s5, left) = s5_loop (search_rounds m facp.dsdt) m (facp.dsdt + 36) in
    let parsed = if is_package m s5 then read_s5 facp m s5 kept else record kept { sci_en = 0 } in
    if not (read32 m facp.dsdt == bake 0x44 0x53 0x44 0x54)
    then kept
    else if not_positive left
    then kept
    else record parsed { reset_flag = bit_and facp.flags (1 <<< 10) >>> 10 }

-- `Shutdown`: the writes of words to ports, in order.
unfoldable pub shut_down : Power → List (ℕ × ℕ)
shut_down p =
    let second =
      if not (p.pm1b_cnt == 0) then (u16 p.pm1b_cnt, bit_or p.slp_typb p.slp_en) ∷ [] else [] in
    let firmware =
      if p.sci_en == 1 then (u16 p.pm1a_cnt, bit_or p.slp_typa p.slp_en) ∷ second else [] in
    firmware ++ (0xB004, 0x2000) ∷ (0x604, 0x2000) ∷ (0x4004, 0x3400) ∷ []

pub data ResetWrite : Type 0 where
  to_port : ℕ → ℕ → ResetWrite
  to_memory : ℕ → ℕ → ResetWrite

-- `Reboot`: what it writes, where it writes anything. `ACPI::IO` is 1 and `ACPI::MMIO` is 0.
unfoldable pub reboot : Power → Option ResetWrite
reboot p = if p.reset_flag == 0 then none else elim p.facp_header [
  | none ↦ none
  | some facp ↦
      if facp.reset_address_space == 1
      then some (to_port (u16 facp.reset_address) facp.reset_value)
      else if facp.reset_address_space == 0
      then some (to_memory facp.reset_address facp.reset_value)
      else none
]
