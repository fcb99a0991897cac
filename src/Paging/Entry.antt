-- ===== src/Paging/Entry.antt =====
-- kernel/src/memory_management/paging.hpp and paging.cpp: `PageDirectoryEntry`, a 64-bit word of flags
-- with the number of a physical page in bits 12 to 51.
pub mod Laws
use mates_os.Base.{ℕ, ◌-◌, ◌*◌, ◌^◌, ◌/◌, bit_and, bit_or, Bool, ltb, if◌then◌else◌, ◌<<<◌, ◌>>>◌}

-- `PT_Flag`: the flags are the numbers of their bits.
abbrev pub present : ℕ
present = 0

abbrev pub read_write : ℕ
read_write = 1

-- `~x` on `uint64_t`
abbrev pub complement64 : ℕ → ℕ
complement64 x = 2 ^ 64 - 1 - x

-- 0x000ffffffffff000
abbrev pub address_mask : ℕ
address_mask = 0x000ffffffffff000

abbrev pub flags_mask : ℕ
flags_mask = 0xfff0000000000fff

unfoldable pub set_flag : ℕ → ℕ → Bool → ℕ
set_flag value flag enabled =
    let bit_selector = 1 <<< flag in
    let cleared = bit_and value (complement64 bit_selector) in
    if enabled then bit_or cleared bit_selector else cleared

unfoldable pub get_flag : ℕ → ℕ → Bool
get_flag value flag = ltb 0 (bit_and value (1 <<< flag))

unfoldable pub set_flags : ℕ → ℕ → ℕ
set_flags value flags = bit_or value (bit_and flags flags_mask)

unfoldable pub get_flags : ℕ → ℕ
get_flags value = bit_and value flags_mask

unfoldable pub set_address : ℕ → ℕ → ℕ
set_address value address =
    bit_or (bit_and value flags_mask) (bit_and address 0x000000ffffffffff <<< 12)

unfoldable pub get_address : ℕ → ℕ
get_address value = bit_and value address_mask >>> 12

abbrev pub clear : ℕ
clear = 0
