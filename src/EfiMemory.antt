-- ===== src/EfiMemory.antt =====
-- kernel/src/utils/efiMemory.hpp and efiMemory.cpp: the memory map that the firmware hands over.
use mates_os.Base.{ℕ, zero, suc, ◌+◌, ◌*◌, ltb, if◌then◌else◌, u64}

-- `EFI_MEMORY_DESCRIPTOR`
pub record Descriptor : Type 0 where
  pub type : ℕ
  pub phys_addr : ℕ
  pub virt_addr : ℕ
  pub num_pages : ℕ
  pub attribs : ℕ

-- `EfiConventionalMemory`, the eighth member of `EfiMemoryType`.
abbrev pub efi_conventional_memory : ℕ
efi_conventional_memory = 7

-- The descriptors by their index: what lies at `mMap + i * mMapDescSize`.
abbrev pub Descriptors : Type 0
Descriptors = ℕ → Descriptor

-- The loop of `GetMemorySize`, with the rounds that are left.
unfoldable pub add_sizes : ℕ → ℕ → Descriptors → ℕ → ℕ
add_sizes zero i map bytes = bytes
add_sizes (suc left) i map bytes =
    add_sizes left (i + 1) map (u64 (bytes + u64 ((map i).num_pages * 4096)))

-- `memory_size_bytes` is the static variable; the result is also its new value.
unfoldable pub get_memory_size : ℕ → Descriptors → ℕ → ℕ
get_memory_size memory_size_bytes map entries =
    if ltb 0 memory_size_bytes then memory_size_bytes else add_sizes entries 0 map memory_size_bytes
