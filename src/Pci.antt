-- ===== src/Pci.antt =====
-- kernel/src/PCI/pci.hpp and pci.cpp: the devices of the PCI Express configuration space.
pub mod Functions
pub mod Laws
pub mod Lookup
use mates_os.Base.{
  ℕ, Bool, List, Result, for_loop, sub64, u64, ◌+◌, not, ◌*◌, ◌-◌, ◌<<<◌, if◌then◌else◌, ◌/◌, ◌==◌,
  ◌>>=◌, leb, ok, ◌&&◌, length, ◌++◌, ◌∷◌, [],
}
use mates_os.Paging.Source.{Source}
use mates_os.Paging.Manager.{Space, map_memory}
use mates_os.Acpi.{check_header, sdt_length, read64, read16}

-- `MAX_NUMBER_OF_LANES`
abbrev pub max_number_of_lanes : ℕ
max_number_of_lanes = 32

-- `ACPI::DeviceConfig`, as it is read from the MCFG table.
pub record DeviceConfig : Type 0 where
  pub base_address : ℕ
  pub start_bus : ℕ
  pub end_bus : ℕ

-- Entry `t` behind the header of the table, which is 44 bytes long, in the memory of bytes.
unfoldable pub device_config : (ℕ → ℕ) → ℕ → ℕ → DeviceConfig
device_config m mcfg t =
    let at = mcfg + 44 + 16 * t in
    record { base_address = read64 m at; start_bus = m (at + 10); end_bus = m (at + 11) }

abbrev pub config_entries : (ℕ → ℕ) → ℕ → ℕ
config_entries m mcfg = sub64 (sdt_length m mcfg) 44 / 16

-- `header->DeviceID` is neither 0 nor 0xffff. The configuration space is what the hardware answers
-- at the address of a byte.
abbrev pub answers : (ℕ → ℕ) → ℕ → Bool
answers config_space address =
    let device_id = read16 config_space (address + 2) in
    not (device_id == 0) && not (device_id == 0xffff)

-- The page tables and the page allocator are those of the manager.
module _ (source : Source) (config_space : ℕ → ℕ) where
  -- `s_pci_devices`, up to `s_pci_devices_num`, and the address space.
  pub record Bus : Type 0 where
    pub devices : List ℕ
    pub space : Space source

  abbrev map_page : ℕ → ℕ → Bus → Bus
  map_page pml4 address s = record s { space = (map_memory source pml4 address address s.space).1 }

  unfoldable pub enumerate_function : ℕ → ℕ → ℕ → Bus → Bus
  enumerate_function pml4 device_address function s =
      let function_address = u64 (device_address + (function <<< 12)) in
      let mapped = map_page pml4 function_address s in
      if not (answers config_space function_address)
      then mapped
      else if leb max_number_of_lanes (length mapped.devices)
      then mapped
      else record mapped { devices = mapped.devices ++ function_address ∷ [] }

  unfoldable pub enumerate_device : ℕ → ℕ → ℕ → Bus → Bus
  enumerate_device pml4 bus_address device s =
      let device_address = u64 (bus_address + (device <<< 15)) in
      let mapped = map_page pml4 device_address s in
      if answers config_space device_address
      then for_loop (enumerate_function pml4 device_address) 8 0 mapped
      else mapped

  unfoldable pub enumerate_bus : ℕ → ℕ → ℕ → Bus → Bus
  enumerate_bus pml4 base_address bus s =
      let bus_address = u64 (base_address + (bus <<< 20)) in
      let mapped = map_page pml4 bus_address s in
      if answers config_space bus_address
      then for_loop (enumerate_device pml4 bus_address) 32 0 mapped
      else mapped

  -- The buses of one entry of the table.
  unfoldable pub enumerate_config : ℕ → (ℕ → DeviceConfig) → ℕ → Bus → Bus
  enumerate_config pml4 configs t s =
      let config = configs t in
      for_loop (enumerate_bus pml4 config.base_address) (config.end_bus - config.start_bus)
        config.start_bus s

  -- `EnumeratePCI`, without the screen and the drivers.
  unfoldable pub enumerate_pci : ℕ → (ℕ → ℕ) → ℕ → Bus → Result Bus
  enumerate_pci pml4 m mcfg s =
      check_header m mcfg "Failed SDT header checksum in MCFG header"
        "Impossible size of SDT header in MCFG header"
      >>= λ u.
          ok (for_loop (enumerate_config pml4 (device_config m mcfg)) (config_entries m mcfg) 0 s)

  -- `EnumerateFunction` by indices: the address of the header or NULL, and the address space.
  unfoldable pub enumerate_function_at :
      ℕ → (ℕ → DeviceConfig) → ℕ → ℕ → ℕ → ℕ → ℕ → Space source → ℕ × Space source
  enumerate_function_at pml4 configs entries entry_index bus_index device_index function_index s =
      let config = configs entry_index in
      let bus = u64 (config.start_bus + bus_index) in
      let bus_address = u64 (config.base_address + (bus <<< 20)) in
      let device_address = u64 (bus_address + (device_index <<< 15)) in
      let function_address = u64 (device_address + (function_index <<< 12)) in
      let s1 = (map_memory source pml4 bus_address bus_address s).1 in
      let s2 = (map_memory source pml4 device_address device_address s1).1 in
      let s3 = (map_memory source pml4 function_address function_address s2).1 in
      if leb entries entry_index
      then (0, s)
      else if leb 32 device_index
      then (0, s)
      else if leb 8 function_index
      then (0, s)
      else if leb config.end_bus bus
      then (0, s)
      else if not (answers config_space bus_address)
      then (0, s1)
      else if not (answers config_space device_address)
      then (0, s2)
      else if not (answers config_space function_address)
      then (0, s3)
      else (function_address, s3)
