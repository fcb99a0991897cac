-- ===== src/Pci/Functions.antt =====
-- The functions that answer, in the order of their places, without the table of 32 headers.
use mates_os.Base.{
  Bool, ℕ, List, [], u64, ◌-◌, suc, ◌+◌, ◌++◌, ◌<<<◌, ◌∷◌, zero, if◌then◌else◌, ◌*◌, not, ◌==◌,
  ◌||◌,
}
use mates_os.Pci.{DeviceConfig}

-- What a function that is there shows in its third and fourth byte: a device number that is neither 0 nor
-- 65535, which the bus gives where nothing answers.
abbrev pub has_device : (ℕ → ℕ) → ℕ → Bool
has_device config_space a =
    let id = config_space (a + 2) + 256 * config_space (a + 3) in not (id == 0 || id == 65535)

abbrev pub take : ℕ → List ℕ → List ℕ
take zero xs = []
take (suc n) [] = []
take (suc n) (x ∷ xs) = x ∷ take n xs

-- The lists of `left` places from `from` on, one after the other.
abbrev pub gather : (ℕ → List ℕ) → ℕ → ℕ → List ℕ
gather f zero from = []
gather f (suc left) from = f from ++ gather f left (from + 1)

abbrev pub when : Bool → List ℕ → List ℕ
when t xs = if t then xs else []

module _ (answers : ℕ → Bool) where
  abbrev pub function_at : ℕ → ℕ → List ℕ
  function_at device function =
      let a = u64 (device + (function <<< 12)) in when (answers a) (a ∷ [])

  abbrev pub device_functions : ℕ → ℕ → List ℕ
  device_functions bus device =
      let a = u64 (bus + (device <<< 15)) in when (answers a) (gather (function_at a) 8 0)

  abbrev pub bus_functions : ℕ → ℕ → List ℕ
  bus_functions base bus =
      let a = u64 (base + (bus <<< 20)) in when (answers a) (gather (device_functions a) 32 0)

  abbrev pub config_functions : (ℕ → DeviceConfig) → ℕ → List ℕ
  config_functions configs t =
      let c = configs t in
      gather (bus_functions c.base_address) (c.end_bus - c.start_bus) c.start_bus

  abbrev pub all_functions : (ℕ → DeviceConfig) → ℕ → List ℕ
  all_functions configs entries = gather (config_functions configs) entries 0
