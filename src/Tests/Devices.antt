-- ===== src/Tests/Devices.antt =====
-- Runs of the drivers, the scan of the devices, the keyboard and the mouse at concrete inputs.
use mates_os.Base.{
  ℕ, ◌<◌, Bool, arith, if◌then◌else◌, some, true, ◌≡◌, false, pos, refl, ◌+◌, ◌==◌, ◌∷◌, [], none,
  not, ◌⊎◌, get_elem?, suc, ok, zero, ◌++◌,
}
use mates_os.Drivers.{DriverManager, activate_all, get_by_index, add_driver, driver_num}
use mates_os.Drivers.Laws.{Holds, add_driver-Holds}
use mates_os.Input.Mouse.{Mouse, has_flag, process_mouse_packet, handle_ps2_mouse}
use mates_os.Input.Screen.{plus_nine, minus_nine, process_mouse_packet-moves, IsOnScreen}
use mates_os.Paging.FramesSource.{frames_source}
use mates_os.Pci.{
  DeviceConfig, Bus, device_config, enumerate_function_at, enumerate_pci, config_entries,
}
use mates_os.Input.Packets.{IsWhole, handle_ps2_mouse-IsWhole}
use mates_os.Pci.Lookup.{IsPlace, place_address, In, enumerate_function_at-In}
use mates_os.Pci.Functions.{all_functions, take, has_device}
use mates_os.Tests.Pages.{small_space}
use mates_os.Pci.Laws.{enumerate_pci-all_functions}
use mates_os.Acpi.Laws.{IsValid}

abbrev two_drivers : DriverManager ℕ
two_drivers = record {
  drivers = λ i. if i == 0 then some 7 else if i == 1 then some 9 else none;
  num_of_drivers = 2;
}

two_drivers-Holds : Holds two_drivers (7 ∷ 9 ∷ [])
two_drivers-Holds = (refl, omega arith, held)
  where
    held : (i : ℕ) → i < 2 → two_drivers.drivers i ≡ get_elem? (7 ∷ 9 ∷ []) i
    held zero p = refl
    held (suc zero) p = refl
    held (suc (suc i)) p = ground arith

-- A driver that counts its activations, and fails at the tenth.
abbrev counting : ℕ → ℕ × Bool
counting n = (n + 1, not (n == 9))

drivers_run :
    (get_by_index ℕ 2 (add_driver ℕ 5 two_drivers) ≡ some 5)
    × ((activate_all ℕ counting two_drivers).1 ≡ true)
unfolding get_by_index add_driver activate_all
drivers_run = (refl, refl)

add_driver-Holds_example :
    ((2 < driver_num) × Holds (add_driver ℕ 5 two_drivers) (7 ∷ 9 ∷ 5 ∷ []))
    ⊎ ((2 ≡ driver_num) × (add_driver ℕ 5 two_drivers ≡ two_drivers))
add_driver-Holds_example = add_driver-Holds two_drivers (7 ∷ 9 ∷ []) 5 two_drivers-Holds

abbrev no_drivers : DriverManager ℕ
no_drivers = record { drivers = λ i. some 3; num_of_drivers = 0 }

no_drivers-Holds : Holds no_drivers []
no_drivers-Holds = (refl, omega arith, λ i p. ground arith)

-- Bus 1 of a base at 0, with one device at place 2 that has one function.
abbrev one_device : ℕ → ℕ
one_device a = if a == 0x100002 then 1 else if a == 0x110002 then 1 else 0

abbrev one_bus : ℕ → DeviceConfig
one_bus t = record { base_address = 0; start_bus = 1; end_bus = 2 }

-- The table at 0 is 60 bytes long and adds up to 256.
abbrev mcfg : ℕ → ℕ
mcfg a =
    if a == 4 then 60 else if a == 54 then 1 else if a == 55 then 2 else if a == 8 then 193 else 0

mcfg-IsValid : IsValid mcfg 0
mcfg-IsValid = (refl, omega arith)

abbrev no_devices : Bus frames_source one_device
no_devices = record { devices = []; space = small_space }

functions_run :
    all_functions (has_device one_device) (device_config mcfg 0) (config_entries mcfg 0)
    ≡ 0x100000 ∷ 0x110000 ∷ []
unfolding device_config
functions_run = refl

enumerate_pci-all_functions_example :
    (s' : Bus frames_source one_device) × (enumerate_pci frames_source one_device 4096 mcfg 0
        no_devices
      ≡ ok s')
    × (s'.devices
        ≡ take 32 (
            []
            ++ all_functions
                (has_device one_device)
                (device_config mcfg 0)
                (config_entries mcfg 0)))
enumerate_pci-all_functions_example =
    enumerate_pci-all_functions frames_source one_device 4096 mcfg 0 no_devices mcfg-IsValid
      (omega arith)

enumerate_function_at-In_example :
    (IsPlace one_device one_bus 1 0 0 2 0
      × ((enumerate_function_at frames_source one_device 4096 one_bus 1 0 0 2 0 small_space).0
          ≡ place_address one_device one_bus 0 0 2 0)
      × In
          (place_address one_device one_bus 0 0 2 0)
          (all_functions (has_device one_device) one_bus 1))
    ⊎ ((IsPlace one_device one_bus 1 0 0 2 0 → ⊥)
        × ((enumerate_function_at frames_source one_device 4096 one_bus 1 0 0 2 0 small_space).0
            ≡ 0))
enumerate_function_at-In_example =
    enumerate_function_at-In one_device one_bus frames_source 4096 1 0 0 2 0 small_space
      (omega arith)

abbrev centre : Mouse
centre = record {
  mouse_cycle = 0;
  packet0 = 0b00011000;
  packet1 = 254;
  packet2 = 3;
  mouse_packet_ready = true;
  skip = false;
  mouse_position = record { x = pos 1; y = pos 10 };
  mouse_position_old = record { x = pos 1; y = pos 10 };
}

mouse_run :
    ((process_mouse_packet 640 480 centre).mouse_position.x ≡ pos 0)
    × ((process_mouse_packet 640 480 centre).mouse_position.y ≡ pos 7)
unfolding process_mouse_packet
mouse_run = (refl, refl)

handle_ps2_mouse-IsWhole_example :
    (has_flag 8 0b00001000 ≡ true
      → IsWhole 8 5 6 (
          handle_ps2_mouse 640 480 6
            (handle_ps2_mouse 640 480 5 (handle_ps2_mouse 640 480 8 centre))))
    × (has_flag 8 0b00001000 ≡ false
        → ((handle_ps2_mouse 640 480 8 centre).mouse_cycle ≡ 0)
          × ((handle_ps2_mouse 640 480 8 centre).mouse_packet_ready ≡ false))
handle_ps2_mouse-IsWhole_example = handle_ps2_mouse-IsWhole 640 480 8 5 6 centre refl refl

process_mouse_packet-moves_example :
    IsOnScreen 640
      (plus_nine true 254 (pos 1))
      (process_mouse_packet 640 480 centre).mouse_position.x
    × IsOnScreen 480
        (minus_nine false 3 (pos 10))
        (process_mouse_packet 640 480 centre).mouse_position.y
process_mouse_packet-moves_example =
    process_mouse_packet-moves 640 480 centre refl (omega arith) (omega arith) (omega arith)
      (omega arith) refl refl (λ e. omega arith) (λ e. omega arith)
