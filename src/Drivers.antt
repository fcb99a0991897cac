-- ===== src/Drivers.antt =====
-- kernel/src/utils/driver.hpp and driver.cpp: the driver manager.
pub mod Laws
use mates_os.Base.{
  Bool, ℕ, Option, for_loop, if◌then◌else◌, false, ltb, ◌==◌, some, sub64, none, ◌+◌, true,
}

-- `DRIVER_NUM`
abbrev pub driver_num : ℕ
driver_num = 512

module _ (Driver : Type 0) where
  -- A slot of the array is NULL or holds a driver.
  pub record DriverManager : Type 0 where
    pub drivers : ℕ → Option Driver
    pub num_of_drivers : ℕ

  unfoldable pub add_driver : Driver → DriverManager → DriverManager
  add_driver driver m = if m.num_of_drivers == driver_num then m else record m {
    drivers = λ i. if m.num_of_drivers == i then some driver else m.drivers i;
    num_of_drivers = m.num_of_drivers + 1;
  }

  unfoldable pub get_by_index : ℕ → DriverManager → Option Driver
  get_by_index index m = if ltb (sub64 m.num_of_drivers 1) index then none else m.drivers index

  -- A driver after `activate`, and whether that succeeded.
  module _ (activate : Driver → Driver × Bool) where
    -- The body of the loop of `activate_all` for what the slot `i` holds, with `failed`.
    abbrev pub activate_held : ℕ → Option Driver → DriverManager × Bool → DriverManager × Bool
    activate_held i none s = s
    activate_held i (some driver) (m, failed) =
        let (after, done) = activate driver in
        (
          record m { drivers = λ j. if i == j then some after else m.drivers j },
          if done then failed else true,
        )

    abbrev pub activate_slot : ℕ → DriverManager × Bool → DriverManager × Bool
    activate_slot i s = activate_held i (s.0.drivers i) s

    unfoldable pub activate_all : DriverManager → DriverManager × Bool
    activate_all m = for_loop activate_slot m.num_of_drivers 0 (m, false)
