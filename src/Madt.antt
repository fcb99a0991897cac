-- ===== src/Madt.antt =====
-- kernel/src/apic/madt.hpp and madt.cpp: the records of the interrupt controller table.
pub mod Records
pub mod Laws
pub mod Init
use mates_os.Base.{none, some, ℕ, Result, Option, Bool, ◌>>=◌, ok, ◌+◌, not, ◌==◌}
use mates_os.Paging.Source.{Source}
use mates_os.Madt.Records.{Information, madt_loop, Walk, ended, past_array, unfinished}
use mates_os.Acpi.{check_header, sdt_length, read32}
use mates_os.Paging.Manager.{identity_map_memory, map_memory}

-- `MADTInit`: whether the local controller was found, and the tables, if the walk
-- over the records ends.
unfoldable pub madt_init :
    (source : Source)
    → ℕ
    → (ℕ → ℕ)
    → ℕ
    → Information source
    → Result (Walk (Information source × Bool))
madt_init source pml4 m madt s =
    check_header m madt "Failed SDT header checksum in MADT header"
      "Impossible size of SDT header in MADT header"
    >>= λ u. ok (elim (identity_map_memory source pml4 madt (sdt_length m madt) s.space) [
      | none ↦ unfinished
      | some mapped ↦
          elim (madt_loop source pml4 m madt (sdt_length m madt + 1) 0
            (record s { space = mapped; local_apic_ptr = read32 m (madt + 36) })) [
              | past_array ↦ past_array
              | unfinished ↦ unfinished
              | ended t ↦
                  let last = record t {
                    space = (map_memory source pml4 t.local_apic_ptr t.local_apic_ptr t.space).1;
                  } in
                  ended (last, not (t.local_apic_ptr == 0))
            ]
    ])
