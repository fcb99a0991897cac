-- ===== src/Tests/Tables.antt =====
-- Runs of the routines for blocks of memory and of the interrupt controller table.
use mates_os.Base.{ℕ, arith, if◌then◌else◌, ◌%◌, ◌∷◌, ◌≡◌, [], refl, ◌==◌, ok, ◌⊎◌, true, inr, inl}
use mates_os.Blocks.{memmove, memcpy}
use mates_os.Blocks.Laws.{Copied, copies-Copied}
use mates_os.Madt.Laws.{Records, Collects}
use mates_os.Madt.Records.{Information, madt_loop, ended, unfinished, past_array}
use mates_os.Paging.FramesSource.{frames_source}
use mates_os.Madt.{madt_init}
use mates_os.Madt.Init.{madt_loop-stuck, madt_init-Collects, is_stored}
use mates_os.Tests.Pages.{small_space}
use mates_os.Acpi.Laws.{IsValid}

abbrev counted : ℕ → ℕ
counted a = a % 256

copies-Copied_example :
    Copied 20 10 3 100 counted (memmove 20 10 3 100 counted).0
    × ((memmove 20 10 3 100 counted).1 ≡ 20)
    × Copied 20 10 3 20 counted (memcpy 20 10 3 counted).0
    × ((memcpy 20 10 3 counted).1 ≡ 23)
copies-Copied_example =
    copies-Copied 20 10 3 100 counted (inr (omega arith)) (inr (omega arith)) (inl (omega arith))

-- A table at 0 with a processor record at 44 and an I/O controller record at 50.
abbrev madt_bytes : ℕ → ℕ
madt_bytes a =
    if a == 4
    then 62
    else if a == 8
    then 174
    else if a == 38
    then 1
    else if a == 45
    then 6
    else if a == 50
    then 1
    else if a == 51
    then 12
    else 0

abbrev no_information : Information frames_source
no_information = record {
  local_apic_ptr = 0;
  processors = [];
  ioapics = [];
  isos = [];
  nmis = [];
  space = small_space;
}

madt_bytes-IsValid : IsValid madt_bytes 0
madt_bytes-IsValid = (refl, omega arith)

madt_bytes-Records : Records madt_bytes 0 0 (44 ∷ 50 ∷ [])
madt_bytes-Records = (omega arith, refl, omega arith, (omega arith, refl, omega arith, omega arith))

madt_init-Collects_example :
    (s' : Information frames_source) × (madt_init frames_source 4096 madt_bytes 0 no_information
      ≡ ok (ended (s', true)))
    × Collects frames_source madt_bytes
        (44 ∷ 50 ∷ [])
        (record no_information { local_apic_ptr = 0x10000 })
        s'
madt_init-Collects_example =
    madt_init-Collects frames_source 4096 madt_bytes 0 (44 ∷ 50 ∷ []) no_information
      madt_bytes-IsValid (omega arith) (omega arith) madt_bytes-Records
      (omega arith, omega arith, omega arith, omega arith)

-- A table of 46 bytes whose last record has length 0.
abbrev stuck_bytes : ℕ → ℕ
stuck_bytes a = if a == 4 then 46 else if a == 44 then 9 else 0

madt_loop-stuck_example :
    (madt_loop frames_source 4096 stuck_bytes 0 1000 0 no_information ≡ unfinished)
    ⊎ ((is_stored frames_source 9 ≡ true)
        × (madt_loop frames_source 4096 stuck_bytes 0 1000 0 no_information ≡ past_array))
madt_loop-stuck_example =
    madt_loop-stuck frames_source 1000 4096 stuck_bytes 0 0 no_information (omega arith) refl
