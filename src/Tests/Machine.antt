-- ===== src/Tests/Machine.antt =====
-- Instances for the SATA driver and for power off.
use mates_os.Bitmap
use mates_os.Base.{
  inl, some, none, refl, zero, suc, List, ℕ, ◌≢◌, if◌then◌else◌, ◌<◌, ◌∷◌, ◌≡◌, [], arith, false,
  leb, ◌%◌, ◌==◌, get_or, true, ◌*◌, ◌+◌, ◌^◌, ◌-◌, ◌/◌, ◌≤◌,
}
use mates_os.Ahci.Command.{lba_of, read_fis, read_entry, read_port_lem, read_fis-lba, ReadOutcome}
use mates_os.Ahci.Probe.{AreProbed, probe_ports-AreProbed}
use mates_os.Ahci.Setup.{Setup, configure, IsTable, configure-IsTable}
use mates_os.Bitmap.Count.{count}
use mates_os.Facp.{FacpHeader, Power, init_facp, shut_down, is_s5, reboot}
use mates_os.FrameAllocator.{Frames}
use mates_os.Ahci.{PortStatus, probe_ports}
use mates_os.Paging.FramesSource.{IsReady, frames_source}
use mates_os.Facp.Laws.{init_facp-missing, shut_down-init_facp, off_writes}
use mates_os.Interrupts.{Handlers, IdtDescEntry, prepare_gates}
use mates_os.Interrupts.Gates.{handler_of, LeadsTo, prepare_gates-LeadsTo}
use mates_os.Timer.{set_frequency, get_frequency, base_frequency, set_frequency_lem}

-- Port 0 has a disk, port 2 has a drive; all others have nothing.
abbrev some_ports : ℕ → PortStatus
some_ports i =
    if i == 0
    then record { signature = 0x101; sata_status = 0x123 }
    else if i == 2
    then record { signature = 0xEB140101; sata_status = 0x113 }
    else record { signature = 0xFFFFFFFF; sata_status = 0 }

probe_ports-AreProbed_example :
    AreProbed 0b1111 some_ports 32
      (probe_ports 0b1111 some_ports (record { ports = []; port_count = 0 }))
probe_ports-AreProbed_example = probe_ports-AreProbed 0b1111 some_ports

read_fis-lba_example :
    (lba_of (read_fis 0x12345678 8) ≡ 0x12345678 % 2 ^ 24 + 0x12345678 / 2 ^ 32 % 2 ^ 24 * 2 ^ 24)
    × (0x12345678 < 2 ^ 24 → lba_of (read_fis 0x12345678 8) ≡ 0x12345678)
    × ((read_fis 0x12345678 8).count_low + (read_fis 0x12345678 8).count_high * 2 ^ 8 ≡ 8 % 2 ^ 16)
    × (0 < 8 → 8 ≤ 8192 → (read_entry 0x5000 8).byte_count + 1 ≡ 512 * 8)
read_fis-lba_example = read_fis-lba 0x12345678 8 0x5000 (omega arith)

abbrev disk_buffer : ℕ
disk_buffer = 0x5000

-- A register that always reads as 0.
abbrev idle : ℕ → ℕ
idle i = 0

read_port_lem_example : ReadOutcome 1 idle idle idle disk_buffer 0x5000 0x6000 7 2 (idle 0 == 0)
read_port_lem_example =
    read_port_lem 1 idle idle idle disk_buffer 0x5000 0x6000 7 2 0 (omega arith) (inl refl)
      (λ j q. absurd (omega arith))

-- Sixty-four pages, of which the first is reserved.
abbrev wide_frames : Frames
wide_frames = record {
  page_bitmap = record { size = 8; buffer = λ i. if i == 0 then 0b10000000 else 0 };
  total_memory = 262144;
  free_memory = 258048;
  reserved_memory = 4096;
  used_memory = 0;
  page_bitmap_index = 0;
}

wide_frames-IsReady : IsReady wide_frames
unfolding count Bitmap.get
wide_frames-IsReady = record {
  consistent = record { balance = refl; census = refl; hint = λ j p. absurd (omega arith) };
  null_taken = refl;
  narrow = omega arith;
}

abbrev idle_port : Setup frames_source
idle_port = record {
  frames = wide_frames;
  command_list_base = 0;
  command_list_base_upper = 0;
  fis_base = 0;
  fis_base_upper = 0;
  configured = false;
  headers = λ i. record { prdt_length = 0; table_base = 0; table_base_upper = 0 };
  memory = λ a. 0;
}

configure-IsTable_example :
    (s' : Setup frames_source) × (configure frames_source 1 (λ i. 0) idle_port ≡ some (true, s'))
    × (s'.configured ≡ true)
    × ((page : ℕ) × (page ≢ 0)
        × (page % 4096 ≡ 0)
        × (frames_source.taken wide_frames (page / 4096) ≡ false)
        × (s'.command_list_base + s'.command_list_base_upper * 2 ^ 32 ≡ page))
    × ((i : ℕ) → i < 32 → IsTable frames_source wide_frames i (s'.headers i))
unfolding count Bitmap.get
configure-IsTable_example =
    configure-IsTable frames_source 1 (λ i. 0) 0 idle_port (λ i p. (refl, refl)) (omega arith)
      wide_frames-IsReady (omega arith)

-- A DSDT of 64 bytes at 4096 with the name 12 bytes behind its header.
abbrev dsdt_bytes : List ℕ
dsdt_bytes =
    0x44 ∷ 0x53 ∷ 0x44 ∷ 0x54 ∷ 64 ∷ 0 ∷ 0 ∷ 0 ∷ 0 ∷ 0 ∷ 0 ∷ 0 ∷ 0 ∷ 0 ∷ 0 ∷ 0 ∷ 0 ∷ 0 ∷ 0 ∷ 0 ∷ 0
    ∷ 0 ∷ 0 ∷ 0 ∷ 0 ∷ 0 ∷ 0 ∷ 0 ∷ 0 ∷ 0 ∷ 0 ∷ 0 ∷ 0 ∷ 0 ∷ 0 ∷ 0 ∷ 0 ∷ 0x08 ∷ 0x5F ∷ 0x53 ∷ 0x35
    ∷ 0x5F ∷ 0x12 ∷ 0x0A ∷ 0x04 ∷ 0x0A ∷ 5 ∷ 0x0A ∷ 6 ∷ []

abbrev dsdt_memory : ℕ → ℕ
dsdt_memory a = if leb 4096 a then get_or dsdt_bytes (a - 4096) 0 else 0

abbrev small_facp : FacpHeader
small_facp = record {
  dsdt = 4096;
  smi_cmd = 0xB2;
  acpi_enable = 1;
  acpi_disable = 0;
  pm1a_cnt_blk = 0x604;
  pm1b_cnt_blk = 0x608;
  pm1_cnt_len = 2;
  flags = 0;
  reset_address_space = 1;
  reset_address = 0xCF9;
  reset_value = 6;
}

abbrev no_power : Power
no_power = record {
  smi_cmd = 0;
  acpi_enable = 0;
  acpi_disable = 0;
  pm1a_cnt = 0;
  pm1b_cnt = 0;
  slp_typa = 0;
  slp_typb = 0;
  pm1_cnt_len = 0;
  slp_en = 0;
  sci_en = 0;
  reset_flag = 0;
  facp_header = none;
}

no_name_before : (i : ℕ) → i < 2 → is_s5 dsdt_memory (4096 + 36 + i) ≡ false
no_name_before zero q = refl
no_name_before (suc zero) q = refl
no_name_before (suc (suc i)) q = absurd (omega arith)

shut_down-init_facp_example :
    shut_down (init_facp small_facp dsdt_memory no_power)
    ≡ off_writes small_facp (5 * 1024 + 8192) (6 * 1024 + 8192)
shut_down-init_facp_example =
    shut_down-init_facp small_facp dsdt_memory no_power 2 5 6 refl (omega arith) (omega arith)
      (record {
        name = refl;
        name_op = refl;
        package_op = refl;
        package_length = omega arith;
        first_prefix = refl;
        first = refl;
        second_prefix = refl;
        second = refl;
      })
      no_name_before (omega arith) (omega arith)

init_facp-missing_example :
    (init_facp small_facp (λ a. 0) no_power ≡ record no_power { facp_header = some small_facp })
    × (no_power.sci_en ≡ 0
        → shut_down (init_facp small_facp (λ a. 0) no_power)
          ≡ (0xB004, 0x2000) ∷ (0x604, 0x2000) ∷ (0x4004, 0x3400) ∷ [])
    × (no_power.reset_flag ≡ 0 → reboot (init_facp small_facp (λ a. 0) no_power) ≡ none)
init_facp-missing_example = init_facp-missing small_facp (λ a. 0) no_power (inl (λ e. omega arith))

abbrev no_gate : IdtDescEntry
no_gate = record {
  offset0 = 0;
  selector = 0;
  ist = 0;
  type_attr = 0;
  offset1 = 0;
  offset2 = 0;
  ignore = 0;
}

abbrev some_handlers : Handlers
some_handlers = record {
  page_fault = 0x100010;
  double_fault = 0x100020;
  gp_fault = 0x100030;
  keyboard = 0x100040;
  mouse = 0x100050;
  pit = 0x100060;
}

prepare_gates-LeadsTo_example :
    ((a : ℕ)
      → handler_of some_handlers 0x21 ≡ some a
      → a < 2 ^ 64
      → LeadsTo (prepare_gates some_handlers (λ i. no_gate) 0x21) a)
    × (handler_of some_handlers 0x21 ≡ none
        → prepare_gates some_handlers (λ i. no_gate) 0x21 ≡ no_gate)
prepare_gates-LeadsTo_example = prepare_gates-LeadsTo some_handlers (λ i. no_gate) 0x21

-- A request for 100 Hz gives 11931 Hz.
set_frequency_lem_example :
    (d : ℕ) × (set_frequency 100 ≡ some (d, (0x40, d) ∷ (0x40, 0) ∷ []))
    × (1 ≤ d)
    × (d ≤ 100)
    × (11931 ≤ get_frequency d)
    × (19 ≤ 100 → 100 ≤ base_frequency → 100 ≤ get_frequency d)
    × (19 ≤ 100 → 100 ≤ 11813 → get_frequency d ≡ 11931)
set_frequency_lem_example = set_frequency_lem 100 (omega arith)
