-- ===== src/Ahci.antt =====
-- kernel/src/ahci/ahci.hpp and ahci.cpp: the driver of a SATA controller.
pub mod Probe
pub mod Engine
pub mod Setup
pub mod Command
use mates_os.Base.{
  Bool, List, u8, ℕ, false, for_loop, if◌then◌else◌, not, ◌++◌, ◌>>>◌, bit_and, true, ◌%◌, ◌==◌,
  ◌^◌, ◌∷◌, [], ◌+◌,
}

pub data PortType : Type 0 where
  no_port : PortType
  sata : PortType
  semb : PortType
  pm : PortType
  satapi : PortType

-- What is read of `HBAPort` to find what is connected.
pub record PortStatus : Type 0 where
  pub signature : ℕ
  pub sata_status : ℕ

-- `v & mask` as a condition
abbrev pub has : ℕ → ℕ → Bool
has v mask = not (bit_and v mask == 0)

abbrev port_signature : ℕ → PortType
port_signature s =
    if s == 0xEB140101
    then satapi
    else if s == 0x00000101
    then sata
    else if s == 0x96690101
    then pm
    else if s == 0xC33C0101
    then semb
    else no_port

-- `CheckPortType`
unfoldable pub check_port_type : PortStatus → PortType
check_port_type port =
    let power = u8 ((port.sata_status >>> 8) % 0b111) in
    let detection = u8 (bit_and port.sata_status 0b111) in
    if not (detection == 0x3)
    then no_port
    else if not (power == 0x1)
    then no_port
    else port_signature port.signature

-- `Port` without the registers; `hba_port` is their index in `ABAR->ports`.
pub record Port : Type 0 where
  pub hba_port : ℕ
  pub port_type : PortType
  pub buffer : ℕ
  pub port_number : ℕ
  pub configured : Bool

-- The ports of `AHCIDriver`; those that are in use of the array.
pub record AhciDriver : Type 0 where
  pub ports : List Port
  pub port_count : ℕ

-- `AddPort`; the memory for the new port is taken to be there.
abbrev pub add_port : PortType → ℕ → AhciDriver → AhciDriver
add_port type i d = record {
  ports =
      d.ports
      ++ record {
        hba_port = i;
        port_type = type;
        buffer = 0;
        port_number = d.port_count;
        configured = false;
      }
        ∷ [];
  port_count = u8 (d.port_count + 1);
}

abbrev pub is_supported : PortType → Bool
is_supported no_port = false
is_supported sata = true
is_supported semb = false
is_supported pm = false
is_supported satapi = true

-- One pass of the loop of `ProbePorts`.
abbrev pub probe_port : ℕ → (ℕ → PortStatus) → ℕ → AhciDriver → AhciDriver
probe_port ports_implemented status i d =
    if has ports_implemented (2 ^ i)
    then (if is_supported (check_port_type (status i))
        then add_port (check_port_type (status i)) i d
        else d)
    else d

-- `ProbePorts`
unfoldable pub probe_ports : ℕ → (ℕ → PortStatus) → AhciDriver → AhciDriver
probe_ports ports_implemented status d = for_loop (probe_port ports_implemented status) 32 0 d
