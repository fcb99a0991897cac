-- ===== src/Interrupts.antt =====
-- kernel/src/interrupts/IDT.hpp, IDT.cpp and interrupts.cpp, and the gates of
-- kernel/src/utils/kernelUtil.cpp.
pub mod Gates
use mates_os.Base.{
  ℕ, bit_or, if◌then◌else◌, u16, bit_and, u64, ◌==◌, ◌<<<◌, ◌>>>◌, u32, List, ◌∷◌, [],
}

-- `IDTDescEntry`
pub record IdtDescEntry : Type 0 where
  pub offset0 : ℕ
  pub selector : ℕ
  pub ist : ℕ
  pub type_attr : ℕ
  pub offset1 : ℕ
  pub offset2 : ℕ
  pub ignore : ℕ

-- `SetOffset`
unfoldable pub set_offset : ℕ → IdtDescEntry → IdtDescEntry
set_offset offset e = record e {
  offset0 = u16 (bit_and offset 0x000000000000ffff);
  offset1 = u16 (bit_and offset 0x00000000ffff0000 >>> 16);
  offset2 = u32 (bit_and offset 0xffffffff00000000 >>> 32);
}

-- `GetOffset`
unfoldable pub get_offset : IdtDescEntry → ℕ
get_offset e =
    bit_or (bit_or (bit_or 0 e.offset0) (u64 (e.offset1 <<< 16))) (u64 (e.offset2 <<< 32))

-- `SetIDTGate`; the entries of the table by their number.
abbrev pub set_idt_gate : ℕ → ℕ → ℕ → ℕ → (ℕ → IdtDescEntry) → ℕ → IdtDescEntry
set_idt_gate handler entry_offset type_attr selector table i =
    if entry_offset == i
    then record (set_offset handler (table i)) { type_attr = type_attr; selector = selector }
    else table i

-- `IDT_TA_InterruptGate`
abbrev pub interrupt_gate : ℕ
interrupt_gate = 0b10001110

-- The addresses of the handlers, which the linker chooses.
pub record Handlers : Type 0 where
  pub page_fault : ℕ
  pub double_fault : ℕ
  pub gp_fault : ℕ
  pub keyboard : ℕ
  pub mouse : ℕ
  pub pit : ℕ

-- The gates of `PrepareInterrupts`, in order.
unfoldable pub prepare_gates : Handlers → (ℕ → IdtDescEntry) → ℕ → IdtDescEntry
prepare_gates h table =
    let t1 = set_idt_gate h.page_fault 0xE interrupt_gate 0x08 table in
    let t2 = set_idt_gate h.double_fault 0x8 interrupt_gate 0x08 t1 in
    let t3 = set_idt_gate h.gp_fault 0xD interrupt_gate 0x08 t2 in
    let t4 = set_idt_gate h.keyboard 0x21 interrupt_gate 0x08 t3 in
    let t5 = set_idt_gate h.mouse 0x2C interrupt_gate 0x08 t4 in
    set_idt_gate h.pit 0x20 interrupt_gate 0x08 t5

-- The writes of bytes to ports by `RemapPIC`, in order; `a1` and `a2` are the masks that it reads first.
unfoldable pub remap_pic : ℕ → ℕ → List (ℕ × ℕ)
remap_pic a1 a2 =
    (0x20, bit_or 0x10 0x01)
    ∷ (0xA0, bit_or 0x10 0x01)
    ∷ (0x21, 0x20)
    ∷ (0xA1, 0x28)
    ∷ (0x21, 4)
    ∷ (0xA1, 2)
    ∷ (0x21, 0x01)
    ∷ (0xA1, 0x01)
    ∷ (0x21, a1)
    ∷ (0xA1, a2)
    ∷ []

-- `PIC_EndMaster`
abbrev pub pic_end_master : List (ℕ × ℕ)
pic_end_master = (0x20, 0x20) ∷ []

-- `PIC_EndSlave`
abbrev pub pic_end_slave : List (ℕ × ℕ)
pic_end_slave = (0xA0, 0x20) ∷ (0x20, 0x20) ∷ []
