-- ===== src/Input/Mouse.antt =====
-- kernel/src/userinput/mouse.hpp and mouse.cpp: packets of three bytes from the PS/2 mouse.
use mates_os.Base.{
  Bool, ℕ, ℤ, false, if◌then◌else◌, ltb, bit_and, ltz, not, u8, ◌==◌, pos, true, ◌&&◌, ◌-◌, add_nat,
  minus, sub_nat,
}

pub record Point : Type 0 where
  pub x : ℤ
  pub y : ℤ

-- The globals of the file and the static `skip` of `HandlePS2Mouse`.
pub record Mouse : Type 0 where
  pub mouse_cycle : ℕ
  pub packet0 : ℕ
  pub packet1 : ℕ
  pub packet2 : ℕ
  pub mouse_packet_ready : Bool
  pub skip : Bool
  pub mouse_position : Point
  pub mouse_position_old : Point

-- `mousePacket[0] & flag`
abbrev pub has_flag : ℕ → ℕ → Bool
has_flag packet flag = ltb 0 (bit_and packet flag)

-- The coordinate that grows with the byte of the packet: the byte after it, and the coordinate.
abbrev pub grow : Bool → Bool → ℕ → ℤ → ℕ × ℤ
grow negative overflow byte z =
    if negative
    then (let b = u8 (256 - byte) in
        let z' = sub_nat z b in (b, if overflow then sub_nat z' 255 else z'))
    else (let z' = add_nat z byte in (byte, if overflow then add_nat z' 255 else z'))

-- The coordinate that shrinks with it.
abbrev pub shrink : Bool → Bool → ℕ → ℤ → ℕ × ℤ
shrink negative overflow byte z =
    if negative
    then (let b = u8 (256 - byte) in
        let z' = add_nat z b in (b, if overflow then add_nat z' 255 else z'))
    else (let z' = sub_nat z byte in (byte, if overflow then sub_nat z' 255 else z'))

-- `if (z < 0) z = 0; if (z > (long)size - 1) z = (long)size - 1;`
abbrev pub clamp : ℕ → ℤ → ℤ
clamp size z =
    let low = if ltz z (pos 0) then pos 0 else z in
    if ltz (minus size 1) low then minus size 1 else low

-- `ProcessMousePacket` on a screen of the given size. The drawing of the cursor is left out.
unfoldable pub process_mouse_packet : ℕ → ℕ → Mouse → Mouse
process_mouse_packet width height m =
    let (byte1, x) =
      grow (has_flag m.packet0 0b00010000) (has_flag m.packet0 0b01000000) m.packet1
        m.mouse_position.x in
    let (byte2, y) =
      shrink (has_flag m.packet0 0b00100000) (has_flag m.packet0 0b10000000) m.packet2
        m.mouse_position.y in
    let moved = record m {
      packet1 = byte1;
      packet2 = byte2;
      mouse_position = record { x = x; y = y };
      mouse_packet_ready = false;
    } in
    let kept : Point = record { x = clamp width x; y = clamp height y } in
    if not m.mouse_packet_ready
    then m
    else if (width == 0) && (height == 0)
    then moved
    else record moved { mouse_position = kept; mouse_position_old = kept }

-- The switch of `HandlePS2Mouse`.
abbrev pub take_byte : ℕ → Mouse → Mouse
take_byte byte m =
    if m.mouse_cycle == 0
    then (if has_flag byte 0b00001000 then record m { packet0 = byte; mouse_cycle = 1 } else m)
    else if m.mouse_cycle == 1
    then record m { packet1 = byte; mouse_cycle = 2 }
    else if m.mouse_cycle == 2
    then record m { packet2 = byte; mouse_packet_ready = true; mouse_cycle = 0 }
    else m

unfoldable pub handle_ps2_mouse : ℕ → ℕ → ℕ → Mouse → Mouse
handle_ps2_mouse width height byte m =
    let processed = process_mouse_packet width height m in
    if processed.skip then record processed { skip = false } else take_byte byte processed
