-- ===== src/Input/Screen.antt =====
-- Where `ProcessMousePacket` of kernel/src/userinput/mouse.cpp moves the pointer.
use mates_os.Base.{
  Bool, ℕ, ℤ, add_nat, sub_nat, ◌<◌, ◌≡◌, if◌then◌else◌, pos, true, Bool-cases, ◌==◌, false, leb,
  ◌&&◌, arith, ◌-◌, negsuc, ◌+◌, inl, refl, inr, ◌⊎◌, ◌≤◌,
}
use mates_os.Input.Mouse.{process_mouse_packet, Mouse, clamp, grow, has_flag, shrink}

-- A coordinate that was to be the number, on a screen that has `size` points: it is on the screen, and is
-- the number, or the end of the screen that the number lies beyond.
abbrev pub IsNearest : ℕ → ℤ → ℕ → Type 0
IsNearest size (pos k) n = ((k < size) × (n ≡ k)) ⊎ ((size ≤ k) × (n + 1 ≡ size))
IsNearest size (negsuc k) n = n ≡ 0

abbrev pub IsOnScreen : ℕ → ℤ → ℤ → Type 0
IsOnScreen size aim z = (n : ℕ) × (z ≡ pos n) × (n < size) × IsNearest size aim n

clamp-IsOnScreen : (size : ℕ) (z : ℤ) → 0 < size → IsOnScreen size z (clamp size z)
clamp-IsOnScreen size (pos n) h = elim (Bool-cases (leb (size - 1 + 1) n)) [
  | inl e ↦ (size - 1, ground arith, omega arith, inr (ground arith, omega arith))
  | inr e ↦ (n, ground arith, ground arith, inl (ground arith, refl))
]
clamp-IsOnScreen size (negsuc n) h = (0, ground arith, h, refl)

-- The nine-bit two's complement number of a packet, added to and taken from a coordinate.
abbrev pub plus_nine : Bool → ℕ → ℤ → ℤ
plus_nine negative byte z = sub_nat (add_nat z byte) (if negative then 256 else 0)

abbrev pub minus_nine : Bool → ℕ → ℤ → ℤ
minus_nine negative byte z = add_nat (sub_nat z byte) (if negative then 256 else 0)

grow_lem :
    (n : Bool) (b : ℕ) (z : ℤ)
    → b < 256
    → (n ≡ true → 0 < b)
    → (grow n false b z).1 ≡ plus_nine n b z
grow_lem true b (pos k) h q = let q' = q refl in ground arith
grow_lem true b (negsuc k) h q = let q' = q refl in ground arith
grow_lem false b (pos k) h q = ground arith
grow_lem false b (negsuc k) h q = ground arith

shrink_lem :
    (n : Bool) (b : ℕ) (z : ℤ)
    → b < 256
    → (n ≡ true → 0 < b)
    → (shrink n false b z).1 ≡ minus_nine n b z
shrink_lem true b (pos k) h q = let q' = q refl in ground arith
shrink_lem true b (negsuc k) h q = let q' = q refl in ground arith
shrink_lem false b (pos k) h q = ground arith
shrink_lem false b (negsuc k) h q = ground arith

-- A packet without overflow, whose bytes are not zero where their sign is negative, moves the
-- pointer by the two nine-bit two's complement numbers of the packet, to the right and up, on a screen
-- that is not empty: each coordinate is then on the screen, and is the sum, or else the end of the screen
-- that the sum lies beyond.
pub process_mouse_packet-moves :
    (w h : ℕ) (m : Mouse)
    → m.mouse_packet_ready ≡ true
    → 0 < w
    → 0 < h
    → m.packet1 < 256
    → m.packet2 < 256
    → has_flag m.packet0 0b01000000 ≡ false
    → has_flag m.packet0 0b10000000 ≡ false
    → (has_flag m.packet0 0b00010000 ≡ true → 0 < m.packet1)
    → (has_flag m.packet0 0b00100000 ≡ true → 0 < m.packet2)
    → IsOnScreen w
        (plus_nine (has_flag m.packet0 0b00010000) m.packet1 m.mouse_position.x)
        (process_mouse_packet w h m).mouse_position.x
      × IsOnScreen h
          (minus_nine (has_flag m.packet0 0b00100000) m.packet2 m.mouse_position.y)
          (process_mouse_packet w h m).mouse_position.y
unfolding process_mouse_packet
process_mouse_packet-moves w h m r p q b1 b2 o1 o2 n1 n2 =
    let e : ((w == 0) && (h == 0)) ≡ false = ground arith in
    rw (r, e, o1, o2)
      (
        aimed w (grow_lem (has_flag m.packet0 0b00010000) m.packet1 m.mouse_position.x b1 n1)
            (clamp-IsOnScreen w _ p),
        aimed h (shrink_lem (has_flag m.packet0 0b00100000) m.packet2 m.mouse_position.y b2 n2)
            (clamp-IsOnScreen h _ q),
      )
  where
    aimed : (size : ℕ) {a b z : ℤ} → a ≡ b → IsOnScreen size a z → IsOnScreen size b z
    aimed size {a} {b} {z} e on = rw (← e) on
