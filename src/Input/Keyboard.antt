-- ===== src/Input/Keyboard.antt =====
-- kernel/src/userinput/kbScancodeTranslation.cpp and keyboard.cpp.
pub mod Laws
use mates_os.Base.{
  Bool, List, ℕ, if◌then◌else◌, ◌∷◌, [], leb, ltb, ◌==◌, get_or, true, ◌&&◌, false, ◌-◌, ◌||◌,
}

-- `ASCIITable`
abbrev pub ascii_table : List ℕ
ascii_table =
    0 ∷ 0 ∷ 49 ∷ 50 ∷ 51 ∷ 52 ∷ 53 ∷ 54 ∷ 55 ∷ 56 ∷ 57 ∷ 48 ∷ 45 ∷ 61 ∷ 0 ∷ 0 ∷ 113 ∷ 119 ∷ 101
    ∷ 114 ∷ 116 ∷ 121 ∷ 117 ∷ 105 ∷ 111 ∷ 112 ∷ 91 ∷ 93 ∷ 0 ∷ 0 ∷ 97 ∷ 115 ∷ 100 ∷ 102 ∷ 103 ∷ 104
    ∷ 106 ∷ 107 ∷ 108 ∷ 59 ∷ 39 ∷ 96 ∷ 0 ∷ 92 ∷ 122 ∷ 120 ∷ 99 ∷ 118 ∷ 98 ∷ 110 ∷ 109 ∷ 44 ∷ 46 ∷ 47
    ∷ 0 ∷ 42 ∷ 0 ∷ 32 ∷ []

-- `uppercase` on a character of the table: 'a' is 97, 'z' is 122, '0' is 48 and '9' is 57.
abbrev pub shifted : ℕ → ℕ
shifted char =
    if leb 97 char && leb char 122
    then char - 32
    else if leb 48 char && leb char 57
    then char - 16
    else char

-- `past` is the byte that follows the table in memory.
unfoldable pub translate : ℕ → ℕ → Bool → ℕ
translate past scancode uppercase =
    if ltb 58 scancode
    then 0
    else (let char = get_or ascii_table scancode past in if uppercase then shifted char else char)

pub record Shift : Type 0 where
  pub is_left_shift_pressed : Bool
  pub is_right_shift_pressed : Bool

-- What a scancode makes the machine do: shut down or, with a character that is not shown, go on.
pub data Key : Type 0 where
  shutdown : Key
  nothing : Key
  typed : ℕ → Key

unfoldable pub handle_keyboard : ℕ → ℕ → Shift → Shift × Key
handle_keyboard past scancode s =
    if scancode == 0x2A
    then (record s { is_left_shift_pressed = true }, nothing)
    else if scancode == 0xAA
    then (record s { is_left_shift_pressed = false }, nothing)
    else if scancode == 0x36
    then (record s { is_right_shift_pressed = true }, nothing)
    else if scancode == 0xB6
    then (record s { is_right_shift_pressed = false }, nothing)
    else if scancode == 0x01
    then (s, shutdown)
    else if (scancode == 0x1C) || ((scancode == 0x39) || (scancode == 0x0E))
    then (s, nothing)
    else (let ascii =
          translate past scancode (s.is_left_shift_pressed || s.is_right_shift_pressed) in
        (s, if ascii == 0 then nothing else typed ascii))
