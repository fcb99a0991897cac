-- ===== src/Strings/Hex.antt =====
-- kernel/src/library/string/to_string.cpp: the four `to_hstring`, which differ in the width alone.
use native.Mathlib.Nat.{pow-suc, div-div-eq-div-mul}
use mates_os.Base.{
  zero, suc, ℕ, bit_and, ◌*◌, ◌+◌, ◌<◌, ◌>>>◌, if◌then◌else◌, ◌%◌, ◌-◌, ◌/◌, ◌≡◌, ltb, ◌≤◌, arith,
  ◌^◌, ap, ◌∙◌, Bool-cases, ◌==◌, false, inl, inr, sym, leb, refl, ◌&&◌,
}
use mates_os.Strings.Number.{put}
use mates_os.Bits.{bit_and-field_mask, bit_and-low_mask}

-- `tmp + (tmp > 9 ? 55 : '0')`
abbrev pub hex_char : ℕ → ℕ
hex_char tmp = tmp + (if ltb 9 tmp then 55 else 48)

-- Byte `i` of the word, read through the pointer to it.
abbrev byte_of : ℕ → ℕ → ℕ
byte_of value i = value >>> (8 * i) % 256

-- The loop body, on the buffer.
abbrev write_byte : ℕ → ℕ → ℕ → (ℕ → ℕ) → ℕ → ℕ
write_byte size value i buffer =
    let high = bit_and (byte_of value i) 0xF0 >>> 4 in
    let low = bit_and (byte_of value i) 0x0F in
    put (put buffer (size - (i * 2 + 1)) (hex_char high)) (size - i * 2) (hex_char low)

-- `for (i; i < size / 2 + 1; i++)`, with `left` passes before its end.
unfoldable pub hex_loop : ℕ → ℕ → ℕ → ℕ → (ℕ → ℕ) → ℕ → ℕ
hex_loop zero size value i buffer = buffer
hex_loop (suc left) size value i buffer =
    hex_loop left size value (i + 1) (write_byte size value i buffer)

abbrev to_hstring_size : ℕ → ℕ → (ℕ → ℕ) → ℕ → ℕ
to_hstring_size size value buffer = put (hex_loop (size / 2 + 1) size value 0 buffer) (size + 1) 0

-- The buffer is `hexTo_StringOutput`.
abbrev pub to_hstring64 : ℕ → (ℕ → ℕ) → ℕ → ℕ
to_hstring64 value buffer = to_hstring_size (8 * 2 - 1) value buffer

-- The buffer is `hexTo_StringOutput32`.
abbrev pub to_hstring32 : ℕ → (ℕ → ℕ) → ℕ → ℕ
to_hstring32 value buffer = to_hstring_size (4 * 2 - 1) value buffer

-- The buffer is `hexTo_StringOutput16`.
abbrev pub to_hstring16 : ℕ → (ℕ → ℕ) → ℕ → ℕ
to_hstring16 value buffer = to_hstring_size (2 * 2 - 1) value buffer

-- The buffer is `hexTo_StringOutput8`.
abbrev pub to_hstring8 : ℕ → (ℕ → ℕ) → ℕ → ℕ
to_hstring8 value buffer = to_hstring_size (1 * 2 - 1) value buffer

-- The value of a hexadecimal digit: '0' is 48, '9' 57, 'A' 65 and 'F' 70. 16 is no digit.
abbrev pub hex_value : ℕ → ℕ
hex_value c =
    if leb 48 c && leb c 57 then c - 48 else if leb 65 c && leb c 70 then c - 65 + 10 else 16

-- The `count` characters before the terminator are the hexadecimal form of `v`, then it ends.
abbrev pub IsHex : (ℕ → ℕ) → ℕ → ℕ → Type 0
IsHex b count v =
    ((j : ℕ) → j < count → hex_value (b j) ≡ v / 16 ^ (count - 1 - j) % 16) × (b count ≡ 0)

hex_value-hex_char : (t : ℕ) → t < 16 → hex_value (hex_char t) ≡ t
hex_value-hex_char t h = ground arith

pow_four : (a : ℕ) → 2 ^ suc (suc (suc (suc a))) ≡ 2 ^ a * 16
pow_four a =
    omega (
      arith,
      pow-suc 2 a,
      pow-suc 2 (suc a),
      pow-suc 2 (suc (suc a)),
      pow-suc 2 (suc (suc (suc a))),
    )

four_bits : (k : ℕ) → 2 ^ (4 * k) ≡ 16 ^ k
four_bits zero = refl
four_bits (suc k) =
    let e : 2 ^ (4 * suc k) ≡ 2 ^ (4 * k) * 16 =
      ap (λ (t : ℕ). 2 ^ t) (omega arith) ∙ pow_four (4 * k) in
    omega (arith, e, four_bits k, pow-suc 16 k)

high_nibble : (v i : ℕ) → bit_and (byte_of v i) 0xF0 >>> 4 ≡ v >>> (4 * (i * 2 + 1)) % 16
high_nibble v i =
    let e : bit_and (byte_of v i) 0xF0 ≡ byte_of v i / 16 % 16 * 16 =
      bit_and-field_mask 4 4 (byte_of v i) in
    let q : 2 ^ (4 * (i * 2 + 1)) ≡ 2 ^ (8 * i) * 16 =
      ap (λ (t : ℕ). 2 ^ t) (omega arith) ∙ pow_four (8 * i) in
    let d : v / 2 ^ (8 * i) / 16 ≡ v / 2 ^ (4 * (i * 2 + 1)) =
      div-div-eq-div-mul v (2 ^ (8 * i)) 16 ∙ ap (λ (t : ℕ). v / t) (sym q) in
    omega (arith, e, ap (λ (t : ℕ). t % 16) d)

low_nibble : (v i : ℕ) → bit_and (byte_of v i) 0x0F ≡ v >>> (4 * (i * 2)) % 16
low_nibble v i =
    let e : bit_and (byte_of v i) 0x0F ≡ byte_of v i % 16 = bit_and-low_mask 4 (byte_of v i) in
    let q : 2 ^ (4 * (i * 2)) ≡ 2 ^ (8 * i) = ap (λ (t : ℕ). 2 ^ t) (omega arith) in
    omega (arith, e, ap (λ (t : ℕ). v / t % 16) q)

hex_loop_lem :
    (left m i v : ℕ) (b : ℕ → ℕ)
    → i + left ≡ m
    → ((j : ℕ) → 2 * left ≤ j → j < 2 * m → b j ≡ hex_char (v >>> (4 * (2 * m - 1 - j)) % 16))
    → (j : ℕ) → j < 2 * m
    → hex_loop left (2 * m - 1) v i b j ≡ hex_char (v >>> (4 * (2 * m - 1 - j)) % 16)
unfolding hex_loop
hex_loop_lem zero m i v b e h j p = h j (omega arith) p
hex_loop_lem (suc left) m i v b e h j p =
    hex_loop_lem left m (i + 1) v (write_byte (2 * m - 1) v i b) (omega arith) step j p
  where
    step :
        (j : ℕ)
        → 2 * left ≤ j
        → j < 2 * m
        → write_byte (2 * m - 1) v i b j ≡ hex_char (v >>> (4 * (2 * m - 1 - j)) % 16)
    step j q r = elim (Bool-cases (2 * m - 1 - i * 2 == j)) [
      | inl x ↦
          let t : i * 2 ≡ 2 * m - 1 - j = ground arith in
          rw x (ap hex_char (low_nibble v i ∙ ap (λ (t : ℕ). v >>> (4 * t) % 16) t))
      | inr x ↦ elim (Bool-cases (2 * m - 1 - (i * 2 + 1) == j)) [
        | inl y ↦
            let t : i * 2 + 1 ≡ 2 * m - 1 - j = ground arith in
            rw (x, y) (ap hex_char (high_nibble v i ∙ ap (λ (t : ℕ). v >>> (4 * t) % 16) t))
        | inr y ↦ rw (x, y) (h j (ground arith) r)
      ]
    ]

hex_digit : (v k c : ℕ) → c ≡ hex_char (v >>> (4 * k) % 16) → hex_value c ≡ v / 16 ^ k % 16
hex_digit v k c e =
    ap hex_value e
    ∙ (hex_value-hex_char (v >>> (4 * k) % 16) (omega arith)
        ∙ ap (λ (t : ℕ). v / t % 16) (four_bits k))

to_hstring_lem : (m v : ℕ) (b : ℕ → ℕ) → 0 < m → IsHex (to_hstring_size (2 * m - 1) v b) (2 * m) v
to_hstring_lem m v b h =
    let e : 2 * m - 1 + 1 ≡ 2 * m = omega arith in
    let t : (2 * m - 1) / 2 + 1 ≡ m = omega arith in
    (
      (λ j p.
          let x : (2 * m - 1 + 1 == j) ≡ false = ground arith in
          hex_digit v (2 * m - 1 - j) (to_hstring_size (2 * m - 1) v b j)
            (rw (x, t) (hex_loop_lem m m 0 v b (omega arith) (λ j q r. ground arith) j p))),
      ground arith,
    )

-- The four `to_hstring` leave 16, 8, 4 and 2 characters in their buffers, which are the
-- hexadecimal digits of the number, from '0' to '9' and 'A' to 'F', the highest first, and then the
-- terminator, whatever the buffers held before.
pub to_hstring-IsHex :
    (v : ℕ) (b : ℕ → ℕ)
    → IsHex (to_hstring64 v b) 16 v
      × IsHex (to_hstring32 v b) 8 v
      × IsHex (to_hstring16 v b) 4 v
      × IsHex (to_hstring8 v b) 2 v
to_hstring-IsHex v b = (
  to_hstring_lem 8 v b (omega arith),
  to_hstring_lem 4 v b (omega arith),
  to_hstring_lem 2 v b (omega arith),
  to_hstring_lem 1 v b (omega arith),
)
