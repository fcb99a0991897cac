-- ===== src/Strings/Number.antt =====
-- kernel/src/library/string/to_string.cpp: numbers written in decimal into a static buffer.
use mates_os.Base.{
  ℕ, zero, suc, ◌+◌, ◌-◌, ◌/◌, ◌%◌, ◌^◌, Option, none, some, ltb, ◌==◌, if◌then◌else◌, u8, u64,
}
use mates_os.Base.Partial.{◌>>=◌}

abbrev pub put : (ℕ → ℕ) → ℕ → ℕ → ℕ → ℕ
put buffer at c i = if at == i then c else buffer i

-- `while (sizeTest / 10 > 0)`, on fuel.
unfoldable pub size_loop : ℕ → ℕ → ℕ → Option ℕ
size_loop zero size_test size = none
size_loop (suc fuel) size_test size =
    let rest = size_loop fuel (size_test / 10) (u8 (size + 1)) in
    if ltb 0 (size_test / 10) then rest else some size

-- `while (value / 10 > 0)` and the last digit, `start` characters into the buffer.
unfoldable pub digit_loop : ℕ → ℕ → ℕ → ℕ → ℕ → (ℕ → ℕ) → Option (ℕ → ℕ)
digit_loop zero start size index value buffer = none
digit_loop (suc fuel) start size index value buffer =
    let written = put buffer (start + size - index) (value % 10 + 48) in
    let rest = digit_loop fuel start size (u8 (index + 1)) (value / 10) written in
    if ltb 0 (value / 10) then rest else some written

-- `size`, the digits and the terminator, `start` characters into the buffer.
unfoldable pub to_string_at : ℕ → ℕ → (ℕ → ℕ) → Option (ℕ → ℕ)
to_string_at start value buffer = do
  size ← size_loop 20 value 0
  written ← digit_loop 20 start size 0 value buffer
  some (put written (start + size + 1) 0)

-- `to_string(uint64_t)`: the buffer is `uintTo_StringOutput`.
unfoldable pub to_string : ℕ → (ℕ → ℕ) → Option (ℕ → ℕ)
to_string value buffer = to_string_at 0 value buffer

-- The loop and the last digit of `to_string(int64_t)`, on a two's complement word. The quotient of a
-- negative word is not above 0, so the loop ends at once, and the remainder, which is not above 0 then, is
-- cut to a byte.
unfoldable pub digit_loop_int : ℕ → ℕ → ℕ → ℕ → ℕ → (ℕ → ℕ) → Option (ℕ → ℕ)
digit_loop_int fuel start size index value buffer =
    let remainder = u8 (256 - (2 ^ 64 - value) % 10) in
    if ltb value (2 ^ 63)
    then digit_loop fuel start size index value buffer
    else some (put buffer (start + size - index) (u8 (remainder + 48)))

-- `to_string(int64_t)` after the sign; `size` is counted on the unsigned word.
unfoldable pub to_string_int_at : ℕ → ℕ → (ℕ → ℕ) → Option (ℕ → ℕ)
to_string_int_at start value buffer = do
  size ← size_loop 20 value 0
  written ← digit_loop_int 20 start size 0 value buffer
  some (put written (start + size + 1) 0)

-- `to_string(int64_t)` on a two's complement word: the buffer is `intTo_StringOutput`.
unfoldable pub to_string_int : ℕ → (ℕ → ℕ) → Option (ℕ → ℕ)
to_string_int value buffer =
    if ltb value (2 ^ 63)
    then to_string_int_at 0 value buffer
    else to_string_int_at 1 (u64 (2 ^ 64 - value)) (put buffer 0 45)
