-- ===== src/Strings.antt =====
-- kernel/src/library/string: comparison and length of C strings. A string is the memory from its
-- pointer on, one byte for each index; the reads of a loop are bounded by fuel.
pub mod Number
pub mod Decimal
pub mod Laws
pub mod Compare
pub mod Hex
use mates_os.Base.{
  ℕ, zero, suc, ◌+◌, ◌-◌, Bool, true, false, not, ◌&&◌, Option, none, some, ℤ, pos, minus, ltb, leb,
  ◌==◌, if◌then◌else◌,
}

-- The difference of two bytes that are read as `char`, which is signed.
abbrev pub char_minus : ℕ → ℕ → ℤ
char_minus a b = minus (a + (if ltb b 128 then 0 else 256)) (b + (if ltb a 128 then 0 else 256))

unfoldable pub strlen : ℕ → (ℕ → ℕ) → ℕ → Option ℕ
strlen zero s n = none
strlen (suc fuel) s n = let rest = strlen fuel s (n + 1) in if s n == 0 then some n else rest

unfoldable pub strcmp : ℕ → (ℕ → ℕ) → (ℕ → ℕ) → ℕ → Option ℤ
strcmp zero l r i = none
strcmp (suc fuel) l r i =
    let rest = strcmp fuel l r (i + 1) in
    if (l i == r i) && not (l i == 0) then rest else some (minus (l i) (r i))

-- The loop of the bounded `strcmp`, `left` characters before the end of `len`.
unfoldable pub strcmp_len : ℕ → (ℕ → ℕ) → (ℕ → ℕ) → ℕ → ℤ
strcmp_len zero l r i = pos 0
strcmp_len (suc left) l r i =
    let rest = strcmp_len left l r (i + 1) in
    if not (l i == 0) && not (r i == 0)
    then (if l i == r i then rest else char_minus (l i) (r i))
    else pos 0
