-- ===== src/Blocks.antt =====
-- kernel/src/library/memory: blocks of memory, which is read and written by the address of a byte.
pub mod Laws
use mates_os.Base.{ℕ, if◌then◌else◌, suc, ℤ, ltb, pos, ◌+◌, ◌==◌, ltz, negsuc, zero, ◌-◌}

abbrev pub write_at : (ℕ → ℕ) → ℕ → ℕ → ℕ → ℕ
write_at m at value a = if at == a then value else m a

-- The loop of `memset`, `left` bytes before its end.
unfoldable pub memset_loop : ℕ → ℕ → ℕ → ℕ → (ℕ → ℕ) → ℕ → ℕ
memset_loop zero start value i m = m
memset_loop (suc left) start value i m =
    memset_loop left start value (i + 1) (write_at m (start + i) value)

unfoldable pub memset : ℕ → ℕ → ℕ → (ℕ → ℕ) → ℕ → ℕ
memset start value num m = memset_loop num start value 0 m

-- The memory and the pointer that `memcpy` returns, which is the one that the loop moved.
unfoldable pub memcpy : ℕ → ℕ → ℕ → (ℕ → ℕ) → (ℕ → ℕ) × ℕ
memcpy dest src zero m = (m, dest)
memcpy dest src (suc n) m = memcpy (dest + 1) (src + 1) n (write_at m dest (m src))

-- The two loops of `memmove`, `left` bytes before their end: into the array `temp`, and out of it.
unfoldable pub copy_loop : ℕ → ℕ → ℕ → ℕ → (ℕ → ℕ) → ℕ → ℕ
copy_loop zero i to from m = m
copy_loop (suc left) i to from m =
    copy_loop left (i + 1) to from (write_at m (to + i) (m (from + i)))

-- `temp` is what `new char[n]` gives: the address of the array, or NULL, which is not tested; `m` is the
-- memory after it. The array is given back at the end.
unfoldable pub memmove : ℕ → ℕ → ℕ → ℕ → (ℕ → ℕ) → (ℕ → ℕ) × ℕ
memmove dest src n temp m = (copy_loop n 0 dest temp (copy_loop n 0 temp src m), dest)

-- The bytes are compared as `char`, which is signed.

abbrev signed : ℕ → ℤ
signed c = if ltb c 128 then pos c else negsuc (255 - c)

unfoldable pub memcmp : ℕ → (ℕ → ℕ) → ℕ → ℕ → ℤ
memcmp zero m str1 str2 = pos 0
memcmp (suc count) m str1 str2 =
    let rest = memcmp count m (str1 + 1) (str2 + 1) in
    if m str1 == m str2
    then rest
    else if ltz (signed (m str1)) (signed (m str2))
    then negsuc 0
    else pos 1
