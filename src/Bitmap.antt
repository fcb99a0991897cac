-- ===== src/Bitmap.antt =====
-- kernel/src/utils/Bitmap.hpp and Bitmap.cpp: one bit for each physical page, highest bit first.
pub mod Laws
pub mod Count
use mates_os.Base.{
  ℕ, ◌-◌, ◌*◌, ◌/◌, ◌%◌, bit_and, bit_or, Bool, false, true, ltb, ◌==◌, if◌then◌else◌, u64, ◌>>>◌,
}

-- `Buffer` is the memory from the pointer on, so an index past `Size` reads what lies behind it.
pub record Bitmap : Type 0 where
  pub size : ℕ
  pub buffer : ℕ → ℕ

-- `0b10000000 >> bitIndex`
abbrev pub bit_indexer : ℕ → ℕ
bit_indexer index = 0b10000000 >>> (index % 8)

abbrev pub store : (ℕ → ℕ) → ℕ → ℕ → ℕ → ℕ
store buffer at v i = if at == i then v else buffer i

unfoldable pub get : Bitmap → ℕ → Bool
get b index =
    if ltb (u64 (b.size * 8)) index
    then false
    else ltb 0 (bit_and (b.buffer (index / 8)) (bit_indexer index))

-- `Buffer[byteIndex] &= ~bitIndexer` on a byte, and the write of `Set` that follows it.
abbrev pub set_in_byte : ℕ → ℕ → Bool → ℕ
set_in_byte byte indexer value =
    let cleared = bit_and byte (255 - indexer) in if value then bit_or cleared indexer else cleared

unfoldable pub set : Bitmap → ℕ → Bool → Bitmap × Bool
set b index value = if ltb (u64 (b.size * 8)) index then (b, false) else (
  record b {
    buffer =
        store b.buffer (index / 8) (set_in_byte (b.buffer (index / 8)) (bit_indexer index) value);
  },
  true,
)
