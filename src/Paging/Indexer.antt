-- ===== src/Paging/Indexer.antt =====
-- kernel/src/memory_management/PageMapIndexer.hpp and PageMapIndexer.cpp: the four table indices of a
-- virtual address.
use mates_os.Base.{ℕ, ◌+◌, ◌*◌, ◌/◌, ◌%◌, ◌^◌, ◌<◌, ◌≡◌, arith, bit_and, ◌>>>◌}
use mates_os.Bits.{bit_and-low_mask}

-- `PageMapIndexer`
pub record Indexer : Type 0 where
  pub pdp_i : ℕ
  pub pd_i : ℕ
  pub pt_i : ℕ
  pub p_i : ℕ

unfoldable pub indexer : ℕ → Indexer
indexer virtual_address =
    let v1 = virtual_address >>> 12 in
    let v2 = v1 >>> 9 in
    let v3 = v2 >>> 9 in
    let v4 = v3 >>> 9 in
    record {
      pdp_i = bit_and v4 0x1ff;
      pd_i = bit_and v3 0x1ff;
      pt_i = bit_and v2 0x1ff;
      p_i = bit_and v1 0x1ff;
    }

-- The four indices of an address are below 512, and together they are the number of its virtual
-- page, cut to 36 bits.
pub indexer-page :
    (v : ℕ)
    → let x = indexer v in
      (x.pdp_i < 512)
      × (x.pd_i < 512)
      × (x.pt_i < 512)
      × (x.p_i < 512)
      × (((x.pdp_i * 512 + x.pd_i) * 512 + x.pt_i) * 512 + x.p_i ≡ v / 4096 % 2 ^ 36)
unfolding indexer
indexer-page v = omega (
  arith,
  bit_and-low_mask 9 (v / 2 ^ 12),
  bit_and-low_mask 9 (v / 2 ^ 12 / 2 ^ 9),
  bit_and-low_mask 9 (v / 2 ^ 12 / 2 ^ 9 / 2 ^ 9),
  bit_and-low_mask 9 (v / 2 ^ 12 / 2 ^ 9 / 2 ^ 9 / 2 ^ 9),
)
