-- ===== src/Paging/Manager.antt =====
-- kernel/src/memory_management/PageTableManager.hpp and PageTableManager.cpp: the page table manager.
-- The physical memory is read and written in words of eight bytes, by the address of the word.
pub mod Tree
pub mod Descend
pub mod Leaf
pub mod Map
pub mod Unmap
pub mod Range
use mates_os.Base.{
  ℕ, zero, suc, ◌+◌, ◌-◌, ◌*◌, ◌/◌, ◌%◌, true, ◌==◌, ltb, leb, ◌&&◌, u64, if◌then◌else◌, ◌<<<◌,
  ◌>>>◌,
}
use mates_os.Paging.Entry.{present, read_write, set_flag, get_flag, set_address, get_address, clear}
use mates_os.Paging.Indexer.{indexer}
use mates_os.Paging.Source.{Source}
use mates_os.Base.{Option}
use mates_os.Base.{none}
use mates_os.Base.{some}

abbrev pub Memory : Type 0
Memory = ℕ → ℕ

-- `table->entries[index]`, read and written.
abbrev pub entry : Memory → ℕ → ℕ → ℕ
entry m table index = m (table + index * 8)

abbrev pub store : Memory → ℕ → ℕ → Memory
store m at v a = if at == a then v else m a

abbrev pub set_entry : Memory → ℕ → ℕ → ℕ → Memory
set_entry m table index v = store m (table + index * 8) v

-- `memset(table, 0, 0x1000)`
abbrev pub clear_table : Memory → ℕ → Memory
clear_table m table a = if leb table a && ltb a (table + 0x1000) then 0 else m a

-- The entry for a page or a table: its address, then `Present` and `ReadWrite`.
unfoldable pub point_to : ℕ → ℕ → ℕ
point_to pde address =
    set_flag (set_flag (set_address pde (address >>> 12)) present true) read_write true

-- The table that an entry points to.
abbrev pub table_of : ℕ → ℕ
table_of pde = get_address pde <<< 12

module _ (source : Source) where
  open source use {State, request_page}

  -- The memory and the allocator.
  pub record Space : Type 0 where
    pub memory : Memory
    pub frames : State

  -- One level of `MapMemory`: the table behind an entry, which is made if the entry is not present.
  unfoldable pub descend : ℕ → ℕ → Space → ℕ × Space
  descend table index s =
      let pde = entry s.memory table index in
      if get_flag pde present
      then (table_of pde, s)
      else let (made, frames) = request_page s.frames in
        (
          made,
          record {
            memory = set_entry (clear_table s.memory made) table index (point_to pde made);
            frames = frames;
          },
        )

  unfoldable pub map_memory : ℕ → ℕ → ℕ → Space → ℕ × Space
  map_memory pml4 virtual physical s =
      let x = indexer virtual in
      let (pdp, s1) = descend pml4 x.pdp_i s in
      let (pd, s2) = descend pdp x.pd_i s1 in
      let (pt, s3) = descend pd x.pt_i s2 in
      let pde = entry s3.memory pt x.p_i in
      (virtual, record s3 { memory = set_entry s3.memory pt x.p_i (point_to pde physical) })

-- NULL is 0. The last entry is not tested for `Present`.
unfoldable pub walk_memory : ℕ → ℕ → Memory → ℕ
walk_memory pml4 virtual m =
    let x = indexer virtual in
    let pml4e = entry m pml4 x.pdp_i in
    let pdpe = entry m (table_of pml4e) x.pd_i in
    let pde = entry m (table_of pdpe) x.pt_i in
    let pte = entry m (table_of pde) x.p_i in
    if get_flag pml4e present
    then (if get_flag pdpe present then (if get_flag pde present then table_of pte else 0) else 0)
    else 0

unfoldable pub unmap_memory : ℕ → ℕ → Memory → Memory
unmap_memory pml4 virtual m =
    let x = indexer virtual in
    let pml4e = entry m pml4 x.pdp_i in
    let pdpe = entry m (table_of pml4e) x.pd_i in
    let pde = entry m (table_of pdpe) x.pt_i in
    if get_flag pml4e present
    then (if get_flag pdpe present
        then (if get_flag pde present then set_entry m (table_of pde) x.p_i clear else m)
        else m)
    else m

-- `ROUND_UP(n, multiple)`
abbrev pub round_up : ℕ → ℕ → ℕ
round_up n multiple = if n % multiple == 0 then n else u64 (n - n % multiple + multiple)

module _ (source : Source) where
  open source use {State, request_page}

  unfoldable pub remap_memory : ℕ → ℕ → ℕ → Space source → ℕ × Space source
  remap_memory pml4 old_memory new_memory s =
      let phys_addr = walk_memory pml4 old_memory s.memory in
      if phys_addr == 0
      then (0, s)
      else map_memory source pml4 new_memory phys_addr
          (record s { memory = unmap_memory pml4 old_memory s.memory })

  -- `for (ptr = address; ptr < end; ptr += 0x1000) MapMemory(ptr, ptr)`, on fuel; `none` if the loop has not
  -- ended when it runs out.
  pub identity_map_from : ℕ → ℕ → ℕ → ℕ → Space source → Option (Space source)
  identity_map_from zero pml4 ptr end s = none
  identity_map_from (suc fuel) pml4 ptr end s =
      let rest =
        identity_map_from fuel pml4 (u64 (ptr + 0x1000)) end (map_memory source pml4 ptr ptr s).1 in
      if ltb ptr end then rest else some s

  -- The ranged `IndentityMapMemory`. The size is a multiple of a page by then, so the loop takes at most a
  -- round for each page; one more is the test that ends it.
  unfoldable pub identity_map_memory : ℕ → ℕ → ℕ → Space source → Option (Space source)
  identity_map_memory pml4 address size s =
      let rounded = round_up size 0x1000 in
      identity_map_from (rounded / 0x1000 + 1) pml4 address (u64 (address + rounded)) s
