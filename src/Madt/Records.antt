-- ===== src/Madt/Records.antt =====
-- The loop of `MADTInit` in kernel/src/apic/madt.cpp over the records of the table.
use mates_os.Base.Partial.{◌>>=◌}
use mates_os.Base.{
  ℕ, List, Option, if◌then◌else◌, none, ltb, suc, ◌==◌, length, some, ◌+◌, sub64, ◌++◌, ◌∷◌, [],
  zero,
}
use mates_os.Paging.Source.{Source}
use mates_os.Paging.Manager.{Space, map_memory}
use mates_os.Acpi.{read32, sdt_length, read64}

-- `sizeof(ACPI::MADTHeader)`
abbrev pub madt_header_size : ℕ
madt_header_size = 44

-- An array of fixed size, up to its count. The source does not test the size: a write past the
-- end is `none`.
abbrev pub push : ℕ → ℕ → List ℕ → Option (List ℕ)
push max x xs = if ltb (length xs) max then some (xs ++ x ∷ []) else none

-- How far the walk over the records came: to the end of the table, or to a record that does not fit the
-- array of its type, behind which the source writes, or to none of both in the rounds it was given.
pub data Walk {ℓ} (A : Type ℓ) : Type ℓ where
  ended : A → Walk A
  past_array : Walk A
  unfinished : Walk A

module _ (source : Source) where
  -- `MADTInformation`, each table by the addresses of its records, and the address space.
  pub record Information : Type 0 where
    pub local_apic_ptr : ℕ
    pub processors : List ℕ
    pub ioapics : List ℕ
    pub isos : List ℕ
    pub nmis : List ℕ
    pub space : Space source

  -- The switch over the type of the record at `header`.
  unfoldable pub madt_entry : ℕ → (ℕ → ℕ) → ℕ → Information → Option Information
  madt_entry pml4 m header s =
      if m header == 0
      then (do xs ← push 128 header s.processors; some (record s { processors = xs }))
      else if m header == 1
      then (do
        xs ← push 8 header s.ioapics
        some (record s {
          ioapics = xs;
          space =
              (map_memory source pml4 (read32 m (header + 4)) (read32 m (header + 4)) s.space).1;
        }))
      else if m header == 2
      then (do xs ← push 16 header s.isos; some (record s { isos = xs }))
      else if m header == 4
      then (do xs ← push 8 header s.nmis; some (record s { nmis = xs }))
      else if m header == 5
      then some (record s { local_apic_ptr = read64 m (header + 4) })
      else some s

  -- `while (t < madt->Header.Length - sizeof(ACPI::MADTHeader))`, on fuel.
  unfoldable pub madt_loop : ℕ → (ℕ → ℕ) → ℕ → ℕ → ℕ → Information → Walk Information
  madt_loop pml4 m madt zero t s = unfinished
  madt_loop pml4 m madt (suc fuel) t s =
      let header = madt + madt_header_size + t in
      let rest : Walk Information = elim (madt_entry pml4 m header s) [
        | none ↦ past_array
        | some s' ↦ madt_loop pml4 m madt fuel (t + m (header + 1)) s'
      ] in
      if ltb t (sub64 (sdt_length m madt) madt_header_size) then rest else ended s
