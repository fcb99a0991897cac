-- ===== src/Madt/Init.antt =====
-- `MADTInit` of kernel/src/apic/madt.cpp on a table whose records end where it ends.
use mates_os.Paging.Source.{Source}
use mates_os.Base.{
  ℕ, List, length, [], ◌+◌, ◌<◌, ◌≤◌, max, sym, append-nil, sub64, ◌^◌, arith, ◌≡◌, ok, some, ◌∷◌,
  not, suc, ltb, false, ◌==◌, ge→ltb, true, ◌-◌, ap, lt→ltb, refl, zero, none, Option, Bool,
  Bool-cases, inl, ◌||◌, ◌⊎◌, inr,
}
use mates_os.Madt.{madt_init, Information, sdt_length, map_memory, Walk}
use mates_os.Madt.Records.{
  madt_loop, Information, madt_header_size, madt_entry, ended, unfinished, past_array, Walk,
}
use mates_os.Madt.Laws.{Collects, Records, FitsTables, overridden, step}
use mates_os.Acpi.{sdt_length, read32}
use mates_os.Paging.Manager.{map_memory}
use mates_os.Acpi.Laws.{IsValid, check_header-IsValid}
use mates_os.Paging.Manager.Range.{identity_map_memory-ends}

module _ (source : Source) where
  nothing-Collects : (m : ℕ → ℕ) (s : Information source) → Collects source m [] s s
  nothing-Collects m s = (
    sym (append-nil s.processors),
    sym (append-nil s.ioapics),
    sym (append-nil s.isos),
    sym (append-nil s.nmis),
    refl,
  )

  loop-Collects :
      (fuel pml4 : ℕ) (m : ℕ → ℕ) (madt t : ℕ) (hs : List ℕ) (s : Information source)
      → length hs < fuel
      → Records m madt t hs
      → FitsTables source m hs s
      → (s' : Information source) × (madt_loop source pml4 m madt fuel t s ≡ ended s')
        × Collects source m hs s s'
  unfolding madt_loop
  loop-Collects zero pml4 m madt t hs s p r f = ground arith
  loop-Collects (suc fuel) pml4 m madt t [] s p r f =
      let e : ltb t (sub64 (sdt_length m madt) madt_header_size) ≡ false = ge→ltb _ _ r in
      (s, rw e refl, nothing-Collects m s)
  loop-Collects (suc fuel) pml4 m madt t (h ∷ hs) s p (q, e, l, r) f =
      let b : ltb t (sub64 (sdt_length m madt) madt_header_size) ≡ true = lt→ltb _ _ q in
      let (s1, x, f1, g) = step source pml4 m h hs s f in
      let (s', y, c) = loop-Collects fuel pml4 m madt (t + m (h + 1)) hs s1 (omega arith) r f1 in
      (s', rw (b, sym e, x, sym e) y, g s' c)

  Records-short :
      (m : ℕ → ℕ) (madt t : ℕ) (hs : List ℕ)
      → Records m madt t hs
      → length hs + t ≤ max t (sub64 (sdt_length m madt) 44)
  Records-short m madt t [] r = omega arith
  Records-short m madt t (h ∷ hs) (q, e, l, r) =
      omega (arith, Records-short m madt (t + m (h + 1)) hs r)

  -- `MADTInit` on a table that passes its checks, that holds its header and then records without
  -- one of length 0, and no more records of a type than its table has room for: it returns, with
  -- every record in the table of its type, in order, behind what was there; the local controller
  -- is at the address of the header or of the last override, and the result is whether it is not NULL.
  pub madt_init-Collects :
      (pml4 : ℕ) (m : ℕ → ℕ) (madt : ℕ) (hs : List ℕ) (s : Information source)
      → IsValid m madt
      → 44 ≤ sdt_length m madt
      → sdt_length m madt < 2 ^ 64
      → Records m madt 0 hs
      → FitsTables source m hs s
      → (s' : Information source) × (madt_init source pml4 m madt s
          ≡ ok (ended (s', not (overridden m hs (read32 m (madt + 36)) == 0))))
        × Collects source m hs (record s { local_apic_ptr = read32 m (madt + 36) }) s'
  unfolding madt_init
  madt_init-Collects pml4 m madt hs s v l u r f =
      let (mapped, ends) =
        identity_map_memory-ends source pml4 madt (sdt_length m madt) s.space u in
      let start : Information source = record s {
        space = mapped;
        local_apic_ptr = read32 m (madt + 36);
      } in
      let few = Records-short m madt 0 hs r in
      let n : sub64 (sdt_length m madt) 44 ≡ sdt_length m madt - 44 = omega arith in
      let (t, y, (p, i, o, k, z)) =
        loop-Collects (sdt_length m madt + 1) pml4 m madt 0 hs start (omega arith) r f in
      let d : not (t.local_apic_ptr == 0) ≡ not (overridden m hs (read32 m (madt + 36)) == 0) =
        ap (λ (a : ℕ). not (a == 0)) z in
      (
        record t { space = (map_memory source pml4 t.local_apic_ptr t.local_apic_ptr t.space).1 },
        rw (check_header-IsValid m madt _ _ v, ends, y, d) refl,
        (p, i, o, k, z),
      )

  -- The types of the records that `MADTInit` puts into an array.
  abbrev pub is_stored : ℕ → Bool
  is_stored type = type == 0 || (type == 1 || (type == 2 || type == 4))

  stored_if_past :
      (pml4 : ℕ) (m : ℕ → ℕ) (h : ℕ) (s : Information source)
      → madt_entry source pml4 m h s ≡ none
      → is_stored (m h) ≡ true
  unfolding madt_entry
  stored_if_past pml4 m h s e = elim (Bool-cases (m h == 0)) [
    | inl t ↦ rw t refl
    | inr t0 ↦ elim (Bool-cases (m h == 1)) [
      | inl t ↦ rw (t0, t) refl
      | inr t1 ↦ elim (Bool-cases (m h == 2)) [
        | inl t ↦ rw (t0, t1, t) refl
        | inr t2 ↦ elim (Bool-cases (m h == 4)) [
          | inl t ↦ rw (t0, t1, t2, t) refl
          | inr t4 ↦ elim (Bool-cases (m h == 5)) [
            | inl t ↦ absurd (some_not_none (rw (t0, t1, t2, t4, t) at e))
            | inr t5 ↦ absurd (some_not_none (rw (t0, t1, t2, t4, t5) at e))
          ]
        ]
      ]
    ]
  ]
    where
      some_not_none : {x : Information source} → some x ≡ none → ⊥
      some_not_none q = ground (arith, q)

  -- Where the walk of `MADTInit` comes to a record of length 0 before the end of the table, it does
  -- not come to the end of the table, in any number of rounds: either it is still not finished, or it has
  -- gone past the array for records of this type, which only a record of type 0, 1, 2 or 4 can make it do.
  pub madt_loop-stuck :
      (fuel pml4 : ℕ) (m : ℕ → ℕ) (madt t : ℕ) (s : Information source)
      → t < sub64 (sdt_length m madt) 44
      → m (madt + 44 + t + 1) ≡ 0
      → (madt_loop source pml4 m madt fuel t s ≡ unfinished)
        ⊎ ((is_stored (m (madt + 44 + t)) ≡ true)
            × (madt_loop source pml4 m madt fuel t s ≡ past_array))
  unfolding madt_loop
  madt_loop-stuck zero pml4 m madt t s p z = inl refl
  madt_loop-stuck (suc fuel) pml4 m madt t s p z =
      let b : ltb t (sub64 (sdt_length m madt) madt_header_size) ≡ true = lt→ltb _ _ p in
      let e : t + m (madt + 44 + t + 1) ≡ t = omega (arith, z) in
      rw b (
        after (madt_entry source pml4 m (madt + 44 + t) s) (stored_if_past pml4 m (madt + 44 + t) s)
          (λ s'. rw e (madt_loop-stuck fuel pml4 m madt t s' p z)))
    where
      after :
          {f : Information source → Walk (Information source)} {stored : Bool}
          (o : Option (Information source))
          → (o ≡ none → stored ≡ true)
          → ((s' : Information source)
              → (f s' ≡ unfinished) ⊎ ((stored ≡ true) × (f s' ≡ past_array)))
          → (elim o [ none ↦ past_array | some s' ↦ f s' ] ≡ unfinished)
            ⊎ ((stored ≡ true) × (elim o [ none ↦ past_array | some s' ↦ f s' ] ≡ past_array))
      after none past h = inr (past refl, refl)
      after (some s') past h = h s'
