-- ===== src/Madt/Laws.antt =====
-- What `MADTInit` of kernel/src/apic/madt.cpp collects.
use mates_os.Base.{
  ℕ, List, sub64, ◌+◌, ◌∷◌, if◌then◌else◌, length, ◌≡◌, length-append, some, ◌++◌, ◌==◌, ◌≤◌, [],
  ◌<◌, ltb, true, arith, ◌∙◌, append-append, refl, Bool-cases, false, inl, ==_iff, inr,
}
use mates_os.Paging.Source.{Source}
use mates_os.Madt.Records.{madt_entry, Information}
use mates_os.Acpi.{sdt_length, read64, read32}
use mates_os.Paging.Manager.{map_memory}

-- The records from `t` on, none of length 0, are at these addresses.
abbrev pub Records : (ℕ → ℕ) → ℕ → ℕ → List ℕ → Type 0
Records m madt t [] = sub64 (sdt_length m madt) 44 ≤ t
Records m madt t (h ∷ hs) =
    (t < sub64 (sdt_length m madt) 44)
    × (h ≡ madt + 44 + t)
    × (0 < m (h + 1))
    × Records m madt (t + m (h + 1)) hs

-- The records of one type, in their order.
abbrev pub of_type : (ℕ → ℕ) → ℕ → List ℕ → List ℕ
of_type m k [] = []
of_type m k (h ∷ hs) = if m h == k then h ∷ of_type m k hs else of_type m k hs

-- The address in the last override, or the one from before.
abbrev pub overridden : (ℕ → ℕ) → List ℕ → ℕ → ℕ
overridden m [] p = p
overridden m (h ∷ hs) p = overridden m hs (if m h == 5 then read64 m (h + 4) else p)

-- The tables have room for the records.
abbrev pub HasRoom : (ℕ → ℕ) → (a b c d : ℕ) → List ℕ → Type 0
HasRoom m a b c d hs =
    (a + length (of_type m 0 hs) ≤ 128)
    × (b + length (of_type m 1 hs) ≤ 8)
    × (c + length (of_type m 2 hs) ≤ 16)
    × (d + length (of_type m 4 hs) ≤ 8)

module _ (source : Source) where
  -- `s'` has the records behind those of `s`, each in the table of its type.
  abbrev pub Collects : (ℕ → ℕ) → List ℕ → Information source → Information source → Type 0
  Collects m hs s s' =
      (s'.processors ≡ s.processors ++ of_type m 0 hs)
      × (s'.ioapics ≡ s.ioapics ++ of_type m 1 hs)
      × (s'.isos ≡ s.isos ++ of_type m 2 hs)
      × (s'.nmis ≡ s.nmis ++ of_type m 4 hs)
      × (s'.local_apic_ptr ≡ overridden m hs s.local_apic_ptr)

  abbrev pub FitsTables : (ℕ → ℕ) → List ℕ → Information source → Type 0
  FitsTables m hs s =
      HasRoom m (length s.processors) (length s.ioapics) (length s.isos) (length s.nmis) hs

  abbrev pub Advances : ℕ → (ℕ → ℕ) → ℕ → List ℕ → Information source → Type 0
  Advances pml4 m h hs s =
      (s1 : Information source) × (madt_entry source pml4 m h s ≡ some s1)
      × FitsTables m hs s1
      × ((s' : Information source) → Collects m hs s1 s' → Collects m (h ∷ hs) s s')

  step_processor :
      (pml4 : ℕ) (m : ℕ → ℕ) (h : ℕ) (hs : List ℕ) (s : Information source)
      → m h ≡ 0
      → FitsTables m (h ∷ hs) s
      → Advances pml4 m h hs s
  unfolding madt_entry
  step_processor pml4 m h hs s e f =
      let (a, b, c, d) = f in
      let l = length-append s.processors (h ∷ []) in
      let q : ltb (length s.processors) 128 ≡ true = ground arith in
      (
        record s { processors = s.processors ++ h ∷ [] },
        rw (e, q) refl,
        (ground arith, ground arith, ground arith, ground arith),
        λ s' g.
            let (v, w, x, y, z) = g in
            rw e (v ∙ append-append s.processors (h ∷ []) (of_type m 0 hs), w, x, y, z),
      )

  step_ioapic :
      (pml4 : ℕ) (m : ℕ → ℕ) (h : ℕ) (hs : List ℕ) (s : Information source)
      → m h ≡ 1
      → FitsTables m (h ∷ hs) s
      → Advances pml4 m h hs s
  unfolding madt_entry
  step_ioapic pml4 m h hs s e f =
      let (a, b, c, d) = f in
      let l = length-append s.ioapics (h ∷ []) in
      let q : ltb (length s.ioapics) 8 ≡ true = ground arith in
      (
        record s {
          ioapics = s.ioapics ++ h ∷ [];
          space = (map_memory source pml4 (read32 m (h + 4)) (read32 m (h + 4)) s.space).1;
        },
        rw (e, q) refl,
        (ground arith, ground arith, ground arith, ground arith),
        λ s' g.
            let (v, w, x, y, z) = g in
            rw e (v, w ∙ append-append s.ioapics (h ∷ []) (of_type m 1 hs), x, y, z),
      )

  step_iso :
      (pml4 : ℕ) (m : ℕ → ℕ) (h : ℕ) (hs : List ℕ) (s : Information source)
      → m h ≡ 2
      → FitsTables m (h ∷ hs) s
      → Advances pml4 m h hs s
  unfolding madt_entry
  step_iso pml4 m h hs s e f =
      let (a, b, c, d) = f in
      let l = length-append s.isos (h ∷ []) in
      let q : ltb (length s.isos) 16 ≡ true = ground arith in
      (
        record s { isos = s.isos ++ h ∷ [] },
        rw (e, q) refl,
        (ground arith, ground arith, ground arith, ground arith),
        λ s' g.
            let (v, w, x, y, z) = g in
            rw e (v, w, x ∙ append-append s.isos (h ∷ []) (of_type m 2 hs), y, z),
      )

  step_nmi :
      (pml4 : ℕ) (m : ℕ → ℕ) (h : ℕ) (hs : List ℕ) (s : Information source)
      → m h ≡ 4
      → FitsTables m (h ∷ hs) s
      → Advances pml4 m h hs s
  unfolding madt_entry
  step_nmi pml4 m h hs s e f =
      let (a, b, c, d) = f in
      let l = length-append s.nmis (h ∷ []) in
      let q : ltb (length s.nmis) 8 ≡ true = ground arith in
      (
        record s { nmis = s.nmis ++ h ∷ [] },
        rw (e, q) refl,
        (ground arith, ground arith, ground arith, ground arith),
        λ s' g.
            let (v, w, x, y, z) = g in
            rw e (v, w, x, y ∙ append-append s.nmis (h ∷ []) (of_type m 4 hs), z),
      )

  step_override :
      (pml4 : ℕ) (m : ℕ → ℕ) (h : ℕ) (hs : List ℕ) (s : Information source)
      → m h ≡ 5
      → FitsTables m (h ∷ hs) s
      → Advances pml4 m h hs s
  unfolding madt_entry
  step_override pml4 m h hs s e f =
      let (a, b, c, d) = f in
      (
        record s { local_apic_ptr = read64 m (h + 4) },
        rw e refl,
        (ground arith, ground arith, ground arith, ground arith),
        λ s' g. let (v, w, x, y, z) = g in rw e (v, w, x, y, z),
      )

  step_other :
      (pml4 : ℕ) (m : ℕ → ℕ) (h : ℕ) (hs : List ℕ) (s : Information source)
      → (m h == 0) ≡ false
      → (m h == 1) ≡ false
      → (m h == 2) ≡ false
      → (m h == 4) ≡ false
      → (m h == 5) ≡ false
      → FitsTables m (h ∷ hs) s
      → Advances pml4 m h hs s
  unfolding madt_entry
  step_other pml4 m h hs s e0 e1 e2 e4 e5 f =
      let (a, b, c, d) = f in
      (
        s,
        rw (e0, e1, e2, e4, e5) refl,
        (ground arith, ground arith, ground arith, ground arith),
        λ s' g. let (v, w, x, y, z) = g in rw (e0, e1, e2, e4, e5) (v, w, x, y, z),
      )

  pub step :
      (pml4 : ℕ) (m : ℕ → ℕ) (h : ℕ) (hs : List ℕ) (s : Information source)
      → FitsTables m (h ∷ hs) s
      → Advances pml4 m h hs s
  step pml4 m h hs s f = elim (Bool-cases (m h == 0)) [
    | inl e ↦ step_processor pml4 m h hs s ((==_iff (m h) 0).0 e) f
    | inr e0 ↦ elim (Bool-cases (m h == 1)) [
      | inl e ↦ step_ioapic pml4 m h hs s ((==_iff (m h) 1).0 e) f
      | inr e1 ↦ elim (Bool-cases (m h == 2)) [
        | inl e ↦ step_iso pml4 m h hs s ((==_iff (m h) 2).0 e) f
        | inr e2 ↦ elim (Bool-cases (m h == 4)) [
          | inl e ↦ step_nmi pml4 m h hs s ((==_iff (m h) 4).0 e) f
          | inr e4 ↦ elim (Bool-cases (m h == 5)) [
            | inl e ↦ step_override pml4 m h hs s ((==_iff (m h) 5).0 e) f
            | inr e5 ↦ step_other pml4 m h hs s e0 e1 e2 e4 e5 f
          ]
        ]
      ]
    ]
  ]
