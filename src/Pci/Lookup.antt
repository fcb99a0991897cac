-- ===== src/Pci/Lookup.antt =====
-- `EnumerateFunction` of kernel/src/PCI/pci.cpp, by indices, against the scan of all functions.
use mates_os.Base.{
  ℕ, List, u64, ◌++◌, ◌<◌, ◌∷◌, ◌≤◌, inl, inr, ◌+◌, ◌≡◌, [], true, ◌<<<◌, ◌⊎◌, Bool-cases, arith,
  leb, suc, refl, ◌==◌, ◌-◌, ==_iff, zero, ◌^◌, Bool,
}
use mates_os.Pci.{DeviceConfig, enumerate_function_at, Source, answers, Space}
use mates_os.Pci.Functions.{
  all_functions, gather, function_at, device_functions, bus_functions, config_functions, has_device,
}
use mates_os.Paging.Source.{Source}
use mates_os.Paging.Manager.{Space}

abbrev pub In : ℕ → List ℕ → Type 0
In a [] = ⊥
In a (x ∷ xs) = (a ≡ x) ⊎ In a xs

In-append_left : (a : ℕ) (xs ys : List ℕ) → In a xs → In a (xs ++ ys)
In-append_left a [] ys h = absurd h
In-append_left a (x ∷ xs) ys (inl e) = inl e
In-append_left a (x ∷ xs) ys (inr h) = inr (In-append_left a xs ys h)

In-append_right : (a : ℕ) (xs ys : List ℕ) → In a ys → In a (xs ++ ys)
In-append_right a [] ys h = h
In-append_right a (x ∷ xs) ys h = inr (In-append_right a xs ys h)

In-gather :
    (a : ℕ) (f : ℕ → List ℕ) (left from i : ℕ)
    → from ≤ i
    → i < from + left
    → In a (f i)
    → In a (gather f left from)
In-gather a f zero from i p q h = ground arith
In-gather a f (suc left) from i p q h = elim (Bool-cases (from == i)) [
  | inl e ↦ In-append_left a (f from) (gather f left (from + 1)) (rw ((==_iff from i).0 e) h)
  | inr e ↦
      In-append_right a (f from) (gather f left (from + 1))
        (In-gather a f left (from + 1) i (ground arith) (omega arith) h)
]

-- The place of a function: its entry, bus, device and function, and that each shows a device.
module _ (config_space : ℕ → ℕ) (configs : ℕ → DeviceConfig) where
  abbrev pub bus_address : ℕ → ℕ → ℕ
  bus_address e b = u64 ((configs e).base_address + (((configs e).start_bus + b) <<< 20))

  abbrev pub place_address : ℕ → ℕ → ℕ → ℕ → ℕ
  place_address e b d f = u64 (u64 (bus_address e b + (d <<< 15)) + (f <<< 12))

  -- The indices are in range, and the bus, the device and the function show a device.
  abbrev pub IsPlace : ℕ → ℕ → ℕ → ℕ → ℕ → Type 0
  IsPlace entries e b d f =
      (e < entries)
      × (d < 32)
      × (f < 8)
      × ((configs e).start_bus + b < (configs e).end_bus)
      × (has_device config_space (bus_address e b) ≡ true)
      × (has_device config_space (u64 (bus_address e b + (d <<< 15))) ≡ true)
      × (has_device config_space (place_address e b d f) ≡ true)

  place-In :
      (entries e b d f : ℕ)
      → IsPlace entries e b d f
      → In (place_address e b d f) (all_functions (has_device config_space) configs entries)
  place-In entries e b d f (p, q, r, t, x, y, z) =
      let bus = bus_address e b in
      let device = u64 (bus + (d <<< 15)) in
      let a = place_address e b d f in
      let in_function : In a (function_at (has_device config_space) device f) = rw z (inl refl) in
      let in_device : In a (device_functions (has_device config_space) bus d) = rw y (
        In-gather a (function_at (has_device config_space) device) 8 0 f (omega arith) (omega arith)
          in_function) in
      let in_bus : In a (
          bus_functions (has_device config_space) (configs e).base_address
            ((configs e).start_bus + b)) =
        rw x (
          In-gather a (device_functions (has_device config_space) bus) 32 0 d (omega arith)
            (omega arith) in_device) in
      let in_config : In a (config_functions (has_device config_space) configs e) =
        In-gather a (bus_functions (has_device config_space) (configs e).base_address)
          ((configs e).end_bus - (configs e).start_bus) (configs e).start_bus
          ((configs e).start_bus + b) (omega arith) (omega arith) in_bus in
      In-gather a (config_functions (has_device config_space) configs) entries 0 e (omega arith)
        (omega arith) in_config

  -- `EnumerateFunction` by indices, where the start bus and the index of the bus do not wrap around, returns
  -- the address of the function if the indices are in range, the bus before the end bus, and the bus, the
  -- device and the function show a device number which is neither 0 nor 65535, and this function is one that
  -- the scan of `EnumeratePCI` finds; in all other cases it returns NULL.
  pub enumerate_function_at-In :
      (source : Source) (pml4 entries e b d f : ℕ) (s : Space source)
      → (configs e).start_bus + b < 2 ^ 64
      → (IsPlace entries e b d f
          × ((enumerate_function_at source config_space pml4 configs entries e b d f s).0
              ≡ place_address e b d f)
          × In (place_address e b d f) (all_functions (has_device config_space) configs entries))
        ⊎ ((IsPlace entries e b d f → ⊥)
            × ((enumerate_function_at source config_space pml4 configs entries e b d f s).0 ≡ 0))
  unfolding enumerate_function_at
  enumerate_function_at-In source pml4 entries e b d f s fits = elim (Bool-cases (leb entries e)) [
    | inl h1 ↦ inr ((λ w. ground (arith, w.0)), rw h1 refl)
    | inr h1 ↦ elim (Bool-cases (leb 32 d)) [
      | inl h2 ↦ inr ((λ w. ground (arith, w.1)), rw (h1, h2) refl)
      | inr h2 ↦ elim (Bool-cases (leb 8 f)) [
        | inl h3 ↦ inr ((λ w. ground (arith, w.2)), rw (h1, h2, h3) refl)
        | inr h3 ↦ elim (Bool-cases (leb (configs e).end_bus ((configs e).start_bus + b))) [
          | inl h4 ↦ inr ((λ w. ground (arith, w.3)), rw (no_wrap, h1, h2, h3, h4) refl)
          | inr h4 ↦ elim (Bool-cases (has_device config_space (bus_address e b))) [
            | inr h5 ↦ inr (
              (λ w. ground (arith, h5, w.4)),
              rw (no_wrap, h1, h2, h3, h4, answers_at _ _ h5) refl,
            )
            | inl h5 ↦
                elim (Bool-cases (has_device config_space (u64 (bus_address e b + (d <<< 15))))) [
                  | inr h6 ↦ inr (
                    (λ w. ground (arith, h6, w.5)),
                    rw (no_wrap, h1, h2, h3, h4, answers_at _ _ h5, answers_at _ _ h6) refl,
                  )
                  | inl h6 ↦ elim (Bool-cases (has_device config_space (place_address e b d f))) [
                    | inr h7 ↦ inr (
                      (λ w. ground (arith, h7, w.6)),
                      rw
                          (
                            no_wrap,
                            h1,
                            h2,
                            h3,
                            h4,
                            answers_at _ _ h5,
                            answers_at _ _ h6,
                            answers_at _ _ h7,
                          )
                          refl,
                    )
                    | inl h7 ↦
                        let place : IsPlace entries e b d f =
                          (ground arith, ground arith, ground arith, ground arith, h5, h6, h7) in
                        inl (
                          place,
                          rw
                              (
                                no_wrap,
                                h1,
                                h2,
                                h3,
                                h4,
                                answers_at _ _ h5,
                                answers_at _ _ h6,
                                answers_at _ _ h7,
                              )
                              refl,
                          place-In entries e b d f place,
                        )
                  ]
                ]
          ]
        ]
      ]
    ]
  ]
    where
      no_wrap : u64 ((configs e).start_bus + b) ≡ (configs e).start_bus + b
      no_wrap = omega arith

      answers_at : (a : ℕ) (t : Bool) → has_device config_space a ≡ t → answers config_space a ≡ t
      answers_at a t h = ground (arith, h)
