-- ===== src/Pci/Laws.antt =====
-- What `EnumeratePCI` of kernel/src/PCI/pci.cpp puts into the table of devices.
use mates_os.Base.{
  leb, List, ℕ, length, ◌++◌, [], for_loop, ◌≡◌, ◌≤◌, arith, ok, suc, sym, ◌∷◌, ap, u64, zero, ◌-◌,
  refl, ◌+◌, ◌∙◌, ◌<<<◌, Bool-cases, inr, inl, length-append, append-append, append-nil,
}
use mates_os.Paging.Source.{Source}
use mates_os.Pci.{
  Bus, enumerate_bus, enumerate_config, enumerate_device, enumerate_function, enumerate_pci,
  DeviceConfig, answers, device_config, config_entries, max_number_of_lanes,
}
use mates_os.Pci.Functions.{
  take, bus_functions, device_functions, function_at, config_functions, gather, all_functions,
  has_device,
}
use mates_os.Acpi.Laws.{IsValid, check_header-IsValid}

take-short : (n : ℕ) (xs : List ℕ) → length xs ≤ n → take n xs ≡ xs
take-short zero [] h = refl
take-short zero (x ∷ xs) h = ground arith
take-short (suc n) [] h = refl
take-short (suc n) (x ∷ xs) h = ap (λ (t : List ℕ). x ∷ t) (take-short n xs (omega arith))

length-take : (n : ℕ) (xs : List ℕ) → length (take n xs) ≤ n
length-take zero xs = omega arith
length-take (suc n) [] = omega arith
length-take (suc n) (x ∷ xs) = omega (arith, length-take n xs)

take-append : (n : ℕ) (xs ys : List ℕ) → take n (take n xs ++ ys) ≡ take n (xs ++ ys)
take-append zero xs ys = refl
take-append (suc n) [] ys = refl
take-append (suc n) (x ∷ xs) ys = ap (λ (t : List ℕ). x ∷ t) (take-append n xs ys)

take-full : (n : ℕ) (xs ys : List ℕ) → length xs ≡ n → take n (xs ++ ys) ≡ xs
take-full zero [] ys h = refl
take-full zero (x ∷ xs) ys h = ground arith
take-full (suc n) [] ys h = ground arith
take-full (suc n) (x ∷ xs) ys h = ap (λ (t : List ℕ). x ∷ t) (take-full n xs ys (omega arith))

module _ (source : Source) (config_space : ℕ → ℕ) where
  answers_lem : (a : ℕ) → answers config_space a ≡ has_device config_space a
  answers_lem a = ground arith

  -- A step appends the list to the table, as far as it has room.
  Appends : (Bus source config_space → Bus source config_space) → List ℕ → Type 0
  Appends f xs =
      (s : Bus source config_space)
      → length s.devices ≤ 32
      → (f s).devices ≡ take 32 (s.devices ++ xs)

  loop-Appends :
      (f : ℕ → Bus source config_space → Bus source config_space) (g : ℕ → List ℕ)
      → ((i : ℕ) → Appends (f i) (g i))
      → (left from : ℕ) → Appends (for_loop f left from) (gather g left from)
  unfolding Appends
  loop-Appends f g h zero from s p =
      sym (ap (take 32) (append-nil s.devices) ∙ take-short 32 s.devices p)
  loop-Appends f g h (suc left) from s p =
      let e = h from s p in
      let q : length (f from s).devices ≤ 32 = rw e (length-take 32 (s.devices ++ g from)) in
      loop-Appends f g h left (from + 1) (f from s) q
      ∙ ap (λ (t : List ℕ). take 32 (t ++ gather g left (from + 1))) e
      ∙ take-append 32 (s.devices ++ g from) (gather g left (from + 1))
      ∙ ap (take 32) (append-append s.devices (g from) (gather g left (from + 1)))

  keeps :
      (s : Bus source config_space) → length s.devices ≤ 32 → s.devices ≡ take 32 (s.devices ++ [])
  keeps s p = sym (ap (take 32) (append-nil s.devices) ∙ take-short 32 s.devices p)

  function-Appends :
      (pml4 device i : ℕ)
      → Appends
          (enumerate_function source config_space pml4 device i)
          (function_at (has_device config_space) device i)
  unfolding enumerate_function Appends
  function-Appends pml4 device i s p =
      let a = u64 (device + (i <<< 12)) in
      elim (Bool-cases (has_device config_space a)) [
        | inr e ↦ rw (answers_lem a ∙ e, e) (keeps s p)
        | inl e ↦ elim (Bool-cases (leb max_number_of_lanes (length s.devices))) [
          | inl q ↦
              rw (answers_lem a ∙ e, e, q) (sym (take-full 32 s.devices (a ∷ []) (ground arith)))
          | inr q ↦
              rw (answers_lem a ∙ e, e, q)
                (sym (
                  take-short 32 (s.devices ++ a ∷ [])
                    (ground (arith, length-append s.devices (a ∷ [])))))
        ]
      ]

  device-Appends :
      (pml4 bus i : ℕ)
      → Appends
          (enumerate_device source config_space pml4 bus i)
          (device_functions (has_device config_space) bus i)
  unfolding enumerate_device Appends
  device-Appends pml4 bus i s p =
      let a = u64 (bus + (i <<< 15)) in
      elim (Bool-cases (has_device config_space a)) [
        | inr e ↦ rw (answers_lem a ∙ e, e) (keeps s p)
        | inl e ↦
            rw (answers_lem a ∙ e, e)
              (loop-Appends (enumerate_function source config_space pml4 a)
                (function_at (has_device config_space) a) (function-Appends pml4 a) 8 0 _ p)
      ]

  bus-Appends :
      (pml4 base i : ℕ)
      → Appends
          (enumerate_bus source config_space pml4 base i)
          (bus_functions (has_device config_space) base i)
  unfolding enumerate_bus Appends
  bus-Appends pml4 base i s p =
      let a = u64 (base + (i <<< 20)) in
      elim (Bool-cases (has_device config_space a)) [
        | inr e ↦ rw (answers_lem a ∙ e, e) (keeps s p)
        | inl e ↦
            rw (answers_lem a ∙ e, e)
              (loop-Appends (enumerate_device source config_space pml4 a)
                (device_functions (has_device config_space) a) (device-Appends pml4 a) 32 0 _ p)
      ]

  config-Appends :
      (pml4 : ℕ) (configs : ℕ → DeviceConfig) (t : ℕ)
      → Appends
          (enumerate_config source config_space pml4 configs t)
          (config_functions (has_device config_space) configs t)
  unfolding enumerate_config
  config-Appends pml4 configs t =
      let c = configs t in
      loop-Appends (enumerate_bus source config_space pml4 c.base_address)
        (bus_functions (has_device config_space) c.base_address) (bus-Appends pml4 c.base_address)
        (c.end_bus - c.start_bus) c.start_bus

  -- `EnumeratePCI` on a table that passes its checks returns; the table of devices is then what it
  -- held, with the functions that show a device number which is neither 0 nor 65535 after it, in the order
  -- of their places, cut to 32. Places are those of the buses from the start bus of an entry up to, but
  -- without, its end bus, of 32 devices and 8 functions; a function is passed over where the first address
  -- of its bus or of its device shows no such number.
  pub enumerate_pci-all_functions :
      (pml4 : ℕ) (m : ℕ → ℕ) (mcfg : ℕ) (s : Bus source config_space)
      → IsValid m mcfg
      → length s.devices ≤ 32
      → (s' : Bus source config_space) × (enumerate_pci source config_space pml4 m mcfg s ≡ ok s')
        × (s'.devices
            ≡ take 32 (
                s.devices
                ++ all_functions
                    (has_device config_space)
                    (device_config m mcfg)
                    (config_entries m mcfg)))
  unfolding enumerate_pci Appends
  enumerate_pci-all_functions pml4 m mcfg s v p = (
    for_loop (enumerate_config source config_space pml4 (device_config m mcfg))
        (config_entries m mcfg) 0 s,
    rw (check_header-IsValid m mcfg _ _ v) refl,
    loop-Appends (enumerate_config source config_space pml4 (device_config m mcfg))
        (config_functions (has_device config_space) (device_config m mcfg))
        (config-Appends pml4 (device_config m mcfg)) (config_entries m mcfg) 0 s p,
  )
