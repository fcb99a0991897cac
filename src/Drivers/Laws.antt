-- ===== src/Drivers/Laws.antt =====
-- The driver manager of kernel/src/utils/driver.cpp keeps the drivers in the order they came.
use mates_os.Base.{
  if◌then◌else◌, List, length, ℕ, ◌≡◌, [], ◌<◌, ◌≤◌, get_elem?, ◌^◌, arith, ◌++◌, ◌∷◌, ◌⊎◌, Bool,
  Bool-cases, none, sub64, ◌==◌, Option, for_loop, inl, some, suc, ◌-◌, false, inr, ltb, ◌∙◌, leb,
  length-append, sym, zero, ◌&&◌, ◌+◌, ap, refl, ==_iff, true,
}
use mates_os.Drivers.{
  DriverManager, add_driver, get_by_index, driver_num, activate_slot, activate_all, activate_held,
}

module _ {Driver : Type 0} where
  -- The manager holds the drivers of the list, in its order.
  abbrev pub Holds : DriverManager Driver → List Driver → Type 0
  Holds m ds =
      (m.num_of_drivers ≡ length ds)
      × (length ds ≤ driver_num)
      × ((i : ℕ) → i < length ds → m.drivers i ≡ get_elem? ds i)

  get_elem-append :
      (ds : List Driver) (d : Driver) (i : ℕ)
      → i ≤ length ds
      → get_elem? (ds ++ d ∷ []) i ≡ (if length ds == i then some d else get_elem? ds i)
  get_elem-append [] d zero h = refl
  get_elem-append [] d (suc i) h = ground arith
  get_elem-append (x ∷ ds) d zero h = ground arith
  get_elem-append (x ∷ ds) d (suc i) h = get_elem-append ds d i (omega arith) ∙ ground arith

  get_elem-past : (ds : List Driver) (i : ℕ) → length ds ≤ i → get_elem? ds i ≡ none
  get_elem-past [] i h = refl
  get_elem-past (x ∷ ds) zero h = ground arith
  get_elem-past (x ∷ ds) (suc i) h = get_elem-past ds i (omega arith)

  -- Where the manager holds a list of drivers, `add_driver` appends the driver to it, unless 512
  -- are held: then it changes nothing.
  pub add_driver-Holds :
      (m : DriverManager Driver) (ds : List Driver) (d : Driver)
      → Holds m ds
      → ((length ds < driver_num) × Holds (add_driver Driver d m) (ds ++ d ∷ []))
        ⊎ ((length ds ≡ driver_num) × (add_driver Driver d m ≡ m))
  unfolding add_driver
  add_driver-Holds m ds d (n, b, h) = elim (Bool-cases (m.num_of_drivers == driver_num)) [
    | inl e ↦ inr (ground arith, rw e refl)
    | inr e ↦
        let l = length-append ds (d ∷ []) in
        rw e (
          inl (
            ground arith,
            (
              ground arith,
              ground arith,
              λ i p. ground (arith, get_elem-append ds d i (ground arith), h i),
            ),
          ))
  ]

  -- Where the manager holds a list that is not empty, `get_by_index` gives the driver of that
  -- index, and NULL past the end.
  pub get_by_index-Holds :
      (m : DriverManager Driver) (ds : List Driver) (i : ℕ)
      → Holds m ds
      → 0 < length ds
      → get_by_index Driver i m ≡ get_elem? ds i
  unfolding get_by_index
  get_by_index-Holds m ds i (n, b, h) p =
      let q : sub64 m.num_of_drivers 1 ≡ length ds - 1 = ground arith in
      elim (Bool-cases (ltb (length ds - 1) i)) [
        | inl e ↦ rw (q, e) (sym (get_elem-past ds i (ground arith)))
        | inr e ↦ rw (q, e) (h i (ground arith))
      ]

  -- On a manager without a driver, `get_by_index` reads the array at every index of 64 bits.
  pub get_by_index-empty :
      (m : DriverManager Driver) (i : ℕ)
      → Holds m []
      → i < 2 ^ 64
      → get_by_index Driver i m ≡ m.drivers i
  unfolding get_by_index
  get_by_index-empty m i (n, b, h) p = ground arith

  module _ (activate : Driver → Driver × Bool) where
    abbrev pub activated : Option Driver → Option Driver
    activated none = none
    activated (some d) = some (activate d).0

    held_lem :
        (i j : ℕ) (o : Option Driver) (s : DriverManager Driver × Bool)
        → s.0.drivers i ≡ o
        → ((activate_held Driver activate i o s).0.drivers j
            ≡ (if i == j then activated (s.0.drivers j) else s.0.drivers j))
          × ((activate_held Driver activate i o s).0.num_of_drivers ≡ s.0.num_of_drivers)
    held_lem i j o s e = elim (Bool-cases (i == j)) [
      | inl t ↦ same i j o s (ap s.0.drivers (sym ((==_iff i j).0 t)) ∙ e) t
      | inr t ↦ other i j o s t
    ]
      where
        same :
            (i j : ℕ) (o : Option Driver) (s : DriverManager Driver × Bool)
            → s.0.drivers j ≡ o
            → (i == j) ≡ true
            → ((activate_held Driver activate i o s).0.drivers j
                ≡ (if i == j then activated (s.0.drivers j) else s.0.drivers j))
              × ((activate_held Driver activate i o s).0.num_of_drivers ≡ s.0.num_of_drivers)
        same i j none s q t = (rw (t, q) refl, refl)
        same i j (some d) (m, f) q t = (rw (t, q) refl, refl)

        other :
            (i j : ℕ) (o : Option Driver) (s : DriverManager Driver × Bool)
            → (i == j) ≡ false
            → ((activate_held Driver activate i o s).0.drivers j
                ≡ (if i == j then activated (s.0.drivers j) else s.0.drivers j))
              × ((activate_held Driver activate i o s).0.num_of_drivers ≡ s.0.num_of_drivers)
        other i j none s t = (rw t refl, refl)
        other i j (some d) (m, f) t = (rw t refl, refl)

    activate_from :
        (left i j : ℕ) (s : DriverManager Driver × Bool)
        → ((for_loop (activate_slot Driver activate) left i s).0.drivers j
            ≡ (if leb i j && ltb j (i + left) then activated (s.0.drivers j) else s.0.drivers j))
          × ((for_loop (activate_slot Driver activate) left i s).0.num_of_drivers
              ≡ s.0.num_of_drivers)
    activate_from zero i j s = (ground arith, refl)
    activate_from (suc left) i j s =
        let (h, n) = activate_from left (i + 1) j (activate_slot Driver activate i s) in
        let (k, l) = held_lem i j (s.0.drivers i) s refl in (ground (arith, h, k), n ∙ l)

    -- `activate_all` activates each driver of the manager once, whether one before it failed or
    -- not: every slot below the number of drivers that holds one holds it as `activate` leaves it,
    -- and the other slots and the number are as they were.
    pub activate_all_lem :
        (m : DriverManager Driver) (j : ℕ)
        → ((activate_all Driver activate m).0.drivers j
            ≡ (if ltb j m.num_of_drivers then activated (m.drivers j) else m.drivers j))
          × ((activate_all Driver activate m).0.num_of_drivers ≡ m.num_of_drivers)
    unfolding activate_all
    activate_all_lem m j =
        let (h, n) = activate_from m.num_of_drivers 0 j (m, false) in (ground (arith, h), n)
