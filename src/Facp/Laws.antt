-- ===== src/Facp/Laws.antt =====
-- `InitFACP` and then `Shutdown` or `Reboot` of kernel/src/facp/facp.cpp.
use mates_os.Base.{
  inl, inr, zero, suc, pos, negsuc, some, none, refl, ℕ, ◌<◌, ◌≡◌, true, ◌+◌, false, ◌-◌, ◌≤◌, ◌*◌,
  arith, u16, ◌≢◌, ap, ◌<<<◌, ◌∷◌, [], sym, ◌==◌, ◌∙◌, eq→==, bit_and, ◌/◌, ◌^◌, ◌%◌, bit_or, ◌>>>◌,
  ne→==, ◌⊎◌, Bool-cases, List, if◌then◌else◌, ◌++◌,
}
use mathlib.Core.Path.{ap₂}
use mates_os.Facp.{
  bake, init_facp, read_s5, s5_loop, FacpHeader, is_s5, shut_down, Power, is_package, skip_prefix,
  first_number, reboot, read32, search_rounds,
}
use mates_os.Bits.{bit_and-field_mask}
use mates_os.Acpi.{read32}

-- The text of the name `_S5_` in AML at the address, a package whose length takes one byte, with the
-- two numbers behind their prefixes.
pub record IsSleep (m : ℕ → ℕ) (s5 a b : ℕ) : Type 0 where
  pub name : is_s5 m s5 ≡ true
  pub name_op : m (s5 - 1) ≡ 0x08
  pub package_op : m (s5 + 4) ≡ 0x12
  pub package_length : m (s5 + 5) < 0x40
  pub first_prefix : m (s5 + 7) ≡ 0x0A
  pub first : m (s5 + 8) ≡ a
  pub second_prefix : m (s5 + 9) ≡ 0x0A
  pub second : m (s5 + 10) ≡ b

s5_loop-found :
    (left : ℕ) (m : ℕ → ℕ) (at n : ℕ)
    → n < left
    → is_s5 m (at + n) ≡ true
    → ((i : ℕ) → i < n → is_s5 m (at + i) ≡ false)
    → s5_loop left m at ≡ (at + n, pos (left - n - 1))
unfolding s5_loop
s5_loop-found zero m at n q here before = absurd (omega arith)
s5_loop-found (suc left) m at zero q here before =
    let e : at + 0 ≡ at = omega arith in
    let f : suc left - 0 - 1 ≡ left = omega arith in
    let t : is_s5 m at ≡ true = ap (is_s5 m) (sym e) ∙ here in rw (t, e, f) refl
s5_loop-found (suc left) m at (suc n) q here before =
    let e : at + 1 + n ≡ at + suc n = omega arith in
    let z : at + 0 ≡ at = omega arith in
    let f : suc left - suc n - 1 ≡ left - n - 1 = omega arith in
    let t : is_s5 m at ≡ false = ap (is_s5 m) (sym z) ∙ before 0 (omega arith) in
    let ih =
      s5_loop-found left m (at + 1) n (omega arith) (ap (is_s5 m) e ∙ here)
        (λ i p. ap (is_s5 m) (omega arith) ∙ before (i + 1) (omega arith)) in
    rw (t, f) (ih ∙ rw e refl)

s5_loop-missing :
    (left : ℕ) (m : ℕ → ℕ) (at : ℕ)
    → ((i : ℕ) → i < left → is_s5 m (at + i) ≡ false)
    → (s5_loop left m at).1 ≡ negsuc 0
unfolding s5_loop
s5_loop-missing zero m at none_there = refl
s5_loop-missing (suc left) m at none_there =
    let z : at + 0 ≡ at = omega arith in
    let t : is_s5 m at ≡ false = ap (is_s5 m) (sym z) ∙ none_there 0 (omega arith) in
    rw t (
      s5_loop-missing left m (at + 1)
        (λ i p. ap (is_s5 m) (omega arith) ∙ none_there (i + 1) (omega arith)))

baked : bake 0x44 0x53 0x44 0x54 ≡ 0x54445344
unfolding bake
baked = refl

read_s5-IsSleep :
    (facp : FacpHeader) (m : ℕ → ℕ) (s5 a b : ℕ) (p : Power)
    → 2 ≤ s5
    → IsSleep m s5 a b
    → (is_package m s5 ≡ true)
      × ((read_s5 facp m s5 p).slp_typa ≡ u16 (a <<< 10))
      × ((read_s5 facp m s5 p).slp_typb ≡ u16 (b <<< 10))
unfolding read_s5
read_s5-IsSleep facp m s5 a b p behind_two s =
    let lead : bit_and (m (s5 + 5)) 0xC0 ≡ m (s5 + 5) / 2 ^ 6 % 2 ^ 2 * 2 ^ 6 =
      bit_and-field_mask 6 2 (m (s5 + 5)) in
    let small = s.package_length in
    let at : first_number m s5 ≡ s5 + 7 = omega (arith, lead) in
    let one : skip_prefix m (first_number m s5) ≡ s5 + 8 = skipped (first_number m s5) at in
    let two : skip_prefix m (skip_prefix m (first_number m s5) + 1) ≡ s5 + 10 =
      second_at (skip_prefix m (first_number m s5)) one in
    (
      rw (s.name_op, s.package_op) refl,
      ap (λ (n : ℕ). u16 (m n <<< 10)) one ∙ ap (λ (n : ℕ). u16 (n <<< 10)) s.first,
      ap (λ (n : ℕ). u16 (m n <<< 10)) two ∙ ap (λ (n : ℕ). u16 (n <<< 10)) s.second,
    )
  where
    skipped : (n : ℕ) → n ≡ s5 + 7 → skip_prefix m n ≡ s5 + 8
    skipped n e =
        let t : (m n == 0x0A) ≡ true = eq→== _ _ (ap m e ∙ s.first_prefix) in rw t (omega arith)

    second_at : (n : ℕ) → n ≡ s5 + 8 → skip_prefix m (n + 1) ≡ s5 + 10
    second_at n e =
        let f : n + 1 ≡ s5 + 9 = omega arith in
        let t : (m (n + 1) == 0x0A) ≡ true = eq→== _ _ (ap m f ∙ s.second_prefix) in
        rw t (omega arith)

-- The port writes that turn the machine off, in order: to the register of the firmware, to its second one,
-- which it may not have, and to those of three emulators.
abbrev pub off_writes : FacpHeader → ℕ → ℕ → List (ℕ × ℕ)
off_writes facp first second =
    (u16 facp.pm1a_cnt_blk, first)
      ∷ (if facp.pm1b_cnt_blk == 0 then [] else (u16 facp.pm1b_cnt_blk, second) ∷ [])
    ++ (0xB004, 0x2000) ∷ (0x604, 0x2000) ∷ (0x4004, 0x3400) ∷ []

enabled : (a : ℕ) → a < 8 → bit_or (u16 (a <<< 10)) (1 <<< 13) ≡ a * 1024 + 8192
enabled zero q = refl
enabled (suc zero) q = refl
enabled (suc (suc zero)) q = refl
enabled (suc (suc (suc zero))) q = refl
enabled (suc (suc (suc (suc zero)))) q = refl
enabled (suc (suc (suc (suc (suc zero))))) q = refl
enabled (suc (suc (suc (suc (suc (suc zero)))))) q = refl
enabled (suc (suc (suc (suc (suc (suc (suc zero))))))) q = refl
enabled (suc (suc (suc (suc (suc (suc (suc (suc a)))))))) q = absurd (omega arith)

init_facp-parsed :
    (facp : FacpHeader) (m : ℕ → ℕ) (p : Power) (s5 left : ℕ)
    → read32 m facp.dsdt ≡ 0x54445344
    → s5_loop (search_rounds m facp.dsdt) m (facp.dsdt + 36) ≡ (s5, pos left)
    → 0 < left
    → is_package m s5 ≡ true
    → init_facp facp m p ≡ record (read_s5 facp m s5 (record p { facp_header = some facp })) {
      reset_flag = bit_and facp.flags (1 <<< 10) >>> 10;
    }
unfolding init_facp
init_facp-parsed facp m p s5 left signature found some_left packaged =
    let t : (read32 m facp.dsdt == bake 0x44 0x53 0x44 0x54) ≡ true =
      eq→== _ _ (signature ∙ sym baked) in
    let u : (left == 0) ≡ false = ne→== _ _ (λ e. omega arith) in rw (t, found, u, packaged) refl

rounds-le : (m : ℕ → ℕ) (dsdt : ℕ) → search_rounds m dsdt ≤ read32 m (dsdt + 4) * 2
rounds-le m dsdt = ground arith

rounds_lem :
    (m : ℕ → ℕ) (dsdt : ℕ)
    → read32 m (dsdt + 4) < 2 ^ 30
    → search_rounds m dsdt ≡ read32 m (dsdt + 4) * 2
rounds_lem m dsdt h = ground arith

off :
    (facp : FacpHeader) (m : ℕ → ℕ) (s5 : ℕ) (p : Power) (flag x y : ℕ)
    → (read_s5 facp m s5 p).slp_typa ≡ x
    → (read_s5 facp m s5 p).slp_typb ≡ y
    → shut_down (record (read_s5 facp m s5 p) { reset_flag = flag })
      ≡ off_writes facp (bit_or x (1 <<< 13)) (bit_or y (1 <<< 13))
unfolding shut_down read_s5
off facp m s5 p flag x y e f = elim (Bool-cases (facp.pm1b_cnt_blk == 0)) [
  | inl t ↦ rw (t, ← e) refl
  | inr t ↦ rw (t, ← e, ← f) refl
]

-- `InitFACP` and then `Shutdown`, when the DSDT has its signature and less than 2 ^ 30 bytes by its header,
-- and the first `_S5_` behind its header stands before the last byte that is searched and is a package with
-- the numbers `a` and `b` below 8: the first port write is `a` and the enable bit in the control register
-- of the firmware; exactly if the firmware gives a second register that is not at 0, the next is `b` and
-- the bit in that one; then come the three writes for emulators.
pub shut_down-init_facp :
    (facp : FacpHeader) (m : ℕ → ℕ) (p : Power) (n a b : ℕ)
    → read32 m facp.dsdt ≡ 0x54445344
    → read32 m (facp.dsdt + 4) < 2 ^ 30
    → n + 1 < read32 m (facp.dsdt + 4) * 2
    → IsSleep m (facp.dsdt + 36 + n) a b
    → ((i : ℕ) → i < n → is_s5 m (facp.dsdt + 36 + i) ≡ false)
    → a < 8
    → b < 8
    → shut_down (init_facp facp m p) ≡ off_writes facp (a * 1024 + 8192) (b * 1024 + 8192)
shut_down-init_facp facp m p n a b signature short room s before small_a small_b =
    let s5 = facp.dsdt + 36 + n in
    let kept : Power = record p { facp_header = some facp } in
    let all : search_rounds m facp.dsdt ≡ read32 m (facp.dsdt + 4) * 2 =
      rounds_lem m facp.dsdt short in
    let (packaged, one, two) = read_s5-IsSleep facp m s5 a b kept (omega arith) s in
    let e =
      init_facp-parsed facp m p s5 (search_rounds m facp.dsdt - n - 1) signature
        (s5_loop-found (search_rounds m facp.dsdt) m (facp.dsdt + 36) n (omega (arith, all)) s.name
          before)
        (omega (arith, all)) packaged in
    ap shut_down e
    ∙ off facp m s5 kept (bit_and facp.flags (1 <<< 10) >>> 10) (u16 (a <<< 10)) (u16 (b <<< 10))
        one two
    ∙ ap₂ (λ (x y : ℕ). off_writes facp x y) (enabled a small_a) (enabled b small_b)

-- `InitFACP` where no `_S5_` stands in the bytes that are searched, or the DSDT has another signature:
-- the globals but the table are as they were, so `Shutdown` and `Reboot` of globals that are still 0
-- write nothing for the firmware.
pub init_facp-missing :
    (facp : FacpHeader) (m : ℕ → ℕ) (p : Power)
    → (read32 m facp.dsdt ≢ 0x54445344)
      ⊎ ((i : ℕ) → i < read32 m (facp.dsdt + 4) * 2 → is_s5 m (facp.dsdt + 36 + i) ≡ false)
    → (init_facp facp m p ≡ record p { facp_header = some facp })
      × (p.sci_en ≡ 0
          → shut_down (init_facp facp m p)
            ≡ (0xB004, 0x2000) ∷ (0x604, 0x2000) ∷ (0x4004, 0x3400) ∷ [])
      × (p.reset_flag ≡ 0 → reboot (init_facp facp m p) ≡ none)
unfolding init_facp shut_down reboot
init_facp-missing facp m p h =
    let e = same h in
    (
      e,
      λ z.
          ap shut_down e
          ∙ (let t : (p.sci_en == 1) ≡ false = ne→== _ _ (λ q. omega arith) in rw t refl),
      λ z. ap reboot e ∙ (let t : (p.reset_flag == 0) ≡ true = eq→== _ _ z in rw t refl),
    )
  where
    same :
        (read32 m facp.dsdt ≢ 0x54445344)
          ⊎ ((i : ℕ) → i < read32 m (facp.dsdt + 4) * 2 → is_s5 m (facp.dsdt + 36 + i) ≡ false)
        → init_facp facp m p ≡ record p { facp_header = some facp }
    same (inl other) =
        let t : (read32 m facp.dsdt == bake 0x44 0x53 0x44 0x54) ≡ false =
          ne→== _ _ (λ q. other (q ∙ baked)) in
        rw t refl
    same (inr none_there) =
        let l =
          s5_loop-missing (search_rounds m facp.dsdt) m (facp.dsdt + 36)
            (λ i q. none_there i (omega (arith, q, rounds-le m facp.dsdt))) in
        elim (Bool-cases (read32 m facp.dsdt == bake 0x44 0x53 0x44 0x54)) [
          | inl t ↦ rw (t, l) refl
          | inr t ↦ rw t refl
        ]
