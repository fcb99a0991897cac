-- ===== src/Interrupts/Gates.antt =====
-- The handlers that the gates of kernel/src/utils/kernelUtil.cpp lead to.
use mathlib.Core.Path.{ap₂}
use mates_os.Base.{
  inl, inr, refl, some, none, ℕ, Option, ◌<◌, ◌≡◌, if◌then◌else◌, ◌^◌, bit_and, ◌==◌, ◌%◌, ◌/◌, ◌*◌,
  u16, arith, u64, ◌>>>◌, ◌<<<◌, u32, bit_or, ap, sym, ◌∙◌, Bool-cases, ◌+◌,
}
use mates_os.Interrupts.{
  Handlers, IdtDescEntry, get_offset, prepare_gates, set_offset, interrupt_gate,
}
use mates_os.Bits.{
  bit_and-low_mask, bit_and-field_mask, bit_ext, zero-bit_or, bit_or-lt, bit-bit_or, bit_or-fields,
  bit-lt,
}

-- The gate leads to the address, as an interrupt gate of the kernel's code segment.
abbrev pub LeadsTo : IdtDescEntry → ℕ → Type 0
LeadsTo e handler = (get_offset e ≡ handler) × (e.type_attr ≡ interrupt_gate) × (e.selector ≡ 0x08)

or_comm : (a b : ℕ) → a < 2 ^ 64 → b < 2 ^ 64 → bit_or a b ≡ bit_or b a
or_comm a b p q =
    bit_ext 64 (bit_or a b) (bit_or b a) (bit_or-lt 64 a b p q) (bit_or-lt 64 b a q p) (λ i l.
      bit-bit_or i a b
      ∙ (let x = bit-lt a i in let y = bit-lt b i in ground arith)
      ∙ sym (bit-bit_or i b a))

get_offset-set_offset :
    (offset : ℕ) (e : IdtDescEntry) (type selector : ℕ)
    → offset < 2 ^ 64
    → get_offset (record (set_offset offset e) { type_attr = type; selector = selector }) ≡ offset
unfolding get_offset set_offset
get_offset-set_offset offset e type selector fits =
    let a : bit_and offset 0x000000000000ffff ≡ offset % 2 ^ 16 = bit_and-low_mask 16 offset in
    let b : bit_and offset 0x00000000ffff0000 ≡ offset / 2 ^ 16 % 2 ^ 16 * 2 ^ 16 =
      bit_and-field_mask 16 16 offset in
    let c : bit_and offset 0xffffffff00000000 ≡ offset / 2 ^ 32 % 2 ^ 32 * 2 ^ 32 =
      bit_and-field_mask 32 32 offset in
    let low : u16 (bit_and offset 0x000000000000ffff) ≡ offset % 2 ^ 16 = omega (arith, a) in
    let middle : u64 (u16 (bit_and offset 0x00000000ffff0000 >>> 16) <<< 16)
        ≡ offset / 2 ^ 16 % 2 ^ 16 * 2 ^ 16 =
      omega (arith, b) in
    let high : u64 (u32 (bit_and offset 0xffffffff00000000 >>> 32) <<< 32)
        ≡ offset / 2 ^ 32 * 2 ^ 32 =
      omega (arith, c) in
    ap₂ (λ (x y : ℕ). bit_or x y)
      (ap₂ (λ (x y : ℕ). bit_or x y) (zero-bit_or (u16 (bit_and offset 0xffff)) ∙ low) middle
        ∙ or_comm (offset % 2 ^ 16) (offset / 2 ^ 16 % 2 ^ 16 * 2 ^ 16) (omega arith) (omega arith)
        ∙ bit_or-fields 16 (offset / 2 ^ 16 % 2 ^ 16) (offset % 2 ^ 16) (omega arith))
      high
    ∙ or_comm (offset / 2 ^ 16 % 2 ^ 16 * 2 ^ 16 + offset % 2 ^ 16) (offset / 2 ^ 32 * 2 ^ 32)
        (omega arith) (omega arith)
    ∙ bit_or-fields 32 (offset / 2 ^ 32) (offset / 2 ^ 16 % 2 ^ 16 * 2 ^ 16 + offset % 2 ^ 16)
        (omega arith)
    ∙ omega arith

-- The handler of a vector that has one.
abbrev pub handler_of : Handlers → ℕ → Option ℕ
handler_of h i =
    if 0x8 == i
    then some h.double_fault
    else if 0xD == i
    then some h.gp_fault
    else if 0xE == i
    then some h.page_fault
    else if 0x20 == i
    then some h.pit
    else if 0x21 == i
    then some h.keyboard
    else if 0x2C == i
    then some h.mouse
    else none

some_value : {a b : ℕ} → some a ≡ some b → a ≡ b
some_value {a} e = ap (value a) e
  where
    value : ℕ → Option ℕ → ℕ
    value d none = d
    value d (some x) = x

abbrev code : Option ℕ → ℕ
code none = 0
code (some x) = 1

none-some : {x : ℕ} → ¬ (Path (Option ℕ) none (some x))
none-some e = omega (arith, ap code e)

gate-LeadsTo :
    (handler a : ℕ) (e : IdtDescEntry)
    → some handler ≡ some a
    → a < 2 ^ 64
    → LeadsTo (record (set_offset handler e) { type_attr = interrupt_gate; selector = 0x08 }) a
gate-LeadsTo handler a e same fits =
    let s : handler ≡ a = some_value same in
    rw s (get_offset-set_offset a e interrupt_gate 0x08 fits, refl, refl)

-- After the gates of `PrepareInterrupts`, for handlers at 64-bit addresses: the gate of each vector
-- that has a handler leads to it, and every other gate is as it was.
pub prepare_gates-LeadsTo :
    (h : Handlers) (table : ℕ → IdtDescEntry) (i : ℕ)
    → ((a : ℕ) → handler_of h i ≡ some a → a < 2 ^ 64 → LeadsTo (prepare_gates h table i) a)
      × (handler_of h i ≡ none → prepare_gates h table i ≡ table i)
unfolding prepare_gates
prepare_gates-LeadsTo h table i = elim (Bool-cases (0x8 == i)) [
  | inl t ↦ let q : i ≡ 0x8 = ground arith in rw q (gate h.double_fault (table 0x8))
  | inr t1 ↦ elim (Bool-cases (0xD == i)) [
    | inl t ↦ let q : i ≡ 0xD = ground arith in rw q (gate h.gp_fault (table 0xD))
    | inr t2 ↦ elim (Bool-cases (0xE == i)) [
      | inl t ↦ let q : i ≡ 0xE = ground arith in rw q (gate h.page_fault (table 0xE))
      | inr t3 ↦ elim (Bool-cases (0x20 == i)) [
        | inl t ↦ let q : i ≡ 0x20 = ground arith in rw q (gate h.pit (table 0x20))
        | inr t4 ↦ elim (Bool-cases (0x21 == i)) [
          | inl t ↦ let q : i ≡ 0x21 = ground arith in rw q (gate h.keyboard (table 0x21))
          | inr t5 ↦ elim (Bool-cases (0x2C == i)) [
            | inl t ↦ let q : i ≡ 0x2C = ground arith in rw q (gate h.mouse (table 0x2C))
            | inr t6 ↦ rw (t1, t2, t3, t4, t5, t6) (λ a e fits. absurd (none-some e), λ e. refl)
          ]
        ]
      ]
    ]
  ]
]
  where
    gate :
        (handler : ℕ) (e : IdtDescEntry)
        → ((a : ℕ)
            → some handler ≡ some a
            → a < 2 ^ 64
            → LeadsTo
                (record (set_offset handler e) { type_attr = interrupt_gate; selector = 0x08 })
                a)
          × (some handler ≡ none
              → record (set_offset handler e) { type_attr = interrupt_gate; selector = 0x08 } ≡ e)
    gate handler e = (λ a. gate-LeadsTo handler a e, λ q. absurd (none-some (sym q)))
