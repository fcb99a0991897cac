-- ===== src/Paging/Entry/Laws.antt =====
-- What the setters of an entry do to what the getters read.
use native.Mathlib.Nat.{one-le-pow, pow-le-pow_right}
use mates_os.Bits.{
  bit, bit-lt, bit-bit_and, bit-bit_or, bit-two_pow, bit-complement, bit_and-two_pow, bit_ext,
  bit_and-field_mask, bit_and-split,
}
use mates_os.Bits.Fields.{bit-shift_right, bit-shift_left, bit-mod, bit-low_mask}
use mates_os.Paging.Entry.{
  set_flag, get_flag, set_flags, get_flags, set_address, get_address, address_mask, flags_mask,
  complement64,
}
use mates_os.Base.{
  ℕ, ◌+◌, ◌-◌, ◌*◌, ◌/◌, ◌%◌, ◌^◌, ◌≤◌, ◌<◌, ◌≡◌, ap, ◌∙◌, arith, ltb, leb, ◌==◌, ◌&&◌,
  if◌then◌else◌, Bool, max, bit_and, ◌⊎◌, ◌||◌,
}

get_flag-bit : (value flag : ℕ) → get_flag value flag ≡ ltb 0 (bit value flag)
unfolding get_flag
get_flag-bit value flag =
    let e : 1 * 2 ^ flag ≡ 2 ^ flag = omega arith in
    rw (e, bit_and-two_pow flag value) (ground (arith, bit-lt value flag, one-le-pow flag 2))

pow-lt64 : (flag : ℕ) → flag < 64 → 2 ^ flag < 2 ^ 64
pow-lt64 flag h =
    omega (arith, pow-le-pow_right {n = 2} (omega arith) {i = flag} {j = 63} (omega arith))

bit-set_flag :
    (value flag i : ℕ) (v : Bool)
    → flag < 64
    → i < 64
    → bit (set_flag value flag v) i ≡ (if flag == i then (if v then 1 else 0) else bit value i)
unfolding set_flag
bit-set_flag value flag i v h p =
    let e : 1 * 2 ^ flag ≡ 2 ^ flag = omega arith in
    rw e (
      ground (
        arith,
        bit-bit_or i (bit_and value (complement64 (2 ^ flag))) (2 ^ flag),
        bit-bit_and i value (complement64 (2 ^ flag)),
        bit-complement 64 i (2 ^ flag) (pow-lt64 flag h) p,
        bit-two_pow flag i,
        bit-lt value i,
      ))

-- A flag after `SetFlag`: the flag that was set has the value that was given, every other the value that
-- it had.
pub get_flag-set_flag :
    (value flag i : ℕ) (v : Bool)
    → flag < 64
    → i < 64
    → get_flag (set_flag value flag v) i ≡ (if flag == i then v else get_flag value i)
get_flag-set_flag value flag i v h p = ground (
  arith,
  get_flag-bit (set_flag value flag v) i,
  get_flag-bit value i,
  bit-set_flag value flag i v h p,
)

bit-address_mask : (i : ℕ) → bit address_mask i ≡ (if leb 12 i && ltb i 52 then 1 else 0)
bit-address_mask i = ground (arith, bit-shift_left 12 (2 ^ 40 - 1) i, bit-low_mask 40 (i - 12))

bit-flags_mask : (i : ℕ) → i < 64 → bit flags_mask i ≡ (if leb 12 i && ltb i 52 then 0 else 1)
bit-flags_mask i p =
    ground (arith, bit-complement 64 i address_mask (omega arith) p, bit-address_mask i)

bit-set_address :
    (value address i : ℕ)
    → i < 64
    → bit (set_address value address) i
      ≡ (if leb 12 i && ltb i 52 then bit address (i - 12) else bit value i)
unfolding set_address
bit-set_address value address i p = ground (
  arith,
  bit-bit_or i (bit_and value flags_mask) (bit_and address (2 ^ 40 - 1) * 2 ^ 12),
  bit-bit_and i value flags_mask,
  bit-flags_mask i p,
  bit-shift_left 12 (bit_and address (2 ^ 40 - 1)) i,
  bit-bit_and (i - 12) address (2 ^ 40 - 1),
  bit-low_mask 40 (i - 12),
  bit-lt address (i - 12),
  bit-lt value i,
)

pub get_address-field : (value : ℕ) → get_address value ≡ value / 2 ^ 12 % 2 ^ 40
unfolding get_address
get_address-field value = omega (arith, bit_and-field_mask 12 40 value)

bit-get_address : (value i : ℕ) → i < 40 → bit (get_address value) i ≡ bit value (12 + i)
bit-get_address value i p =
    ap (λ t. bit t i) (get_address-field value)
    ∙ (bit-mod 40 (value / 2 ^ 12) i ∙ ground (arith, bit-shift_right 12 value i))

-- `GetAddress` after `SetAddress` gives the address, cut to 40 bits.
pub get_address-set_address :
    (value address : ℕ) → get_address (set_address value address) ≡ address % 2 ^ 40
get_address-set_address value address = bit_ext 40 _ _ fits (omega arith) λ i p.
    bit-get_address (set_address value address) i p
    ∙ (bit-set_address value address (12 + i) (omega arith)
        ∙ ground (arith, bit-mod 40 address i, ap (bit address) (over i)))
  where
    over : (i : ℕ) → 12 + i - 12 ≡ i
    over i = omega arith

    fits : get_address (set_address value address) < 2 ^ 40
    fits = omega (arith, get_address-field (set_address value address))

-- `SetAddress` leaves the flags of the entry as they are.
pub get_flag-set_address :
    (value address flag : ℕ)
    → flag < 64
    → (flag < 12) ⊎ (52 ≤ flag)
    → get_flag (set_address value address) flag ≡ get_flag value flag
get_flag-set_address value address flag h outside = ground (
  arith,
  get_flag-bit (set_address value address) flag,
  get_flag-bit value flag,
  bit-set_address value address flag h,
)

-- `SetFlag` of a flag leaves the address.
pub get_address-set_flag :
    (value flag : ℕ) (v : Bool)
    → flag < 64
    → (flag < 12) ⊎ (52 ≤ flag)
    → get_address (set_flag value flag v) ≡ get_address value
get_address-set_flag value flag v h outside =
    bit_ext 40 _ _ (fits (set_flag value flag v)) (fits value) λ i p.
      bit-get_address (set_flag value flag v) i p
      ∙ (bit-set_flag value flag (12 + i) v h (omega arith)
          ∙ ground (arith, bit-get_address value i p))
  where
    fits : (w : ℕ) → get_address w < 2 ^ 40
    fits w = omega (arith, get_address-field w)

bit-set_flags :
    (value flags i : ℕ)
    → i < 64
    → bit (set_flags value flags) i
      ≡ (if leb 12 i && ltb i 52 then bit value i else max (bit value i) (bit flags i))
unfolding set_flags
bit-set_flags value flags i p = ground (
  arith,
  bit-bit_or i value (bit_and flags flags_mask),
  bit-bit_and i flags flags_mask,
  bit-flags_mask i p,
  bit-lt value i,
  bit-lt flags i,
)

-- `SetFlags` adds the given flags, those outside the address field, to the flags of the entry, and
-- leaves the address.
pub set_flags-adds :
    (value flags : ℕ)
    → (get_address (set_flags value flags) ≡ get_address value)
      × ((flag : ℕ)
          → flag < 64
          → (flag < 12) ⊎ (52 ≤ flag)
          → get_flag (set_flags value flags) flag ≡ (get_flag value flag || get_flag flags flag))
set_flags-adds value flags = (
  bit_ext 40 _ _ (fits (set_flags value flags)) (fits value) (λ i p.
      bit-get_address (set_flags value flags) i p
      ∙ (bit-set_flags value flags (12 + i) (omega arith)
          ∙ ground (arith, bit-get_address value i p))),
  λ flag h outside. ground (
    arith,
    get_flag-bit (set_flags value flags) flag,
    get_flag-bit value flag,
    get_flag-bit flags flag,
    bit-set_flags value flags flag h,
    bit-lt value flag,
    bit-lt flags flag,
  ),
)
  where
    fits : (w : ℕ) → get_address w < 2 ^ 40
    fits w = omega (arith, get_address-field w)

-- Of an entry of 64 bits, `GetFlags` and `GetAddress` together give every bit back.
pub get_flags-get_address :
    (value : ℕ) → value < 2 ^ 64 → get_flags value + get_address value * 2 ^ 12 ≡ value
unfolding get_flags
get_flags-get_address value h = omega (
  arith,
  bit_and-split 64 value flags_mask h (omega arith),
  bit_and-field_mask 12 40 value,
  get_address-field value,
)

-- After `SetAddress`, `GetAddress` gives the address, cut to 40 bits, and every flag outside the
-- address field is as it was.
pub set_address_lem :
    (value address : ℕ)
    → (get_address (set_address value address) ≡ address % 2 ^ 40)
      × ((flag : ℕ)
          → flag < 64
          → (flag < 12) ⊎ (52 ≤ flag)
          → get_flag (set_address value address) flag ≡ get_flag value flag)
set_address_lem value address =
    (get_address-set_address value address, λ flag h o. get_flag-set_address value address flag h o)

-- After `SetFlag` of a flag outside the address field, that flag has the value that was given, and
-- every other flag and the address are as they were.
pub set_flag_lem :
    (value flag : ℕ) (v : Bool)
    → flag < 64
    → (flag < 12) ⊎ (52 ≤ flag)
    → ((i : ℕ)
        → i < 64
        → get_flag (set_flag value flag v) i ≡ (if flag == i then v else get_flag value i))
      × (get_address (set_flag value flag v) ≡ get_address value)
set_flag_lem value flag v h outside =
    (λ i p. get_flag-set_flag value flag i v h p, get_address-set_flag value flag v h outside)
