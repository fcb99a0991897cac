-- ===== src/Ahci/Probe.antt =====
-- What `ProbePorts` of kernel/src/ahci/ahci.cpp finds.
use mates_os.Ahci.{
  PortType, check_port_type, probe_ports, Bool, List, PortStatus, has, is_supported, AhciDriver,
  Port, [], port_signature, false, ◌∷◌, probe_port, sata, for_loop, satapi, no_port, true, bit_and,
  u8, semb, pm,
}
use mates_os.Base.{
  ℕ, Bool, List, [], ◌==◌, ◌^◌, ◌≡◌, arith, false, if◌then◌else◌, length, ◌&&◌, ◌++◌, ◌+◌, ◌<◌, ◌∷◌,
  Bool-cases, ltb, ◌%◌, ◌||◌, ◌≤◌, ◌⊎◌, for_loop, inl, inr, refl, ◌/◌, ap, suc, true, bit_and, sym,
  zero, ◌*◌, ne→==, ◌∙◌, u8, ◌>>>◌, length-append, eq→==,
}
use mates_os.Bits.{bit, bit-lt, bit_and-two_pow, bit_and-low_mask}
use native.Mathlib.Nat.{one-le-pow}

abbrev type_code : PortType → ℕ
type_code no_port = 0
type_code sata = 1
type_code semb = 2
type_code pm = 3
type_code satapi = 4

abbrev pub same_type : PortType → PortType → Bool
same_type a b = type_code a == type_code b

abbrev pub has_port : ℕ → PortType → List Port → Bool
has_port i t [] = false
has_port i t (p ∷ ps) = (p.hba_port == i && same_type p.port_type t) || has_port i t ps

-- The ports have their places in the array as numbers.
abbrev pub AreNumbered : ℕ → List Port → Type 0
AreNumbered n [] = Unit {0}
AreNumbered n (p ∷ ps) = (p.port_number ≡ n) × AreNumbered (n + 1) ps

-- A port that is implemented and has a device that is present, active, and a disk or a drive.
abbrev pub is_found : ℕ → (ℕ → PortStatus) → ℕ → PortType → Bool
is_found implemented status i t =
    bit implemented i == 1
    && ((status i).sata_status % 8 == 3
        && ((status i).sata_status / 256 % 7 == 1
            && ((same_type t sata && (status i).signature == 0x101)
                || (same_type t satapi && (status i).signature == 0xEB140101))))

pub record AreProbed (implemented : ℕ) (status : ℕ → PortStatus) (n : ℕ) (d : AhciDriver)
    : Type 0 where
  pub numbered : AreNumbered 0 d.ports
  pub counted : d.port_count ≡ length d.ports
  pub few : length d.ports ≤ n
  pub exact :
      (i : ℕ) (t : PortType) → has_port i t d.ports ≡ (ltb i n && is_found implemented status i t)

AreNumbered-append :
    (n : ℕ) (ps : List Port) (p : Port)
    → AreNumbered n ps
    → p.port_number ≡ n + length ps
    → AreNumbered n (ps ++ p ∷ [])
AreNumbered-append n [] p h e = (omega (arith, e), tt)
AreNumbered-append n (q ∷ ps) p (f, h) e = (f, AreNumbered-append (n + 1) ps p h (omega (arith, e)))

has_port-append :
    (i : ℕ) (t : PortType) (ps : List Port) (p : Port)
    → has_port i t (ps ++ p ∷ [])
      ≡ ((p.hba_port == i && same_type p.port_type t) || has_port i t ps)
has_port-append i t [] p = refl
has_port-append i t (q ∷ ps) p = ground (arith, has_port-append i t ps p)

or-false : (b : Bool) → (b || false) ≡ b
or-false true = refl
or-false false = refl

has-two_pow : (x i : ℕ) → has x (2 ^ i) ≡ (bit x i == 1)
has-two_pow x i = elim (bit-cases (bit-lt x i)) [
  | inl e ↦
      let t : (0 * 2 ^ i == 0) ≡ true = eq→== _ _ (omega arith) in
      rw (bit_and-two_pow i x, e, t) refl
  | inr e ↦
      let t : (1 * 2 ^ i == 0) ≡ false =
        ne→== _ _ (λ z. omega (arith, one-le-pow i 2 (omega arith), z)) in
      rw (bit_and-two_pow i x, e, t) refl
]
  where
    bit-cases : {b : ℕ} → b < 2 → (b ≡ 0) ⊎ (b ≡ 1)
    bit-cases q = ground arith

check_port_type-active :
    (s : PortStatus)
    → check_port_type s ≡ (
        if s.sata_status % 8 == 3 && s.sata_status / 256 % 7 == 1
        then port_signature s.signature
        else no_port)
unfolding check_port_type
check_port_type-active s =
    let low : bit_and s.sata_status 0b111 ≡ s.sata_status % 8 = bit_and-low_mask 3 s.sata_status in
    let small : u8 (s.sata_status % 8) ≡ s.sata_status % 8 = omega arith in
    let power : u8 ((s.sata_status >>> 8) % 0b111) ≡ s.sata_status / 256 % 7 = omega arith in
    elim (Bool-cases (s.sata_status % 8 == 3)) [
      | inr t ↦ rw (low, small, power, t) refl
      | inl t ↦ elim (Bool-cases (s.sata_status / 256 % 7 == 1)) [
        | inl q ↦ rw (low, small, power, t, q) refl
        | inr q ↦ rw (low, small, power, t, q) refl
      ]
    ]

signature_found :
    (g : ℕ) (t : PortType)
    → (is_supported (port_signature g) && same_type (port_signature g) t)
      ≡ ((same_type t sata && g == 0x101) || (same_type t satapi && g == 0xEB140101))
signature_found g no_port = ground arith
signature_found g sata = ground arith
signature_found g semb = ground arith
signature_found g pm = ground arith
signature_found g satapi = ground arith

supported_found :
    (implemented : ℕ) (status : ℕ → PortStatus) (i : ℕ) (t : PortType)
    → is_found implemented status i t ≡ (
        has implemented (2 ^ i)
        && (is_supported (check_port_type (status i)) && same_type (check_port_type (status i)) t))
supported_found implemented status i t =
    let h = has-two_pow implemented i in
    let c = check_port_type-active (status i) in
    let g = signature_found (status i).signature t in
    elim (Bool-cases ((status i).sata_status % 8 == 3)) [
      | inr x ↦ rw (h, c, x) (ground arith)
      | inl x ↦ elim (Bool-cases ((status i).sata_status / 256 % 7 == 1)) [
        | inr y ↦ rw (h, c, x, y) (ground arith)
        | inl y ↦ rw (h, c, x, y) (ap (λ (b : Bool). bit implemented i == 1 && b) (sym g))
      ]
    ]

probe_port-AreProbed :
    (implemented : ℕ) (status : ℕ → PortStatus) (n : ℕ) (d : AhciDriver)
    → n < 32
    → AreProbed implemented status n d
    → AreProbed implemented status (n + 1) (probe_port implemented status n d)
probe_port-AreProbed implemented status n d below p = elim (Bool-cases (has implemented (2 ^ n))) [
  | inr x ↦ rw x (skipped (λ t. supported_found implemented status n t ∙ rw x refl))
  | inl x ↦ elim (Bool-cases (is_supported (check_port_type (status n)))) [
    | inr y ↦ rw (x, y) (skipped (λ t. supported_found implemented status n t ∙ rw (x, y) refl))
    | inl y ↦
        rw (x, y)
          (record {
            numbered = AreNumbered-append 0 d.ports _ p.numbered (omega (arith, p.counted));
            counted = omega (arith, length-append d.ports (new ∷ []), p.counted, p.few);
            few = omega (arith, length-append d.ports (new ∷ []), p.few);
            exact = λ i t.
                has_port-append i t d.ports new
                ∙ at i t (p.exact i t) (supported_found implemented status n t ∙ rw (x, y) refl);
          })
  ]
]
  where
    new : Port
    new = record {
      hba_port = n;
      port_type = check_port_type (status n);
      buffer = 0;
      port_number = d.port_count;
      configured = false;
    }

    at :
        (i : ℕ) (t : PortType)
        → has_port i t d.ports ≡ (ltb i n && is_found implemented status i t)
        → is_found implemented status n t ≡ same_type (check_port_type (status n)) t
        → ((n == i && same_type (check_port_type (status n)) t) || has_port i t d.ports)
          ≡ (ltb i (n + 1) && is_found implemented status i t)
    at i t e f = elim (Bool-cases (n == i)) [
      | inl q ↦
          let same : n ≡ i = ground arith in
          let l : ltb i n ≡ false = ground arith in
          let u : ltb i (n + 1) ≡ true = ground arith in
          rw (q, e, l, u)
            (or-false (same_type (check_port_type (status n)) t)
              ∙ sym f
              ∙ ap (λ (k : ℕ). is_found implemented status k t) same)
      | inr q ↦ let u : ltb i (n + 1) ≡ ltb i n = ground arith in rw (q, e, u) refl
    ]

    more :
        (i : ℕ) (t : PortType)
        → is_found implemented status n t ≡ false
        → (ltb i n && is_found implemented status i t)
          ≡ (ltb i (n + 1) && is_found implemented status i t)
    more i t h = elim (Bool-cases (n == i)) [
      | inl q ↦
          let same : n ≡ i = ground arith in
          let f : is_found implemented status i t ≡ false =
            ap (λ (k : ℕ). is_found implemented status k t) (sym same) ∙ h in
          rw f (ground arith)
      | inr q ↦ let u : ltb i (n + 1) ≡ ltb i n = ground arith in rw u refl
    ]

    skipped :
        ((t : PortType) → is_found implemented status n t ≡ false)
        → AreProbed implemented status (n + 1) d
    skipped h = record {
      numbered = p.numbered;
      counted = p.counted;
      few = omega (arith, p.few);
      exact = λ i t. p.exact i t ∙ more i t (h t);
    }

probe_loop-AreProbed :
    (implemented : ℕ) (status : ℕ → PortStatus) (left n : ℕ) (d : AhciDriver)
    → n + left ≤ 32
    → AreProbed implemented status n d
    → AreProbed implemented status (n + left) (for_loop (probe_port implemented status) left n d)
probe_loop-AreProbed implemented status zero n d q p = let e : n + 0 ≡ n = omega arith in rw e p
probe_loop-AreProbed implemented status (suc left) n d q p =
    let e : n + suc left ≡ n + 1 + left = omega arith in
    rw e (
      probe_loop-AreProbed implemented status left (n + 1) (probe_port implemented status n d)
        (omega arith) (probe_port-AreProbed implemented status n d (omega arith) p))

-- `ProbePorts` of a driver without ports: the ports are those of the 32 that are implemented, detect
-- a device, have 1 as the power state modulo 7, and have the signature of a disk or of a drive, each
-- with its type; they have their places in the array as numbers, and their count fits.
pub probe_ports-AreProbed :
    (implemented : ℕ) (status : ℕ → PortStatus)
    → AreProbed implemented status 32
        (probe_ports implemented status (record { ports = []; port_count = 0 }))
unfolding probe_ports
probe_ports-AreProbed implemented status =
    probe_loop-AreProbed implemented status 32 0 (record { ports = []; port_count = 0 })
      (omega arith)
      (record {
        numbered = tt;
        counted = refl;
        few = omega arith;
        exact = λ i t. let l : ltb i 0 ≡ false = ground arith in rw l refl;
      })
