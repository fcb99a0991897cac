-- ===== src/Ahci/Command.antt =====
-- `Port::Read` of kernel/src/ahci/ahci.cpp: the command that it builds, and how it waits.
use mathlib.Core.Bool.{true≢false}
use mates_os.Base.{
  inl, inr, some, none, refl, zero, suc, ℕ, Option, u32, ◌+◌, ◌<◌, ◌≢◌, ◌≤◌, Bool, if◌then◌else◌,
  ◌*◌, ◌>>>◌, ◌^◌, ◌≡◌, bit_or, false, true, u8, ◌%◌, ◌<<<◌, ◌==◌, arith, bit_and, ◌-◌, ◌/◌, ◌⊎◌,
  Bool-cases, eq→==, ne→==, ap, sym, ◌∙◌, ==_iff, List, [], ◌++◌, ◌∷◌,
}
use mates_os.Ahci.{has, false, true, u8, bit_and, List, []}
use mates_os.Bits.{bit_and-low_mask}

-- The parts of `FIS_REG_H2D` that are written; the others are 0.
pub record Fis : Type 0 where
  pub fis_type : ℕ
  pub command_control : ℕ
  pub command : ℕ
  pub lba0 : ℕ
  pub lba1 : ℕ
  pub lba2 : ℕ
  pub device_register : ℕ
  pub lba3 : ℕ
  pub lba4 : ℕ
  pub lba5 : ℕ
  pub count_low : ℕ
  pub count_high : ℕ

unfoldable pub read_fis : ℕ → ℕ → Fis
read_fis sector sector_count =
    let sector_l = u32 sector in
    let sector_h = u32 (sector >>> 32) in
    record {
      fis_type = 0x27;
      command_control = 1;
      command = 0x25;
      lba0 = u8 sector_l;
      lba1 = u8 (sector_l >>> 8);
      lba2 = u8 (sector_l >>> 16);
      device_register = 1 <<< 6;
      lba3 = u8 sector_h;
      lba4 = u8 (sector_h >>> 8);
      lba5 = u8 (sector_h >>> 16);
      count_low = bit_and sector_count 0xFF;
      count_high = bit_and (sector_count >>> 8) 0xFF;
    }

-- The parts of `HBAPRDTEntry` that are written.
pub record PrdtEntry : Type 0 where
  pub data_base_address : ℕ
  pub data_base_address_upper : ℕ
  pub byte_count : ℕ
  pub interrupt_on_completion : ℕ

-- `byteCount` has 22 bits.
unfoldable pub read_entry : ℕ → ℕ → PrdtEntry
read_entry buffer sector_count = record {
  data_base_address = u32 buffer;
  data_base_address_upper = u32 (buffer >>> 32);
  byte_count = (u32 (sector_count <<< 9) + 2 ^ 32 - 1) % 2 ^ 22;
  interrupt_on_completion = 1;
}

-- The loop that waits while the device is busy, `left` reads before its limit.
unfoldable pub spin_loop : ℕ → (ℕ → ℕ) → ℕ → ℕ
spin_loop zero task_file spin = spin
spin_loop (suc left) task_file spin =
    let rest = spin_loop left task_file (spin + 1) in
    if has (task_file spin) (bit_or 0x80 0x08) then rest else spin

-- The loop that waits for the command, with the values that reads of `commandIssue` and of
-- `interruptStatus` give.
unfoldable pub issue_loop : ℕ → (ℕ → ℕ) → (ℕ → ℕ) → ℕ → Option Bool
issue_loop zero issue interrupts n = none
issue_loop (suc fuel) issue interrupts n =
    let again = issue_loop fuel issue interrupts (n + 1) in
    if issue n == 0 then some true else if has (interrupts n) (2 ^ 30) then some false else again

-- What `Read` writes, in order: to the registers of the port, to the command header at the address, to the
-- command table at the address and to its parts.
pub data PortWrite : Type 0 where
  interrupt_status : ℕ → PortWrite
  command_header : ℕ → ℕ → ℕ → ℕ → PortWrite
  clear_memory : ℕ → ℕ → PortWrite
  table_entry : ℕ → PrdtEntry → PortWrite
  command_fis : ℕ → Fis → PortWrite
  command_issue : ℕ → PortWrite

-- The writes before the wait. `list` is the value of `commandListBase` and `table` that of
-- `commandTableBaseAddress` in the header: the upper halves are not read. A header gets the length of the
-- command in words, the direction and the number of entries.
unfoldable pub prepare_read : ℕ → ℕ → ℕ → ℕ → ℕ → List PortWrite
prepare_read buffer list table sector sector_count =
    interrupt_status (2 ^ 32 - 1)
    ∷ command_header list (20 / 4) 0 1
    ∷ clear_memory table (128 + (1 - 1) * 16)
    ∷ table_entry table (read_entry buffer sector_count)
    ∷ command_fis table (read_fis sector sector_count)
    ∷ []

-- `Read`, with the values that the controller's registers give: what it writes, and what it returns.
unfoldable pub read_port :
    ℕ → (ℕ → ℕ) → (ℕ → ℕ) → (ℕ → ℕ) → ℕ → ℕ → ℕ → ℕ → ℕ → List PortWrite × Option Bool
read_port fuel task_file issue interrupts buffer list table sector sector_count =
    let prepared = prepare_read buffer list table sector sector_count in
    if buffer == 0
    then ([], some false)
    else if spin_loop 1000000 task_file 0 == 1000000
    then (prepared, some false)
    else (prepared ++ command_issue 1 ∷ [], issue_loop fuel issue interrupts 0)

-- The address that the six bytes of a command stand for.
abbrev pub lba_of : Fis → ℕ
lba_of f =
    f.lba0 + f.lba1 * 2 ^ 8 + f.lba2 * 2 ^ 16 + f.lba3 * 2 ^ 24 + f.lba4 * 2 ^ 32 + f.lba5 * 2 ^ 40

-- The command of `Read` names the sector whose lowest 24 bits are those of the sector asked for, and
-- whose next 24 bits are bits 32 to 55 of it, so it is the sector asked for when that is below
-- 2 ^ 24; the count has its lowest 16 bits, and up to 8192 sectors the entry has their bytes less 1.
pub read_fis-lba :
    (sector sector_count buffer : ℕ)
    → sector < 2 ^ 64
    → (lba_of (read_fis sector sector_count) ≡ sector % 2 ^ 24 + sector / 2 ^ 32 % 2 ^ 24 * 2 ^ 24)
      × (sector < 2 ^ 24 → lba_of (read_fis sector sector_count) ≡ sector)
      × ((read_fis sector sector_count).count_low
            + (read_fis sector sector_count).count_high * 2 ^ 8
          ≡ sector_count % 2 ^ 16)
      × (0 < sector_count
          → sector_count ≤ 8192
          → (read_entry buffer sector_count).byte_count + 1 ≡ 512 * sector_count)
unfolding read_fis read_entry
read_fis-lba sector sector_count buffer fits =
    let low : bit_and sector_count 0xFF ≡ sector_count % 256 = bit_and-low_mask 8 sector_count in
    let high : bit_and (sector_count >>> 8) 0xFF ≡ (sector_count >>> 8) % 256 =
      bit_and-low_mask 8 (sector_count >>> 8) in
    (omega arith, λ q. omega arith, omega (arith, low, high), λ p q. omega arith)

spin_loop-first :
    (left : ℕ) (task_file : ℕ → ℕ) (spin : ℕ)
    → (spin ≤ spin_loop left task_file spin)
      × (spin_loop left task_file spin ≤ spin + left)
      × ((i : ℕ) → spin ≤ i → i < spin_loop left task_file spin → has (task_file i) 0x88 ≡ true)
      × (spin_loop left task_file spin < spin + left
          → has (task_file (spin_loop left task_file spin)) 0x88 ≡ false)
unfolding spin_loop
spin_loop-first zero task_file spin =
    (omega arith, omega arith, λ i p q. absurd (omega arith), λ p. absurd (omega arith))
spin_loop-first (suc left) task_file spin =
    let (low, high, busy, ends) = spin_loop-first left task_file (spin + 1) in
    elim (Bool-cases (has (task_file spin) 0x88)) [
      | inr t ↦ rw t (omega arith, omega arith, λ i p q. absurd (omega arith), λ p. t)
      | inl t ↦ rw t (
        omega arith,
        omega arith,
        λ i p q. elim (Bool-cases (i == spin)) [
          | inl e ↦ ap (λ (k : ℕ). has (task_file k) 0x88) (ground arith) ∙ t
          | inr e ↦ busy i (ground arith) q
        ],
        λ p. ends (omega arith),
      )
    ]

issue_loop-ends :
    (fuel : ℕ) (issue interrupts : ℕ → ℕ) (n k : ℕ)
    → (issue (n + k) ≡ 0) ⊎ (has (interrupts (n + k)) (2 ^ 30) ≡ true)
    → k < fuel
    → ((i : ℕ) → n ≤ i → i < n + k → (issue i ≢ 0) × (has (interrupts i) (2 ^ 30) ≡ false))
    → issue_loop fuel issue interrupts n ≡ some (issue (n + k) == 0)
unfolding issue_loop
issue_loop-ends zero issue interrupts n k e q h = absurd (omega arith)
issue_loop-ends (suc fuel) issue interrupts n zero e q h =
    let s : n + 0 ≡ n = omega arith in
    elim (Bool-cases (issue n == 0)) [ inl t ↦ rw (s, t) refl | inr t ↦ rw (s, t) (failed e s t) ]
  where
    failed :
        (issue (n + 0) ≡ 0) ⊎ (has (interrupts (n + 0)) (2 ^ 30) ≡ true)
        → n + 0 ≡ n
        → (issue n == 0) ≡ false
        → (if has (interrupts n) (2 ^ 30)
            then some false
            else issue_loop fuel issue interrupts (n + 1))
          ≡ some false
    failed (inl z) s t = absurd (true≢false (sym (eq→== _ _ (ap issue (sym s) ∙ z)) ∙ t))
    failed (inr z) s t =
        let f : has (interrupts n) (2 ^ 30) ≡ true =
          ap (λ (k : ℕ). has (interrupts k) (2 ^ 30)) (sym s) ∙ z in
        rw f refl
issue_loop-ends (suc fuel) issue interrupts n (suc k) e q h =
    let s : n + suc k ≡ n + 1 + k = omega arith in
    let ih =
      issue_loop-ends fuel issue interrupts (n + 1) k (rw (← s) e) (omega arith)
        (λ i p r. h i (omega arith) (omega arith)) in
    let (busy, clean) = h n (omega arith) (omega arith) in rw (ne→== _ _ busy, clean, s) ih

-- The writes of a command for the sectors, in order, as they have to be.
abbrev pub IsPrepared : ℕ → ℕ → ℕ → ℕ → ℕ → List PortWrite → Type 0
IsPrepared buffer list table sector sector_count writes =
    (writes
      ≡ interrupt_status 0xFFFF_FFFF
        ∷ command_header list 5 0 1
        ∷ clear_memory table 128
        ∷ table_entry table (read_entry buffer sector_count)
        ∷ command_fis table (read_fis sector sector_count)
        ∷ [])

-- What `Read` does: nothing without a buffer; the command put together but not issued, for a device that
-- stays busy; and else the command put together and then issued.
abbrev pub ReadOutcome : ℕ → (ℕ → ℕ) → (ℕ → ℕ) → (ℕ → ℕ) → ℕ → ℕ → ℕ → ℕ → ℕ → Bool → Type 0
ReadOutcome fuel task_file issue interrupts buffer list table sector sector_count done =
    let r = read_port fuel task_file issue interrupts buffer list table sector sector_count in
    ((buffer ≡ 0) × (r ≡ ([], some false)))
    ⊎ ((writes : List PortWrite) × IsPrepared buffer list table sector sector_count writes
        × (buffer ≢ 0)
        × ((((i : ℕ) → i < 1000000 → has (task_file i) 0x88 ≡ true) × (r ≡ (writes, some false)))
            ⊎ ((i : ℕ) × (i < 1000000)
                × (has (task_file i) 0x88 ≡ false)
                × (r ≡ (writes ++ command_issue 1 ∷ [], some done)))))

-- `Read`, where at read `k` of the registers, with fuel left, the command is done or has failed, and at no
-- read before. Without a buffer it writes nothing and returns false. With one, of a device that is busy at
-- each of a million reads, it clears the interrupts, puts the command together in the header, the table
-- and the command block, does not issue it, and returns false. Of a device that is not busy at some of
-- these reads it does the same and then issues the command, and returns whether the command was done at
-- read `k`.
pub read_port_lem :
    (fuel : ℕ) (task_file issue interrupts : ℕ → ℕ) (buffer list table sector sector_count k : ℕ)
    → k < fuel
    → (issue k ≡ 0) ⊎ (has (interrupts k) (2 ^ 30) ≡ true)
    → ((j : ℕ) → j < k → (issue j ≢ 0) × (has (interrupts j) (2 ^ 30) ≡ false))
    → ReadOutcome fuel task_file issue interrupts buffer list table sector sector_count
        (issue k == 0)
unfolding read_port prepare_read
read_port_lem fuel task_file issue interrupts buffer list table sector sector_count k enough last
      before =
    let (low, high, busy, ends) = spin_loop-first 1000000 task_file 0 in
    let spins = spin_loop 1000000 task_file 0 in
    let z : 0 + k ≡ k = omega arith in
    let done : issue_loop fuel issue interrupts 0 ≡ some (issue k == 0) =
      issue_loop-ends fuel issue interrupts 0 k (rw z last) enough (λ i p q. before i (omega arith))
      ∙ ap (λ (j : ℕ). some (issue j == 0)) z in
    elim (Bool-cases (buffer == 0)) [
      | inl b ↦ inl (ground (arith, b), rw b refl)
      | inr b ↦
          let nonnull : buffer ≢ 0 = λ e. true≢false (sym (eq→== _ _ e) ∙ b) in
          elim (Bool-cases (spins == 1000000)) [
            | inl s ↦
                let full : spins ≡ 1000000 = (==_iff _ _).0 s in
                inr (
                  prepare_read buffer list table sector sector_count,
                  refl,
                  nonnull,
                  inl ((λ i p. busy i (omega arith) (omega (arith, full))), rw (b, s) refl),
                )
            | inr s ↦
                let few : spins < 1000000 = below spins high s in
                inr (
                  prepare_read buffer list table sector sector_count,
                  refl,
                  nonnull,
                  inr (spins, few, ends (omega (arith, few)), rw (b, s, done) refl),
                )
          ]
    ]
  where
    below : (n : ℕ) → n ≤ 0 + 1000000 → (n == 1000000) ≡ false → n < 1000000
    below n p q = ground arith
