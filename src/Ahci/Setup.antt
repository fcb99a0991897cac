-- ===== src/Ahci/Setup.antt =====
-- `Port::Configure` of kernel/src/ahci/ahci.cpp, with the allocator of its pages as a parameter.
use mates_os.Base.{
  some, zero, suc, refl, inl, inr, ℕ, Bool, Option, if◌then◌else◌, ◌+◌, ◌≢◌, ◌≤◌, true, u32, ◌%◌,
  ◌/◌, ◌==◌, ◌≡◌, false, u64, ◌<◌, ◌>>>◌, arith, ◌*◌, ◌<<<◌, ne→==, ◌^◌, eq→==, ◌∙◌, Bool-cases,
}
use mates_os.Base.Partial.{◌>>=◌}
use mates_os.Paging.Source.{Source, Fresh}
use mates_os.Ahci.{has, false}
use mates_os.Ahci.Engine.{stop_cmd, receiving_bit, start_cmd, running_bit, stop_cmd-Stops}
use mates_os.Blocks.{memset}

-- The parts of `HBACommandHeader` that are written.
pub record CommandHeader : Type 0 where
  pub prdt_length : ℕ
  pub table_base : ℕ
  pub table_base_upper : ℕ

module _ (source : Source) where
  open source use {State, request_page}

  -- The allocator, the registers and the field of `Port` that are written, the command headers, and
  -- the memory by bytes.
  pub record Setup : Type 0 where
    pub frames : State
    pub command_list_base : ℕ
    pub command_list_base_upper : ℕ
    pub fis_base : ℕ
    pub fis_base_upper : ℕ
    pub configured : Bool
    pub headers : ℕ → CommandHeader
    pub memory : ℕ → ℕ

  abbrev set_header : ℕ → CommandHeader → (ℕ → CommandHeader) → ℕ → CommandHeader
  set_header i h headers j = if i == j then h else headers j

  -- The loop over the command headers, `left` before its end.
  unfoldable pub set_tables : ℕ → ℕ → Setup → Bool × Setup
  set_tables zero i s = (true, s)
  set_tables (suc left) i s =
      let sized = set_header i (record (s.headers i) { prdt_length = 8 }) s.headers in
      let (page, frames) = request_page s.frames in
      let address = u64 (page + (i <<< 8)) in
      let rest = set_tables left (i + 1) (record s {
        frames = frames;
        headers =
            set_header i
              (record (sized i) {
                table_base = u32 address;
                table_base_upper = u32 (address >>> 32);
              })
              sized;
        memory = memset page 0 256 s.memory;
      }) in
      if page == 0 then (false, record s { frames = frames; headers = sized }) else rest

  -- `Configure` between `StopCMD` and `StartCMD`. The command list is cleared through a pointer made of
  -- the low half of its address.
  unfoldable pub set_bases : Setup → Bool × Setup
  set_bases s =
      let (base, frames) = request_page s.frames in
      let listed = record s {
        frames = frames;
        command_list_base = u32 base;
        command_list_base_upper = u32 (base >>> 32);
        memory = memset (u32 base) 0 1024 s.memory;
      } in
      let (fis, more_frames) = request_page frames in
      let received = record listed {
        frames = more_frames;
        fis_base = u32 fis;
        fis_base_upper = u32 (fis >>> 32);
        memory = memset fis 0 256 listed.memory;
      } in
      if base == 0
      then (false, record s { frames = frames })
      else if fis == 0
      then (false, record listed { frames = more_frames })
      else set_tables 32 0 received

  -- `Configure`, with the reads of `cmdSts` and fuel for the two loops that wait.
  unfoldable pub configure : ℕ → (ℕ → ℕ) → Setup → Option (Bool × Setup)
  configure fuel status s = stop_cmd fuel status 0 >>= λ stopped.
      let (done, set) = set_bases s in
      if done
      then (start_cmd fuel status stopped.0 >>= λ started.
          some (true, record set { configured = true }))
      else some (false, set)

  -- A header points into a page that was free, 256 bytes further for each header before it.
  abbrev pub IsTable : State → ℕ → CommandHeader → Type 0
  IsTable frames i h =
      (page : ℕ) × (page ≢ 0)
      × (page % 4096 ≡ 0)
      × (source.taken frames (page / 4096) ≡ false)
      × (h.prdt_length ≡ 8)
      × (h.table_base + h.table_base_upper * 2 ^ 32 ≡ page + 256 * i)

  free_before :
      (s : State) (page : ℕ) (s' : State) (j : ℕ)
      → Fresh State source.taken source.room s page s'
      → source.taken s' j ≡ false
      → source.taken s j ≡ false
  free_before s page s' j f e = ground (arith, f.takes j)

  IsTable-before :
      (s : State) (page : ℕ) (s' : State) (i : ℕ) (h : CommandHeader)
      → Fresh State source.taken source.room s page s'
      → IsTable s' i h
      → IsTable s i h
  IsTable-before s page s' i h f (p, nonnull, aligned, free, size, at) =
      (p, nonnull, aligned, free_before s page s' (p / 4096) f free, size, at)

  set_tables-IsTable :
      (left i : ℕ) (s : Setup)
      → i + left ≤ 32
      → source.IsGood s.frames
      → left ≤ source.room s.frames
      → (s' : Setup) × (set_tables left i s ≡ (true, s'))
        × (s'.command_list_base ≡ s.command_list_base)
        × (s'.command_list_base_upper ≡ s.command_list_base_upper)
        × ((j : ℕ) → j < i → s'.headers j ≡ s.headers j)
        × ((j : ℕ) → i ≤ j → j < i + left → IsTable s.frames j (s'.headers j))
  unfolding set_tables
  set_tables-IsTable zero i s q good room =
      (s, refl, refl, refl, λ j p. refl, λ j p r. absurd (omega arith))
  set_tables-IsTable (suc left) i s q good room =
      let (fresh, good') = source.request_fresh s.frames good (omega arith) in
      let page = (request_page s.frames).0 in
      let frames = (request_page s.frames).1 in
      let sized = set_header i (record (s.headers i) { prdt_length = 8 }) s.headers in
      let address = u64 (page + (i <<< 8)) in
      let header = record (sized i) {
        table_base = u32 address;
        table_base_upper = u32 (address >>> 32);
      } in
      let next : Setup = record s {
        frames = frames;
        headers = set_header i header sized;
        memory = memset page 0 256 s.memory;
      } in
      let (s', e, base, upper, same, tables) =
        set_tables-IsTable left (i + 1) next (omega arith) good' (omega (arith, fresh.room_left)) in
      let t : (page == 0) ≡ false = ne→== _ _ fresh.nonnull in
      let here : (i == i) ≡ true = eq→== i i refl in
      let mine : s'.headers i ≡ header = same i (omega arith) ∙ rw here refl in
      let own : IsTable s.frames i header = (
        page,
        fresh.nonnull,
        fresh.aligned,
        fresh.was_free,
        rw here refl,
        omega (arith, fresh.in_range),
      ) in
      (
        s',
        rw t e,
        base,
        upper,
        λ j p.
            same j (omega arith)
            ∙ other j i header sized (λ x. omega arith)
            ∙ other j i (record (s.headers i) { prdt_length = 8 }) s.headers (λ x. omega arith),
        λ j p r. elim (Bool-cases (j == i)) [
          | inl x ↦ let k : j ≡ i = ground arith in rw (k, mine) own
          | inr x ↦
              IsTable-before s.frames page frames j (s'.headers j) fresh
                (tables j (ground arith) (omega arith))
        ],
      )
    where
      other :
          (j i : ℕ) (h : CommandHeader) (headers : ℕ → CommandHeader)
          → i ≢ j
          → set_header i h headers j ≡ headers j
      other j i h headers n = rw (ne→== i j n) refl

  -- `Configure` with 34 pages left, of a controller whose two bits stay clear from some read on: it
  -- ends and returns true, the registers hold the address of a page that was free as the command
  -- list, and each of the 32 command headers points 256 times its number behind the start of such a
  -- page: from the sixteenth on that is outside the page.
  pub configure-IsTable :
      (fuel : ℕ) (status : ℕ → ℕ) (k : ℕ) (s : Setup)
      → ((i : ℕ)
          → k ≤ i
          → (has (status i) receiving_bit ≡ false) × (has (status i) running_bit ≡ false))
      → k < fuel
      → source.IsGood s.frames
      → 34 ≤ source.room s.frames
      → (s' : Setup) × (configure fuel status s ≡ some (true, s'))
        × (s'.configured ≡ true)
        × ((page : ℕ) × (page ≢ 0)
            × (page % 4096 ≡ 0)
            × (source.taken s.frames (page / 4096) ≡ false)
            × (s'.command_list_base + s'.command_list_base_upper * 2 ^ 32 ≡ page))
        × ((i : ℕ) → i < 32 → IsTable s.frames i (s'.headers i))
  unfolding configure set_bases
  configure-IsTable fuel status k s settles enough good room =
      let ((j, a, b, stops, x, y, z), rest) = stop_cmd-Stops fuel status 0 k settles enough in
      let (rest', (l, c, d, starts, u, v)) = stop_cmd-Stops fuel status (j + 2) k settles enough in
      let (fresh, good') = source.request_fresh s.frames good (omega arith) in
      let base = (request_page s.frames).0 in
      let frames = (request_page s.frames).1 in
      let (fresh', good'') = source.request_fresh frames good' (omega (arith, fresh.room_left)) in
      let fis = (request_page frames).0 in
      let listed : Setup = record s {
        frames = frames;
        command_list_base = u32 base;
        command_list_base_upper = u32 (base >>> 32);
        memory = memset (u32 base) 0 1024 s.memory;
      } in
      let received : Setup = record listed {
        frames = (request_page frames).1;
        fis_base = u32 fis;
        fis_base_upper = u32 (fis >>> 32);
        memory = memset fis 0 256 listed.memory;
      } in
      let (s', e, low, high, same, tables) =
        set_tables-IsTable 32 0 received (omega arith) good''
          (omega (arith, fresh.room_left, fresh'.room_left)) in
      let t1 : (base == 0) ≡ false = ne→== _ _ fresh.nonnull in
      let t2 : (fis == 0) ≡ false = ne→== _ _ fresh'.nonnull in
      (
        record s' { configured = true },
        rw (stops, t1, t2, e, starts) refl,
        refl,
        (
          base,
          fresh.nonnull,
          fresh.aligned,
          fresh.was_free,
          omega (arith, low, high, fresh.in_range),
        ),
        λ i p. IsTable-before s.frames base frames i (s'.headers i) fresh (
            IsTable-before frames fis (request_page frames).1 i (s'.headers i) fresh'
              (tables i (omega arith) (omega arith))),
      )
