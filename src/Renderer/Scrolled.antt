-- ===== src/Renderer/Scrolled.antt =====
-- What `Scroll` of kernel/src/renderer/basic_renderer_general.cpp does to the pixels.
use mates_os.Base.{
  ℕ, for_loop, ◌*◌, ◌<◌, ◌≡◌, if◌then◌else◌, ◌^◌, leb, ◌&&◌, ◌+◌, ◌≤◌, ltb, false, arith, sub64,
  suc, ◌-◌, ◌∙◌, Bool-cases, inl, ◌==◌, true, ap, inr, refl, zero, u64,
}
use mates_os.Renderer.{scroll, Renderer, fill_pixel, move_pixel, row_size, from_color}

move_loop :
    (row n from : ℕ) (m : ℕ → ℕ) (i : ℕ)
    → for_loop (move_pixel row) n from m i
      ≡ (if leb from i && ltb i (from + n) then m (i + row) else m i)
move_loop row zero from m i =
    let t : (leb from i && ltb i (from + 0)) ≡ false = ground arith in rw t refl
move_loop row (suc n) from m i =
    move_loop row n (from + 1) (move_pixel row from m) i ∙ elim (Bool-cases (from == i)) [
      | inl e ↦
          let t : (leb (from + 1) i && ltb i (from + 1 + n)) ≡ false = ground arith in
          let u : (leb from i && ltb i (from + suc n)) ≡ true = ground arith in
          let same : from ≡ i = ground arith in rw (t, u, e) (ap (λ (k : ℕ). m (k + row)) same)
      | inr e ↦
          let t : (leb (from + 1) i && ltb i (from + 1 + n))
              ≡ (leb from i && ltb i (from + suc n)) =
            ground arith in
          elim (Bool-cases (leb from i && ltb i (from + suc n))) [
            | inr u ↦ rw (t, u, e) refl
            | inl u ↦ let f : (from == i + row) ≡ false = ground arith in rw (t, u, f) refl
          ]
    ]

fill_loop :
    (from value n j : ℕ) (m : ℕ → ℕ) (i : ℕ)
    → for_loop (fill_pixel from value) n j m i
      ≡ (if leb (from + j) i && ltb i (from + j + n) then value else m i)
fill_loop from value zero j m i =
    let t : (leb (from + j) i && ltb i (from + j + 0)) ≡ false = ground arith in rw t refl
fill_loop from value (suc n) j m i =
    fill_loop from value n (j + 1) (fill_pixel from value j m) i
    ∙ elim (Bool-cases (from + j == i)) [
      | inl e ↦
          let t : (leb (from + (j + 1)) i && ltb i (from + (j + 1) + n)) ≡ false = ground arith in
          let u : (leb (from + j) i && ltb i (from + j + suc n)) ≡ true = ground arith in
          rw (t, u, e) refl
      | inr e ↦
          let t : (leb (from + (j + 1)) i && ltb i (from + (j + 1) + n))
              ≡ (leb (from + j) i && ltb i (from + j + suc n)) =
            ground arith in
          rw (t, e) refl
    ]

scroll_rows :
    (r : Renderer) (row i : ℕ)
    → row_size r ≡ row
    → row * r.y_grid_max < 2 ^ 64
    → row ≤ row * r.y_grid_max
    → (scroll r).pixels i ≡ (
        if ltb (i + row) (row * r.y_grid_max)
        then r.pixels (i + row)
        else if ltb i (row * r.y_grid_max)
        then from_color r.clear_color
        else r.pixels i)
unfolding scroll
scroll_rows r row i same fits line =
    let screen = row * r.y_grid_max in
    let kept : ℕ = sub64 (u64 (row * r.y_grid_max)) row in
    let k : kept ≡ screen - row = omega arith in
    let moved : ℕ → ℕ = for_loop (move_pixel row) kept 0 r.pixels in
    rw same (
      fill_loop kept (from_color r.clear_color) row 0 moved i
      ∙ elim (Bool-cases (ltb (i + row) screen)) [
        | inl t ↦
            let u : (leb (kept + 0) i && ltb i (kept + 0 + row)) ≡ false = ground arith in
            let v : (leb 0 i && ltb i (0 + kept)) ≡ true = ground arith in
            rw (t, u) (move_loop row kept 0 r.pixels i ∙ rw v refl)
        | inr t ↦ elim (Bool-cases (ltb i screen)) [
          | inl w ↦
              let u : (leb (kept + 0) i && ltb i (kept + 0 + row)) ≡ true = ground arith in
              rw (t, w, u) refl
          | inr w ↦
              let u : (leb (kept + 0) i && ltb i (kept + 0 + row)) ≡ false = ground arith in
              let v : (leb 0 i && ltb i (0 + kept)) ≡ false = ground arith in
              rw (t, w, u) (move_loop row kept 0 r.pixels i ∙ rw v refl)
        ]
      ])

-- The pixels of one line of text: the lines of pixels that a character is high, with what lies behind
-- each in memory. The grid has as many of them as it has lines.
abbrev pub text_line : Renderer → ℕ
text_line r = r.frame_buffer.pixels_per_scanline * r.font_height

-- `Scroll`, when the sizes fit their types and the grid has a line: every pixel above the last line
-- of text is that of one line of text further down, which is the pixels per line of the screen times the
-- height of a character; those of the last line have the background's colour, and those behind the grid
-- are as they were.
pub scroll_lem :
    (r : Renderer) (i : ℕ)
    → text_line r < 2 ^ 32
    → text_line r * r.y_grid_max < 2 ^ 64
    → text_line r ≤ text_line r * r.y_grid_max
    → (scroll r).pixels i ≡ (
        if ltb (i + text_line r) (text_line r * r.y_grid_max)
        then r.pixels (i + text_line r)
        else if ltb i (text_line r * r.y_grid_max)
        then from_color r.clear_color
        else r.pixels i)
scroll_lem r i small fits line = scroll_rows r (text_line r) i (omega arith) fits line
