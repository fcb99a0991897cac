-- ===== src/Renderer/Text.antt =====
-- Where `PutChar` and `Print` of kernel/src/renderer/basic_renderer_general.cpp leave the cursor.
use mates_os.Base.{
  pos, negsuc, some, suc, [], ℕ, ℤ, ◌≡◌, Bool-cases, for_loop, sub_nat, ◌+◌, leb, ltb, refl, ◌*◌,
  ◌<◌, ◌∙◌, if◌then◌else◌, inl, ◌||◌, bit_and, inr, ltz, true, ◌>>>◌, ap, arith, ltb→lt, ltb→ge,
  false, ◌-◌, sym, List, add_nat, ◌==◌, ◌≤◌, ◌∷◌, ◌⊎◌,
}
use mates_os.Renderer.{
  Renderer, scroll, scroll_loop, draw_glyph, glyph_pixel, set_pix, glyph_at, from_color, next_cell,
  next_line, print_chars, put_char, set_cursor,
}
use mates_os.Renderer.Loops.{for_loop-keeps}

-- The cursor, and the grid.
pub record Place : Type 0 where
  pub x : ℕ
  pub y : ℤ
  pub base : ℕ
  pub x_max : ℕ
  pub y_max : ℕ

abbrev pub place : Renderer → Place
place r = record {
  x = r.cursor_x;
  y = r.cursor_y;
  base = r.base_x_off;
  x_max = r.x_grid_max;
  y_max = r.y_grid_max;
}

-- The cursor and the column that lines start in are in the grid.
pub record IsOnGrid (p : Place) : Type 0 where
  pub line : ℕ
  pub at : p.y ≡ pos line
  pub below : line < p.y_max
  pub inside : p.x < p.x_max
  pub start : p.base < p.x_max

pub set_pix-place : (x y value : ℕ) (r : Renderer) → place (set_pix x y value r) ≡ place r
set_pix-place x y value r =
    elim (Bool-cases (leb r.frame_buffer.width x || leb r.frame_buffer.height y)) [
      | inl t ↦ rw t refl
      | inr t ↦ rw t refl
    ]

glyph_pixel-place :
    (first xs ys j i : ℕ) (r : Renderer) → place (glyph_pixel first xs ys j i r) ≡ place r
glyph_pixel-place first xs ys j i r =
    set_pix-place (xs + i) (ys + j)
      (from_color (
        if ltb 0 (bit_and (r.glyphs (first + j)) (0b10000000 >>> i))
        then r.color
        else r.clear_color))
      r

draw_glyph-place : (chr : ℕ) (r : Renderer) → place (draw_glyph chr r) ≡ place r
draw_glyph-place chr r = drawn r.cursor_y
  where
    first : ℕ
    first = glyph_at chr r.font_height

    drawn :
        (y : ℤ)
        → place (elim y [
          | pos line ↦
              for_loop
                (λ j s.
                  for_loop
                    (glyph_pixel first (r.cursor_x * r.font_width) (line * r.font_height) j)
                    r.font_width
                    0
                    s)
                r.font_height
                0
                r
          | negsuc n ↦ r
        ])
          ≡ place r
    drawn (pos line) =
        for_loop-keeps place
          (λ j s.
            for_loop (glyph_pixel first (r.cursor_x * r.font_width) (line * r.font_height) j)
              r.font_width 0 s)
          r.font_height 0 r
          (λ j t.
            for_loop-keeps place
              (glyph_pixel first (r.cursor_x * r.font_width) (line * r.font_height) j) r.font_width
              0 t
              (λ i u.
                glyph_pixel-place first (r.cursor_x * r.font_width) (line * r.font_height) j i u))
    drawn (negsuc n) = refl

-- One line too far at most, before the lines are scrolled.
record IsNear (p : Place) : Type 0 where
  line : ℕ
  at : p.y ≡ pos line
  below : line < p.y_max + 1
  some_line : 0 < p.y_max
  inside : p.x < p.x_max
  start : p.base < p.x_max

scroll-place : (r : Renderer) → place (scroll r) ≡ record (place r) { y = sub_nat r.cursor_y 1 }
unfolding scroll
scroll-place r = refl

scroll_loop-IsOnGrid :
    (fuel : ℕ) (r : Renderer)
    → IsNear (place r)
    → (s : Renderer) × (scroll_loop (suc (suc fuel)) r ≡ some s)
      × IsOnGrid (place s)
      × ((place s).x_max ≡ r.x_grid_max)
      × ((place s).y_max ≡ r.y_grid_max)
unfolding scroll_loop
scroll_loop-IsOnGrid fuel r p = elim (Bool-cases (ltb p.line r.y_grid_max)) [
  | inl t ↦
      let u : ltz r.cursor_y (pos r.y_grid_max) ≡ true =
        ap (λ (z : ℤ). ltz z (pos r.y_grid_max)) p.at ∙ ground arith in
      (
        r,
        rw u refl,
        record {
          line = p.line;
          at = p.at;
          below = ltb→lt p.line r.y_grid_max t;
          inside = p.inside;
          start = p.start;
        },
        refl,
        refl,
      )
  | inr t ↦
      let ge = ltb→ge p.line r.y_grid_max t in
      let full : p.line ≡ r.y_grid_max = omega (arith, p.below) in
      let u : ltz r.cursor_y (pos r.y_grid_max) ≡ false =
        ap (λ (z : ℤ). ltz z (pos r.y_grid_max)) p.at ∙ ground arith in
      let q = scroll-place r in
      let some_line = p.some_line in
      let one : leb 1 p.line ≡ true = ground arith in
      let up : (scroll r).cursor_y ≡ pos (p.line - 1) =
        ap (λ (z : Place). z.y) q ∙ ap (λ (z : ℤ). sub_nat z 1) p.at ∙ rw one refl in
      let bound : (scroll r).y_grid_max ≡ r.y_grid_max = ap (λ (z : Place). z.y_max) q in
      let v : ltz (scroll r).cursor_y (pos (scroll r).y_grid_max) ≡ true =
        ap (λ (z : ℤ). ltz z (pos (scroll r).y_grid_max)) up ∙ ground (arith, bound) in
      (
        scroll r,
        rw (u, v) refl,
        record {
          line = p.line - 1;
          at = up;
          below = omega (arith, bound);
          inside =
              omega (arith, p.inside, ap (λ (z : Place). z.x) q, ap (λ (z : Place). z.x_max) q);
          start =
              omega (arith, p.start, ap (λ (z : Place). z.base) q, ap (λ (z : Place). z.x_max) q);
        },
        ap (λ (z : Place). z.x_max) q,
        bound,
      )
]

next_line-IsNear :
    (r : Renderer) (line : ℕ)
    → r.cursor_y ≡ pos line
    → line < r.y_grid_max
    → r.base_x_off < r.x_grid_max
    → IsNear (place (next_line r))
next_line-IsNear r line at below start = record {
  line = line + 1;
  at = ap (λ (z : ℤ). add_nat z 1) at;
  below = omega arith;
  some_line = omega arith;
  inside = start;
  start = start;
}

next_cell-IsNear : (r : Renderer) → IsOnGrid (place r) → IsNear (place (next_cell r))
next_cell-IsNear r p = elim (Bool-cases (ltb r.x_grid_max (r.cursor_x + 1 + 1))) [
  | inl t ↦
      rw t (next_line-IsNear (record r { cursor_x = r.cursor_x + 1 }) p.line p.at p.below p.start)
  | inr t ↦ rw t (record {
    line = p.line;
    at = p.at;
    below = omega (arith, p.below);
    some_line = omega (arith, p.below);
    inside = omega (arith, ltb→ge r.x_grid_max (r.cursor_x + 1 + 1) t);
    start = p.start;
  })
]

IsOnGrid-same : (p q : Place) → p ≡ q → IsOnGrid p → IsOnGrid q
IsOnGrid-same p q e h = rw (sym e) h

put_char-IsOnGrid :
    (fuel chr : ℕ) (r : Renderer)
    → IsOnGrid (place r)
    → (s : Renderer) × (put_char (suc (suc fuel)) chr r ≡ some s)
      × IsOnGrid (place s)
      × ((place s).x_max ≡ r.x_grid_max)
      × ((place s).y_max ≡ r.y_grid_max)
unfolding put_char
put_char-IsOnGrid fuel chr r p = elim (Bool-cases (chr == 0x0A)) [
  | inl t ↦
      rw t
        (scroll_loop-IsOnGrid fuel (next_line r) (next_line-IsNear r p.line p.at p.below p.start))
  | inr t ↦
      let e = draw_glyph-place chr r in
      let near =
        next_cell-IsNear (draw_glyph chr r)
          (IsOnGrid-same (place r) (place (draw_glyph chr r)) (sym e) p) in
      let (s, q, on, x, y) = scroll_loop-IsOnGrid fuel (next_cell (draw_glyph chr r)) near in
      let (m, n) = next_cell-grid (draw_glyph chr r) in
      rw t (s, q, on, x ∙ m ∙ ap (λ (z : Place). z.x_max) e, y ∙ n ∙ ap (λ (z : Place). z.y_max) e)
]
  where
    next_cell-grid :
        (r : Renderer)
        → ((next_cell r).x_grid_max ≡ r.x_grid_max) × ((next_cell r).y_grid_max ≡ r.y_grid_max)
    next_cell-grid r = elim (Bool-cases (ltb r.x_grid_max (r.cursor_x + 1 + 1))) [
      | inl t ↦ rw t (refl, refl)
      | inr t ↦ rw t (refl, refl)
    ]

-- `Print` of any characters with the cursor in the grid: it ends, each `PutChar` scrolls at most once,
-- and the cursor is in the same grid.
pub print_chars-IsOnGrid :
    (fuel : ℕ) (chars : List ℕ) (r : Renderer)
    → IsOnGrid (place r)
    → (s : Renderer) × (print_chars (suc (suc fuel)) chars r ≡ some s)
      × IsOnGrid (place s)
      × (s.x_grid_max ≡ r.x_grid_max)
      × (s.y_grid_max ≡ r.y_grid_max)
unfolding print_chars
print_chars-IsOnGrid fuel [] r p = (r, refl, p, refl, refl)
print_chars-IsOnGrid fuel (chr ∷ chars) r p =
    let (s, e, on, x, y) = put_char-IsOnGrid fuel chr r p in
    let (t, f, on', x', y') = print_chars-IsOnGrid fuel chars s on in
    (t, rw e f, on', x' ∙ x, y' ∙ y)

-- `SetCursor` to a cell of the grid sets the cursor there, and leaves it in the grid; to any other
-- cell it changes nothing.
pub set_cursor-IsOnGrid :
    (x y : ℕ) (r : Renderer)
    → (x < r.x_grid_max
        → y < r.y_grid_max
        → IsOnGrid (place (set_cursor x y r))
          × ((set_cursor x y r).cursor_x ≡ x)
          × ((set_cursor x y r).cursor_y ≡ pos y))
      × ((r.x_grid_max ≤ x) ⊎ (r.y_grid_max ≤ y) → set_cursor x y r ≡ r)
unfolding set_cursor
set_cursor-IsOnGrid x y r = (
  λ p q.
      let t : (leb r.x_grid_max x || leb r.y_grid_max y) ≡ false = ground arith in
      rw t (record { line = y; at = refl; below = q; inside = p; start = p }, refl, refl),
  λ h. let t : (leb r.x_grid_max x || leb r.y_grid_max y) ≡ true = ground arith in rw t refl,
)
