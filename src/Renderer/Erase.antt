-- ===== src/Renderer/Erase.antt =====
-- Where `ClearChar` of kernel/src/renderer/basic_renderer_general.cpp leaves the cursor.
use mates_os.Base.{
  pos, suc, ℕ, ◌≡◌, Bool-cases, for_loop, ◌+◌, leb, refl, ◌*◌, ◌<◌, ◌∙◌, if◌then◌else◌, inl, inr,
  true, ap, arith, false, ◌-◌, sym, u32, ◌^◌, zero,
}
use mates_os.Renderer.{
  Renderer, from_color, blank_cell, clear_char, step_back, line_up, offset_of, blank_pixel,
}
use mates_os.Renderer.Loops.{for_loop-keeps}
use mates_os.Renderer.Text.{IsOnGrid, Place, place, set_pix-place}

blank_cell-place : (r : Renderer) → place (blank_cell r) ≡ place r
blank_cell-place r =
    let x_off = u32 (r.cursor_x * r.font_width) in
    let x_start = u32 (x_off + 2 ^ 32 - r.font_width) in
    let y_off = offset_of r.cursor_y r.font_height in
    for_loop-keeps place (λ j s. for_loop (blank_pixel x_start y_off j) (x_off - x_start) 0 s)
      (u32 (y_off + r.font_height) - y_off) 0 r
      (λ j s.
        for_loop-keeps place (blank_pixel x_start y_off j) (x_off - x_start) 0 s
          (λ i t. set_pix-place (u32 (x_start + i)) (u32 (y_off + j)) (from_color t.clear_color) t))

-- The place after the cursor has stepped up a line, to the column behind the last.
record IsAbove (p : Place) : Type 0 where
  line : ℕ
  at : p.y ≡ pos line
  below : line < p.y_max
  inside : p.x < p.x_max + 1
  start : p.base < p.x_max

step_back-IsAbove : (r : Renderer) → IsAbove (place r) → IsAbove (place (step_back r))
step_back-IsAbove r p = up p.line p.at p.below
  where
    up : (line : ℕ) → r.cursor_y ≡ pos line → line < r.y_grid_max → IsAbove (place (step_back r))
    up zero e q = record {
      line = 0;
      at = ap line_up e;
      below = q;
      inside = omega arith;
      start = p.start;
    }
    up (suc n) e q =
        let t : leb 1 (suc n) ≡ true = ground arith in
        let f : suc n - 1 ≡ n = omega arith in
        let l : line_up (pos (suc n)) ≡ pos n =
          rw t (rw f (let g : leb (n + 1) 0 ≡ false = ground arith in rw g refl)) in
        record {
          line = n;
          at = ap line_up e ∙ l;
          below = omega arith;
          inside = omega arith;
          start = p.start;
        }

IsAbove-same : (p q : Place) → p ≡ q → IsAbove p → IsAbove q
IsAbove-same p q e h = rw (sym e) h

-- `ClearChar` with the cursor in the grid leaves it in the same grid.
pub clear_char-IsOnGrid : (r : Renderer) → IsOnGrid (place r) → IsOnGrid (place (clear_char r))
unfolding clear_char
clear_char-IsOnGrid r p =
    let here : IsAbove (place r) = record {
      line = p.line;
      at = p.at;
      below = p.below;
      inside = omega (arith, p.inside);
      start = p.start;
    } in
    elim (Bool-cases (leb r.cursor_x r.base_x_off)) [
      | inl t ↦ rw t (back (step_back r) p.start (step_back-IsAbove r here))
      | inr t ↦ rw t (back r (ground arith) here)
    ]
  where
    left :
        (s : Renderer)
        → s.base_x_off < s.cursor_x
        → IsAbove (place s)
        → IsOnGrid (
            place (
              if leb s.cursor_x s.base_x_off
              then step_back s
              else record s { cursor_x = s.cursor_x - 1 }))
    left s more q = elim (Bool-cases (leb s.cursor_x s.base_x_off)) [
      | inl t ↦ absurd (ground arith)
      | inr t ↦ rw t (record {
        line = q.line;
        at = q.at;
        below = q.below;
        inside = ground (arith, q.inside);
        start = q.start;
      })
    ]

    back :
        (s : Renderer)
        → s.base_x_off < s.cursor_x
        → IsAbove (place s)
        → IsOnGrid (
            place (
              if leb (blank_cell s).cursor_x (blank_cell s).base_x_off
              then step_back (blank_cell s)
              else record (blank_cell s) { cursor_x = (blank_cell s).cursor_x - 1 }))
    back s more q =
        left (blank_cell s)
          (omega (
            arith,
            ap (λ (z : Place). z.x) (blank_cell-place s),
            ap (λ (z : Place). z.base) (blank_cell-place s),
          ))
          (IsAbove-same (place s) (place (blank_cell s)) (sym (blank_cell-place s)) q)
