-- ===== src/Renderer/Restore.antt =====
-- The mouse pointer of kernel/src/renderer/basic_renderer_general.cpp, drawn and cleared again.
use mates_os.Base.{
  inl, inr, refl, ℕ, Bool, for_loop, ltb, true, ◌%◌, ◌&&◌, ◌≡◌, ◌-◌, ◌==◌, ◌≢◌, ◌/◌, ◌⊎◌, false,
  arith, ◌∙◌, ap, sym, Bool-cases, ◌<◌, leb, ◌+◌, ◌||◌, ◌≤◌, ◌*◌, ◌^◌,
}
use mathlib.Core.Path.{ap₂}
use mathlib.Core.Bool.{true≢false}
use mates_os.Renderer.{
  Color, Renderer, FrameBuffer, visible, clear_pixel, draw_pixel, in_picture, from_color,
  clear_mouse_cursor, draw_overlay_mouse_cursor,
}
use mates_os.Renderer.Overlay.{
  IsShown, Holds, IsIn, address, IsDrawn, address-apart, clear-Holds, clear-keeps_IsDrawn,
  draw-Holds, address-div, clear-restores, draw-IsDrawn, draw-keeps_IsDrawn,
}
use mates_os.Renderer.Loops.{for_loop-never, for_loop-once, for_loop-keeps}

module _ (picture : ℕ → ℕ) (px py : ℕ) (color : Color) (r : Renderer)
    (shown : IsShown r.frame_buffer px py) where
  abbrev f : FrameBuffer
  f = r.frame_buffer

  abbrev x_max : ℕ
  x_max = visible f.width px

  abbrev y_max : ℕ
  y_max = visible f.height py

  abbrev drawn : Renderer
  drawn = for_loop (λ y s. for_loop (draw_pixel picture px py color y) x_max 0 s) y_max 0 r

  abbrev cleared : Renderer → Renderer
  cleared s = for_loop (λ y t. for_loop (clear_pixel picture px py y) x_max 0 t) y_max 0 s

  draw_loops-Holds :
      (a o : ℕ)
      → ((i j : ℕ)
          → IsIn picture px py f shown i j
          → in_picture picture i j ≡ true
          → address picture px py f shown i j ≢ a)
      → Holds picture px py f shown a o r
      → Holds picture px py f shown a o drawn
  draw_loops-Holds a o other h =
      for_loop-never (Holds picture px py f shown a o)
        (λ y s. for_loop (draw_pixel picture px py color y) x_max 0 s) y_max 0 r
        (λ y t low high k.
          for_loop-never (Holds picture px py f shown a o) (draw_pixel picture px py color y) x_max
            0 t
            (λ x u low' high' l.
              draw-Holds picture px py f shown color x y a o u (omega arith, omega arith)
                (other x y (omega arith, omega arith)) l)
            k)
        h

  clear_loops-Holds :
      (a o : ℕ) (s : Renderer)
      → ((i j : ℕ)
          → IsIn picture px py f shown i j
          → in_picture picture i j ≡ true
          → address picture px py f shown i j ≢ a)
      → Holds picture px py f shown a o s
      → Holds picture px py f shown a o (cleared s)
  clear_loops-Holds a o s other h =
      for_loop-never (Holds picture px py f shown a o)
        (λ y t. for_loop (clear_pixel picture px py y) x_max 0 t) y_max 0 s
        (λ y t low high k.
          for_loop-never (Holds picture px py f shown a o) (clear_pixel picture px py y) x_max 0 t
            (λ x u low' high' l.
              clear-Holds picture px py f shown x y a o u (omega arith, omega arith)
                (other x y (omega arith, omega arith)) l)
            k)
        h

  -- The other pixels of the pointer are elsewhere.
  other_pixel :
      (x y a : ℕ)
      → IsIn picture px py f shown x y
      → address picture px py f shown x y ≡ a
      → (i j : ℕ) → IsIn picture px py f shown i j
      → (i ≢ x) ⊎ (j ≢ y)
      → address picture px py f shown i j ≢ a
  other_pixel x y a h e i j k d q = address-apart picture px py f shown i j x y k h d (q ∙ sym e)

  draw_loops-IsDrawn :
      (x y o : ℕ)
      → IsIn picture px py f shown x y
      → in_picture picture x y ≡ true
      → Holds picture px py f shown (address picture px py f shown x y) o r
      → IsDrawn picture px py f shown x y o (from_color color) drawn
  draw_loops-IsDrawn x y o (a, b) p h =
      let at = address picture px py f shown x y in
      for_loop-once (Holds picture px py f shown at o)
        (IsDrawn picture px py f shown x y o (from_color color))
        (λ j s. for_loop (draw_pixel picture px py color j) x_max 0 s) y_max 0 y r
        (λ j t high n k.
          for_loop-never (Holds picture px py f shown at o) (draw_pixel picture px py color j) x_max
            0 t
            (λ i u low' high' l.
              draw-Holds picture px py f shown color i j at o u (omega arith, omega arith)
                (λ q. other_pixel x y at (a, b) refl i j (omega arith, omega arith) (inr n)) l)
            k)
        (λ t k.
          for_loop-once (Holds picture px py f shown at o)
            (IsDrawn picture px py f shown x y o (from_color color))
            (draw_pixel picture px py color y) x_max 0 x t
            (λ i u high' n l.
              draw-Holds picture px py f shown color i y at o u (omega arith, b)
                (λ q. other_pixel x y at (a, b) refl i y (omega arith, b) (inl n)) l)
            (λ u l. draw-IsDrawn picture px py f shown color x y o u (a, b) p l)
            (λ i u high' n l.
              draw-keeps_IsDrawn picture px py f shown color i y x y o (from_color color) u
                (omega arith, b) (a, b) (inl n) l)
            (omega arith) (omega arith) k)
        (λ j t high n k.
          for_loop-never (IsDrawn picture px py f shown x y o (from_color color))
            (draw_pixel picture px py color j) x_max 0 t
            (λ i u low' high' l.
              draw-keeps_IsDrawn picture px py f shown color i j x y o (from_color color) u
                (omega arith, omega arith) (a, b) (inr n) l)
            k)
        (omega arith) (omega arith) h

  clear_loops-restore :
      (x y o c : ℕ) (s : Renderer)
      → IsIn picture px py f shown x y
      → in_picture picture x y ≡ true
      → IsDrawn picture px py f shown x y o c s
      → Holds picture px py f shown (address picture px py f shown x y) o (cleared s)
  clear_loops-restore x y o c s (a, b) p h =
      let at = address picture px py f shown x y in
      for_loop-once (IsDrawn picture px py f shown x y o c) (Holds picture px py f shown at o)
        (λ j t. for_loop (clear_pixel picture px py j) x_max 0 t) y_max 0 y s
        (λ j t high n k.
          for_loop-never (IsDrawn picture px py f shown x y o c) (clear_pixel picture px py j) x_max
            0 t
            (λ i u low' high' l.
              clear-keeps_IsDrawn picture px py f shown i j x y o c u (omega arith, omega arith)
                (a, b) (inr n) l)
            k)
        (λ t k.
          for_loop-once (IsDrawn picture px py f shown x y o c) (Holds picture px py f shown at o)
            (clear_pixel picture px py y) x_max 0 x t
            (λ i u high' n l.
              clear-keeps_IsDrawn picture px py f shown i y x y o c u (omega arith, b) (a, b)
                (inl n) l)
            (λ u l. clear-restores picture px py f shown x y o c u (a, b) p l)
            (λ i u high' n l.
              clear-Holds picture px py f shown i y at o u (omega arith, b)
                (λ q. other_pixel x y at (a, b) refl i y (omega arith, b) (inl n)) l)
            (omega arith) (omega arith) k)
        (λ j t high n k.
          for_loop-never (Holds picture px py f shown at o) (clear_pixel picture px py j) x_max 0 t
            (λ i u low' high' l.
              clear-Holds picture px py f shown i j at o u (omega arith, omega arith)
                (λ q. other_pixel x y at (a, b) refl i j (omega arith, omega arith) (inr n)) l)
            k)
        (omega arith) (omega arith) h

  -- Whether a pixel of the pointer stands at the address.
  abbrev hit : ℕ → ℕ → ℕ → Bool
  hit x y a =
      ltb x x_max
      && (ltb y y_max && (in_picture picture x y && address picture px py f shown x y == a))

  restored :
      (a : ℕ)
      → Holds picture px py f shown a (r.pixels a) (cleared (record drawn { mouse_drawn = true }))
  restored a =
      let x = a % f.pixels_per_scanline - px in
      let y = a / f.pixels_per_scanline - py in
      elim (Bool-cases (hit x y a)) [
        | inl t ↦
            let in_x : x < x_max = ground arith in
            let in_y : y < y_max = ground arith in
            let p : in_picture picture x y ≡ true = ground arith in
            let at : address picture px py f shown x y ≡ a = ground arith in
            let d =
              draw_loops-IsDrawn x y (r.pixels (address picture px py f shown x y)) (in_x, in_y) p
                (refl, refl) in
            let c =
              clear_loops-restore x y (r.pixels (address picture px py f shown x y))
                (from_color color) (record drawn { mouse_drawn = true }) (in_x, in_y) p d in
            (
              c.0,
              ap (cleared (record drawn { mouse_drawn = true })).pixels (sym at)
                  ∙ c.1
                  ∙ ap r.pixels at,
            )
        | inr t ↦
            let other : (i j : ℕ)
                → IsIn picture px py f shown i j
                → in_picture picture i j ≡ true
                → address picture px py f shown i j ≢ a =
              λ i j h p e. missed a t i j h p e in
            clear_loops-Holds a (r.pixels a) (record drawn { mouse_drawn = true }) other
              (draw_loops-Holds a (r.pixels a) other (refl, refl))
      ]
    where
      missed :
          (a : ℕ)
          → hit (a % f.pixels_per_scanline - px) (a / f.pixels_per_scanline - py) a ≡ false
          → (i j : ℕ) → IsIn picture px py f shown i j
          → in_picture picture i j ≡ true
          → address picture px py f shown i j ≢ a
      missed a t i j (m, n) p e =
          let w = f.pixels_per_scanline in
          let (v, u) = address-div picture px py f shown i j (m, n) in
          let column : a % w - px ≡ i = omega (arith, u, ap (λ (k : ℕ). k % w) e) in
          let line : a / w - py ≡ j = omega (arith, v, ap (λ (k : ℕ). k / w) e) in
          let at_ij : hit i j a ≡ true = ground (arith, m, n, p, e) in
          let same : hit (a % w - px) (a / w - py) a ≡ hit i j a =
            ap₂ (λ (k l : ℕ). hit k l a) column line in
          true≢false (sym at_ij ∙ sym same ∙ t)

draw_pixel-frame :
    (picture : ℕ → ℕ) (px py : ℕ) (color : Color) (y x : ℕ) (r : Renderer)
    → (draw_pixel picture px py color y x r).frame_buffer ≡ r.frame_buffer
draw_pixel-frame picture px py color y x r = elim (Bool-cases (in_picture picture x y)) [
  | inr t ↦ rw t refl
  | inl t ↦
      elim (Bool-cases (leb r.frame_buffer.width (px + x) || leb r.frame_buffer.height (py + y))) [
        | inl u ↦ rw (t, u) refl
        | inr u ↦ rw (t, u) refl
      ]
]

-- `ClearMouseCursor` right after `DrawOverlayMouseCursor` at the same position, of a frame buffer
-- whose lines hold its width and whose pixels have indices of 32 bits: every word of the frame buffer
-- is as it was before both, whatever the picture, the colour and the part of it that is visible.
pub clear_mouse_cursor-draw_overlay_mouse_cursor :
    (picture : ℕ → ℕ) (px py : ℕ) (color : Color) (r : Renderer) (a : ℕ)
    → r.frame_buffer.width ≤ r.frame_buffer.pixels_per_scanline
    → r.frame_buffer.height * r.frame_buffer.pixels_per_scanline ≤ 2 ^ 32
    → (clear_mouse_cursor picture px py (draw_overlay_mouse_cursor picture px py color r)).pixels a
      ≡ r.pixels a
unfolding clear_mouse_cursor draw_overlay_mouse_cursor
clear_mouse_cursor-draw_overlay_mouse_cursor picture px py color r a lines indexed =
    let shown : IsShown r.frame_buffer px py = record { lines = lines; indexed = indexed } in
    let e : (drawn picture px py color r shown).frame_buffer ≡ r.frame_buffer =
      for_loop-keeps (λ (s : Renderer). s.frame_buffer)
        (λ y s. for_loop (draw_pixel picture px py color y) (visible r.frame_buffer.width px) 0 s)
        (visible r.frame_buffer.height py) 0 r
        (λ y s.
          for_loop-keeps (λ (t : Renderer). t.frame_buffer) (draw_pixel picture px py color y)
            (visible r.frame_buffer.width px) 0 s
            (λ x t. draw_pixel-frame picture px py color y x t)) in
    ap
      (λ (g : FrameBuffer).
        (for_loop (λ y t. for_loop (clear_pixel picture px py y) (visible g.width px) 0 t)
            (visible g.height py) 0
            (record (drawn picture px py color r shown) { mouse_drawn = true })).pixels
          a)
      e
    ∙ (restored picture px py color r shown a).1
