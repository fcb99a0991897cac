-- ===== src/Tests/Screen.antt =====
-- Instances for the renderer: a screen of 64 by 32 pixels with a font of 8 by 16.
use mates_os.Base.{pos, some, refl, ℕ, false, ◌≡◌, if◌then◌else◌, ◌∷◌, [], arith, ltb, ◌+◌, ◌*◌}
use mates_os.Renderer.{
  Renderer, clear_mouse_cursor, put_char, scroll, draw_overlay_mouse_cursor, print_chars,
  scroll_loop, next_cell, draw_glyph, from_color,
}
use mates_os.Renderer.Restore.{clear_mouse_cursor-draw_overlay_mouse_cursor}
use mates_os.Renderer.Text.{IsOnGrid, place, print_chars-IsOnGrid}
use mates_os.Renderer.Scrolled.{scroll_lem, text_line}

abbrev small_screen : Renderer
small_screen = record {
  frame_buffer = record { width = 64; height = 32; pixels_per_scanline = 64 };
  pixels = λ a. a;
  glyphs = λ a. 0b10101010;
  font_width = 8;
  font_height = 16;
  x_grid_max = 8;
  y_grid_max = 2;
  mouse_cursor_buffer = λ a. 0;
  mouse_cursor_buffer_after = λ a. 0;
  mouse_drawn = false;
  base_x_off = 1;
  cursor_x = 7;
  cursor_y = pos 1;
  color = record { r = 255; g = 255; b = 255 };
  clear_color = record { r = 5; g = 0; b = 40 };
}

-- The last cell is full, so the text scrolls and the cursor is at the start of the last line.
print_run : (s : Renderer) × (put_char 2 65 small_screen ≡ some s) × (s.cursor_x ≡ 1)
unfolding put_char scroll_loop scroll
print_run = (scroll (next_cell (draw_glyph 65 small_screen)), refl, refl)

print_chars-IsOnGrid_example :
    (s : Renderer) × (print_chars 2 (65 ∷ 10 ∷ 66 ∷ []) small_screen ≡ some s)
    × IsOnGrid (place s)
    × (s.x_grid_max ≡ 8)
    × (s.y_grid_max ≡ 2)
print_chars-IsOnGrid_example =
    print_chars-IsOnGrid 0 (65 ∷ 10 ∷ 66 ∷ []) small_screen (record {
      line = 1;
      at = refl;
      below = omega arith;
      inside = omega arith;
      start = omega arith;
    })

scroll_lem_example : (scroll small_screen).pixels 1030 ≡ (
    if ltb (1030 + text_line small_screen) (text_line small_screen * 2)
    then 1030 + text_line small_screen
    else if ltb 1030 (text_line small_screen * 2)
    then from_color (record { r = 5; g = 0; b = 40 })
    else 1030)
scroll_lem_example = scroll_lem small_screen 1030 (omega arith) (omega arith) (omega arith)

abbrev arrow : ℕ → ℕ
arrow i = 0b11110000

clear_mouse_cursor-draw_overlay_mouse_cursor_example :
    (clear_mouse_cursor arrow 60 20 (
        draw_overlay_mouse_cursor arrow 60 20
          (record { r = 240; g = 240; b = 240 })
          small_screen)).pixels
      1342
    ≡ 1342
clear_mouse_cursor-draw_overlay_mouse_cursor_example =
    clear_mouse_cursor-draw_overlay_mouse_cursor arrow 60 20 (record { r = 240; g = 240; b = 240 })
      small_screen 1342 (omega arith) (omega arith)
