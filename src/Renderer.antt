-- ===== src/Renderer.antt =====
-- kernel/src/renderer: the frame buffer, the text cursor, and the mouse pointer over the text.
use mates_os.Base.Partial.{◌>>=◌}
use mates_os.Base.{
  pos, negsuc, some, none, zero, suc, [], add_nat, sub64, ℕ, ◌+◌, Bool, List, Option, bit_and,
  for_loop, if◌then◌else◌, u32, u64, ◌*◌, leb, ltb, ltz, not, sub_nat, true, ℤ, ◌<<<◌, ◌==◌, ◌>>>◌,
  ◌∷◌, ◌-◌, ◌/◌, ◌^◌, ◌||◌, ◌%◌,
}
pub mod Loops
pub mod Overlay
pub mod Restore
pub mod Text
pub mod Erase
pub mod Scrolled
pub mod Cleared

-- `FrameBuffer`; its pixels are the words from `BaseAddress` on.
pub record FrameBuffer : Type 0 where
  pub width : ℕ
  pub height : ℕ
  pub pixels_per_scanline : ℕ

pub record Color : Type 0 where
  pub r : ℕ
  pub g : ℕ
  pub b : ℕ

unfoldable pub from_color : Color → ℕ
from_color c = u32 ((bit_and c.r 0xff <<< 16) + (bit_and c.g 0xff <<< 8) + bit_and c.b 0xff)

abbrev br_black : Color
br_black = record { r = 0; g = 0; b = 0 }

-- The fields of `Renderer`, with the pixels, when a frame buffer and a font are set. A position is
-- that of a cell of the grid; the glyphs are the bytes from `glyphBuffer` on.
pub record Renderer : Type 0 where
  pub frame_buffer : FrameBuffer
  pub pixels : ℕ → ℕ
  pub glyphs : ℕ → ℕ
  pub font_width : ℕ
  pub font_height : ℕ
  pub x_grid_max : ℕ
  pub y_grid_max : ℕ
  pub mouse_cursor_buffer : ℕ → ℕ
  pub mouse_cursor_buffer_after : ℕ → ℕ
  pub mouse_drawn : Bool
  pub base_x_off : ℕ
  pub cursor_x : ℕ
  pub cursor_y : ℤ
  pub color : Color
  pub clear_color : Color

abbrev pub write : (ℕ → ℕ) → ℕ → ℕ → ℕ → ℕ
write m at v a = if at == a then v else m a

-- The index of a pixel, as `uint32_t`.
abbrev pub pixel_at : FrameBuffer → ℕ → ℕ → ℕ
pixel_at f x y = u32 (x + y * f.pixels_per_scanline)

-- `SetPix`
abbrev pub set_pix : ℕ → ℕ → ℕ → Renderer → Renderer
set_pix x y value r =
    if leb r.frame_buffer.width x || leb r.frame_buffer.height y
    then r
    else record r { pixels = write r.pixels (pixel_at r.frame_buffer x y) value }

-- `GetPix`
abbrev pub get_pix : ℕ → ℕ → Renderer → ℕ
get_pix x y r =
    if ltb r.frame_buffer.width x || ltb r.frame_buffer.height y
    then from_color br_black
    else r.pixels (pixel_at r.frame_buffer x y)

-- The bit of the pointer's picture for a pixel of it.
abbrev pub in_picture : (ℕ → ℕ) → ℕ → ℕ → Bool
in_picture picture x y = not (bit_and (picture ((y * 16 + x) / 8)) (0b10000000 >>> (x % 8)) == 0)

-- The pixels of the pointer that are on the screen, in one direction.
abbrev pub visible : ℕ → ℕ → ℕ
visible size position = if ltb (size - position) 16 then size - position else 16

-- One pass of the loops of `DrawOverlayMouseCursor`.
abbrev pub draw_pixel : (ℕ → ℕ) → ℕ → ℕ → Color → ℕ → ℕ → Renderer → Renderer
draw_pixel picture px py color y x r =
    let saved = record r {
      mouse_cursor_buffer = write r.mouse_cursor_buffer (x + y * 16) (get_pix (px + x) (py + y) r);
    } in
    let drawn = set_pix (px + x) (py + y) (from_color color) saved in
    if in_picture picture x y
    then record drawn {
      mouse_cursor_buffer_after =
          write drawn.mouse_cursor_buffer_after (x + y * 16) (get_pix (px + x) (py + y) drawn);
    }
    else r

-- `DrawOverlayMouseCursor`, at a position on the screen.
unfoldable pub draw_overlay_mouse_cursor : (ℕ → ℕ) → ℕ → ℕ → Color → Renderer → Renderer
draw_overlay_mouse_cursor picture px py color r =
    let x_max = visible r.frame_buffer.width px in
    let y_max = visible r.frame_buffer.height py in
    record (for_loop (λ y s. for_loop (draw_pixel picture px py color y) x_max 0 s) y_max 0 r) {
      mouse_drawn = true;
    }

-- One pass of the loops of `ClearMouseCursor`.
abbrev pub clear_pixel : (ℕ → ℕ) → ℕ → ℕ → ℕ → ℕ → Renderer → Renderer
clear_pixel picture px py y x r =
    if in_picture picture x y
    then (if get_pix (px + x) (py + y) r == r.mouse_cursor_buffer_after (x + y * 16)
        then set_pix (px + x) (py + y) (r.mouse_cursor_buffer (x + y * 16)) r
        else r)
    else r

-- `ClearMouseCursor`, at a position on the screen.
unfoldable pub clear_mouse_cursor : (ℕ → ℕ) → ℕ → ℕ → Renderer → Renderer
clear_mouse_cursor picture px py r =
    let x_max = visible r.frame_buffer.width px in
    let y_max = visible r.frame_buffer.height py in
    if not r.mouse_drawn
    then r
    else for_loop (λ y s. for_loop (clear_pixel picture px py y) x_max 0 s) y_max 0 r

-- `SetCursor`
unfoldable pub set_cursor : ℕ → ℕ → Renderer → Renderer
set_cursor x y r =
    if leb r.x_grid_max x || leb r.y_grid_max y
    then r
    else record r { cursor_x = x; cursor_y = pos y; base_x_off = x }

-- The loops of `Scroll` over the pixels: the lines below move up, and the last one is cleared. A row
-- is one line of text.
abbrev pub row_size : Renderer → ℕ
row_size r = u32 (r.frame_buffer.pixels_per_scanline * r.font_height)

abbrev pub screen_size : Renderer → ℕ
screen_size r = u64 (row_size r * r.y_grid_max)

abbrev pub move_pixel : ℕ → ℕ → (ℕ → ℕ) → ℕ → ℕ
move_pixel row i pixels = write pixels i (pixels (i + row))

abbrev pub fill_pixel : ℕ → ℕ → ℕ → (ℕ → ℕ) → ℕ → ℕ
fill_pixel from value j pixels = write pixels (from + j) value

-- `Scroll`
unfoldable pub scroll : Renderer → Renderer
scroll r =
    let kept = sub64 (screen_size r) (row_size r) in
    let moved = for_loop (move_pixel (row_size r)) kept 0 r.pixels in
    let filled = for_loop (fill_pixel kept (from_color r.clear_color)) (row_size r) 0 moved in
    record r { cursor_y = sub_nat r.cursor_y 1; pixels = filled }

-- The index of the first byte of a glyph: `chr` is a `char`, which is signed.
abbrev pub glyph_at : ℕ → ℕ → ℕ
glyph_at chr font_height = u32 ((if ltb chr 128 then chr else chr + 2 ^ 32 - 256) * font_height)

abbrev pub glyph_pixel : ℕ → ℕ → ℕ → ℕ → ℕ → Renderer → Renderer
glyph_pixel first x_start y_start j i r =
    let bits = bit_and (r.glyphs (first + j)) (0b10000000 >>> i) in
    set_pix (x_start + i) (y_start + j) (from_color (if ltb 0 bits then r.color else r.clear_color))
      r

-- The loops of `PutChar` over the pixels of a cell of the grid; there are none above the screen.
abbrev pub draw_glyph : ℕ → Renderer → Renderer
draw_glyph chr r =
    let first = glyph_at chr r.font_height in
    elim r.cursor_y [
      | pos line ↦
          for_loop
            (λ j s.
              for_loop (glyph_pixel first (r.cursor_x * r.font_width) (line * r.font_height) j)
                r.font_width 0 s)
            r.font_height 0 r
      | negsuc n ↦ r
    ]

-- The end of `PutChar` at the label `newline`.
abbrev pub next_line : Renderer → Renderer
next_line r = record r { cursor_y = add_nat r.cursor_y 1; cursor_x = r.base_x_off }

-- The cursor behind a character that was drawn.
abbrev pub next_cell : Renderer → Renderer
next_cell r =
    let moved = record r { cursor_x = r.cursor_x + 1 } in
    if ltb r.x_grid_max (moved.cursor_x + 1) then next_line moved else moved

-- `while (textCursorPos.Y >= yGridMax) Scroll()`
unfoldable pub scroll_loop : ℕ → Renderer → Option Renderer
scroll_loop zero r = none
scroll_loop (suc fuel) r =
    let rest = scroll_loop fuel (scroll r) in
    if ltz r.cursor_y (pos r.y_grid_max) then some r else rest

-- `PutChar`
unfoldable pub put_char : ℕ → ℕ → Renderer → Option Renderer
put_char fuel chr r =
    scroll_loop fuel (if chr == 0x0A then next_line r else next_cell (draw_glyph chr r))

-- `Print` of the characters up to the terminator.
unfoldable pub print_chars : ℕ → List ℕ → Renderer → Option Renderer
print_chars fuel [] r = some r
print_chars fuel (chr ∷ chars) r = put_char fuel chr r >>= λ s. print_chars fuel chars s

-- `SetFont`; a width or a height of 0, which is a division by 0, is left out.
unfoldable pub set_font : (ℕ → ℕ) → ℕ → ℕ → Renderer → Renderer
set_font glyphs width height r =
    if ltb r.frame_buffer.width width || ltb r.frame_buffer.height height then r else record r {
      glyphs = glyphs;
      font_width = width;
      font_height = height;
      x_grid_max = r.frame_buffer.width / width;
      y_grid_max = r.frame_buffer.height / height;
    }

-- `SetFramebuffer`, with the pixels of the new one.
unfoldable pub set_framebuffer : FrameBuffer → (ℕ → ℕ) → Renderer → Renderer
set_framebuffer f pixels r = record r {
  frame_buffer = f;
  pixels = pixels;
  x_grid_max = f.width / r.font_width;
  y_grid_max = f.height / r.font_height;
}

-- `ClearScreen`
unfoldable pub clear_screen : Color → Renderer → Renderer
clear_screen color r =
    for_loop (λ x s. for_loop (λ y t. set_pix x y (from_color color) t) r.frame_buffer.height 0 s)
      r.frame_buffer.width 0 r

-- One line up, but not above the screen.
abbrev pub line_up : ℤ → ℤ
line_up y = if ltz (sub_nat y 1) (pos 0) then pos 0 else sub_nat y 1

-- A coordinate of a cell in pixels, as `unsigned int`.
abbrev pub offset_of : ℤ → ℕ → ℕ
offset_of (pos n) size = u32 (n * size)
offset_of (negsuc n) size = u32 (2 ^ 32 - (n + 1) * size % 2 ^ 32)

abbrev pub step_back : Renderer → Renderer
step_back r = record r { cursor_x = r.x_grid_max; cursor_y = line_up r.cursor_y }

abbrev pub blank_pixel : ℕ → ℕ → ℕ → ℕ → Renderer → Renderer
blank_pixel x_start y_off j i r =
    set_pix (u32 (x_start + i)) (u32 (y_off + j)) (from_color r.clear_color) r

-- The loops of `ClearChar` over the cell before the cursor.
abbrev pub blank_cell : Renderer → Renderer
blank_cell r =
    let x_off = u32 (r.cursor_x * r.font_width) in
    let x_start = u32 (x_off + 2 ^ 32 - r.font_width) in
    let y_off = offset_of r.cursor_y r.font_height in
    for_loop (λ j s. for_loop (blank_pixel x_start y_off j) (x_off - x_start) 0 s)
      (u32 (y_off + r.font_height) - y_off) 0 r

-- `ClearChar`; the column is less than the first one after the step when it was not above it.
unfoldable pub clear_char : Renderer → Renderer
clear_char r =
    let start = if leb r.cursor_x r.base_x_off then step_back r else r in
    let blank = blank_cell start in
    if leb blank.cursor_x blank.base_x_off
    then step_back blank
    else record blank { cursor_x = blank.cursor_x - 1 }

-- `SetColor`
abbrev set_color : Color → Renderer → Renderer
set_color color r = record r { color = color }

-- `SetBackColor`
abbrev set_back_color : Color → Renderer → Renderer
set_back_color color r = record r { clear_color = color }
