-- ===== src/Renderer/Overlay.antt =====
-- The mouse pointer of kernel/src/renderer/basic_renderer_general.cpp, pixel by pixel.
use mates_os.Base.{
  inl, inr, refl, ℕ, ◌<◌, ◌+◌, ◌≢◌, arith, ◌≤◌, Bool-cases, ◌*◌, ◌/◌, ◌==◌, ◌≡◌, ◌⊎◌, ap, false,
  true, ◌%◌, ◌^◌, ◌∙◌, if◌then◌else◌, sym, leb, ◌||◌, ltb, eq→==,
}
use native.Mathlib.Nat.{
  mul-le-mul_right, add-mul-div_right, add-mul-mod_self_right, div-eq_of_lt, mod-eq_of_lt,
}
use mates_os.Renderer.{
  FrameBuffer, write, pixel_at, visible, Color, Renderer, in_picture, clear_pixel, draw_pixel,
  from_color,
}

pub write-here : (a v : ℕ) (m : ℕ → ℕ) → write m a v a ≡ v
write-here a v m = let e : (a == a) ≡ true = ground arith in rw e refl

write-other : (a i v : ℕ) (m : ℕ → ℕ) → a ≢ i → write m a v i ≡ m i
write-other a i v m h = let e : (a == i) ≡ false = ground arith in rw e refl

-- The frame buffer has room for its lines, and the position is a pixel.
pub record IsShown (f : FrameBuffer) (px py : ℕ) : Type 0 where
  pub lines : f.width ≤ f.pixels_per_scanline
  pub indexed : f.height * f.pixels_per_scanline ≤ 2 ^ 32

module _ (picture : ℕ → ℕ) (px py : ℕ) (f : FrameBuffer) (shown : IsShown f px py) where
  abbrev pub address : ℕ → ℕ → ℕ
  address x y = pixel_at f (px + x) (py + y)

  -- A pixel of the pointer that is on the screen.
  abbrev pub IsIn : ℕ → ℕ → Type 0
  IsIn x y = (x < visible f.width px) × (y < visible f.height py)

  visible-bounds : (size at i : ℕ) → i < visible size at → (at + i < size) × (i < 16)
  visible-bounds size at i q = ground arith

  address-value :
      (x y : ℕ)
      → IsIn x y
      → (address x y ≡ px + x + (py + y) * f.pixels_per_scanline)
        × (px + x < f.width)
        × (py + y < f.height)
        × (x < 16)
        × (y < 16)
  address-value x y (a, b) =
      let (in_width, short) = visible-bounds f.width px x a in
      let (in_height, low) = visible-bounds f.height py y b in
      let line : (py + y + 1) * f.pixels_per_scanline ≤ f.height * f.pixels_per_scanline =
        mul-le-mul_right f.pixels_per_scanline (omega arith) in
      let split : (py + y + 1) * f.pixels_per_scanline
          ≡ (py + y) * f.pixels_per_scanline + f.pixels_per_scanline =
        grind arith in
      (omega (arith, shown.lines, shown.indexed), in_width, in_height, short, low)

  -- The address of a pixel gives its line and its column.
  pub address-div :
      (x y : ℕ)
      → IsIn x y
      → (address x y / f.pixels_per_scanline ≡ py + y)
        × (address x y % f.pixels_per_scanline ≡ px + x)
  address-div x y h =
      let (e, in_width, in_height, short, low) = address-value x y h in
      let positive : 0 < f.pixels_per_scanline = omega (arith, shown.lines) in
      let p = f.pixels_per_scanline in
      let zero_div : (px + x) / p ≡ 0 = div-eq_of_lt (omega (arith, shown.lines)) in
      let small_mod : (px + x) % p ≡ px + x = mod-eq_of_lt (omega (arith, shown.lines)) in
      (
        ap (λ (n : ℕ). n / p) e ∙ add-mul-div_right (px + x) (py + y) positive ∙ omega arith,
        ap (λ (n : ℕ). n % p) e ∙ add-mul-mod_self_right (px + x) (py + y) p ∙ small_mod,
      )

  pub address-apart :
      (x y x' y' : ℕ) → IsIn x y → IsIn x' y' → (x ≢ x') ⊎ (y ≢ y') → address x y ≢ address x' y'
  address-apart x y x' y' h h' d e =
      let (v, u) = address-div x y h in
      let (v', u') = address-div x' y' h' in
      let p = f.pixels_per_scanline in
      let same_y : y ≡ y' = omega (arith, v, v', ap (λ (n : ℕ). n / p) e) in
      let same_x : x ≡ x' = omega (arith, u, u', ap (λ (n : ℕ). n % p) e) in
      elim d [ inl n ↦ n same_x | inr n ↦ n same_y ]

  draw-in :
      (color : Color) (x y : ℕ) (s : Renderer)
      → IsIn x y
      → s.frame_buffer ≡ f
      → in_picture picture x y ≡ true
      → draw_pixel picture px py color y x s ≡ record s {
        mouse_cursor_buffer = write s.mouse_cursor_buffer (x + y * 16) (s.pixels (address x y));
        pixels = write s.pixels (address x y) (from_color color);
        mouse_cursor_buffer_after =
            write s.mouse_cursor_buffer_after (x + y * 16) (from_color color);
      }
  draw-in color x y s h e pic =
      let (v, in_width, in_height, short, low) = address-value x y h in
      let same : address x y ≡ pixel_at s.frame_buffer (px + x) (py + y) =
        ap (λ (g : FrameBuffer). pixel_at g (px + x) (py + y)) (sym e) in
      let w : s.frame_buffer.width ≡ f.width = ap (λ (g : FrameBuffer). g.width) e in
      let l : s.frame_buffer.height ≡ f.height = ap (λ (g : FrameBuffer). g.height) e in
      let t : (leb s.frame_buffer.width (px + x) || leb s.frame_buffer.height (py + y)) ≡ false =
        ground (arith, w, l) in
      let u : (ltb s.frame_buffer.width (px + x) || ltb s.frame_buffer.height (py + y)) ≡ false =
        ground (arith, w, l) in
      let here =
        write-here (pixel_at s.frame_buffer (px + x) (py + y)) (from_color color) s.pixels in
      rw (pic, t, u, same, here) refl

  clear-in :
      (x y : ℕ) (s : Renderer)
      → IsIn x y
      → s.frame_buffer ≡ f
      → in_picture picture x y ≡ true
      → clear_pixel picture px py y x s ≡ (
          if s.pixels (address x y) == s.mouse_cursor_buffer_after (x + y * 16)
          then record s {
            pixels = write s.pixels (address x y) (s.mouse_cursor_buffer (x + y * 16));
          }
          else s)
  clear-in x y s h e pic =
      let (v, in_width, in_height, short, low) = address-value x y h in
      let same : address x y ≡ pixel_at s.frame_buffer (px + x) (py + y) =
        ap (λ (g : FrameBuffer). pixel_at g (px + x) (py + y)) (sym e) in
      let w : s.frame_buffer.width ≡ f.width = ap (λ (g : FrameBuffer). g.width) e in
      let l : s.frame_buffer.height ≡ f.height = ap (λ (g : FrameBuffer). g.height) e in
      let t : (leb s.frame_buffer.width (px + x) || leb s.frame_buffer.height (py + y)) ≡ false =
        ground (arith, w, l) in
      let u : (ltb s.frame_buffer.width (px + x) || ltb s.frame_buffer.height (py + y)) ≡ false =
        ground (arith, w, l) in
      rw (pic, t, u, same) refl

  -- A word of the frame buffer has a value.
  abbrev pub Holds : ℕ → ℕ → Renderer → Type 0
  Holds a o s = (s.frame_buffer ≡ f) × (s.pixels a ≡ o)

  -- A pixel of the pointer was drawn over the value `o`.
  abbrev pub IsDrawn : ℕ → ℕ → ℕ → ℕ → Renderer → Type 0
  IsDrawn x y o c s =
      (s.frame_buffer ≡ f)
      × (s.pixels (address x y) ≡ c)
      × (s.mouse_cursor_buffer (x + y * 16) ≡ o)
      × (s.mouse_cursor_buffer_after (x + y * 16) ≡ c)

  Holds-same : (a o : ℕ) (s t : Renderer) → s ≡ t → Holds a o t → Holds a o s
  Holds-same a o s t e (g, h) =
      (ap (λ (r : Renderer). r.frame_buffer) e ∙ g, ap (λ (r : Renderer). r.pixels a) e ∙ h)

  IsDrawn-same : (x y o c : ℕ) (s t : Renderer) → s ≡ t → IsDrawn x y o c t → IsDrawn x y o c s
  IsDrawn-same x y o c s t e (g, h, k, l) = (
    ap (λ (r : Renderer). r.frame_buffer) e ∙ g,
    ap (λ (r : Renderer). r.pixels (address x y)) e ∙ h,
    ap (λ (r : Renderer). r.mouse_cursor_buffer (x + y * 16)) e ∙ k,
    ap (λ (r : Renderer). r.mouse_cursor_buffer_after (x + y * 16)) e ∙ l,
  )

  pub draw-Holds :
      (color : Color) (i j a o : ℕ) (s : Renderer)
      → IsIn i j
      → (in_picture picture i j ≡ true → address i j ≢ a)
      → Holds a o s
      → Holds a o (draw_pixel picture px py color j i s)
  draw-Holds color i j a o s h other (g, k) = elim (Bool-cases (in_picture picture i j)) [
    | inr p ↦ rw p (g, k)
    | inl p ↦
        Holds-same a o _ _ (draw-in color i j s h g p)
          (g, write-other (address i j) a (from_color color) s.pixels (other p) ∙ k)
  ]

  pub draw-IsDrawn :
      (color : Color) (x y o : ℕ) (s : Renderer)
      → IsIn x y
      → in_picture picture x y ≡ true
      → Holds (address x y) o s
      → IsDrawn x y o (from_color color) (draw_pixel picture px py color y x s)
  draw-IsDrawn color x y o s h p (g, k) =
      IsDrawn-same x y o (from_color color) _ _ (draw-in color x y s h g p) (
        g,
        write-here (address x y) (from_color color) s.pixels,
        write-here (x + y * 16) (s.pixels (address x y)) s.mouse_cursor_buffer ∙ k,
        write-here (x + y * 16) (from_color color) s.mouse_cursor_buffer_after,
      )

  index-apart : (i j x y : ℕ) → IsIn i j → IsIn x y → (i ≢ x) ⊎ (j ≢ y) → i + j * 16 ≢ x + y * 16
  index-apart i j x y h k d e =
      let (v, w, l, short, low) = address-value i j h in
      let (v', w', l', short', low') = address-value x y k in
      elim d [ inl n ↦ n (omega (arith, e)) | inr n ↦ n (omega (arith, e)) ]

  pub draw-keeps_IsDrawn :
      (color : Color) (i j x y o c : ℕ) (s : Renderer)
      → IsIn i j
      → IsIn x y
      → (i ≢ x) ⊎ (j ≢ y)
      → IsDrawn x y o c s
      → IsDrawn x y o c (draw_pixel picture px py color j i s)
  draw-keeps_IsDrawn color i j x y o c s h k d (g, l, m, n) =
      elim (Bool-cases (in_picture picture i j)) [
        | inr p ↦ rw p (g, l, m, n)
        | inl p ↦ IsDrawn-same x y o c _ _ (draw-in color i j s h g p) (
          g,
          write-other (address i j) (address x y) (from_color color) s.pixels
                (address-apart i j x y h k d)
              ∙ l,
          write-other (i + j * 16) (x + y * 16) (s.pixels (address i j)) s.mouse_cursor_buffer
                (index-apart i j x y h k d)
              ∙ m,
          write-other (i + j * 16) (x + y * 16) (from_color color) s.mouse_cursor_buffer_after
                (index-apart i j x y h k d)
              ∙ n,
        )
      ]

  pub clear-Holds :
      (i j a o : ℕ) (s : Renderer)
      → IsIn i j
      → (in_picture picture i j ≡ true → address i j ≢ a)
      → Holds a o s
      → Holds a o (clear_pixel picture px py j i s)
  clear-Holds i j a o s h other (g, k) = elim (Bool-cases (in_picture picture i j)) [
    | inr p ↦ rw p (g, k)
    | inl p ↦
        Holds-same a o _ _ (clear-in i j s h g p)
          (elim (Bool-cases (s.pixels (address i j) == s.mouse_cursor_buffer_after (i + j * 16))) [
            | inr t ↦ rw t (g, k)
            | inl t ↦ rw t (
              g,
              write-other (address i j) a (s.mouse_cursor_buffer (i + j * 16)) s.pixels (other p)
                  ∙ k,
            )
          ])
  ]

  pub clear-keeps_IsDrawn :
      (i j x y o c : ℕ) (s : Renderer)
      → IsIn i j
      → IsIn x y
      → (i ≢ x) ⊎ (j ≢ y)
      → IsDrawn x y o c s
      → IsDrawn x y o c (clear_pixel picture px py j i s)
  clear-keeps_IsDrawn i j x y o c s h k d (g, l, m, n) =
      elim (Bool-cases (in_picture picture i j)) [
        | inr p ↦ rw p (g, l, m, n)
        | inl p ↦
            IsDrawn-same x y o c _ _ (clear-in i j s h g p)
              (elim (Bool-cases
                (s.pixels (address i j) == s.mouse_cursor_buffer_after (i + j * 16))) [
                  | inr t ↦ rw t (g, l, m, n)
                  | inl t ↦ rw t (
                    g,
                    write-other (address i j) (address x y) (s.mouse_cursor_buffer (i + j * 16))
                          s.pixels (address-apart i j x y h k d)
                        ∙ l,
                    m,
                    n,
                  )
                ])
      ]

  pub clear-restores :
      (x y o c : ℕ) (s : Renderer)
      → IsIn x y
      → in_picture picture x y ≡ true
      → IsDrawn x y o c s
      → Holds (address x y) o (clear_pixel picture px py y x s)
  clear-restores x y o c s h p (g, l, m, n) =
      let t : (s.pixels (address x y) == s.mouse_cursor_buffer_after (x + y * 16)) ≡ true =
        eq→== _ _ (l ∙ sym n) in
      Holds-same (address x y) o _ _ (clear-in x y s h g p)
        (rw t (g, write-here (address x y) (s.mouse_cursor_buffer (x + y * 16)) s.pixels ∙ m))
