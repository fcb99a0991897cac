-- ===== src/Renderer/Cleared.antt =====
-- `ClearScreen` of kernel/src/renderer/basic_renderer_general.cpp.
use mates_os.Base.{
  inl, inr, refl, ℕ, ◌<◌, ◌≡◌, Bool-cases, ap, leb, ◌||◌, false, for_loop, ◌==◌, arith, true, eq→==,
}
use mates_os.Renderer.{FrameBuffer, clear_screen, Color, Renderer, set_pix, pixel_at, from_color}
use mates_os.Renderer.Loops.{for_loop-once, for_loop-never}

-- A word of the frame buffer has a value.
abbrev HasValue : FrameBuffer → ℕ → ℕ → Renderer → Type 0
HasValue f a c s = (s.frame_buffer ≡ f) × (s.pixels a ≡ c)

set_pix-frame :
    (f : FrameBuffer) (x y c : ℕ) (s : Renderer)
    → s.frame_buffer ≡ f
    → (set_pix x y c s).frame_buffer ≡ f
set_pix-frame f x y c s e =
    elim (Bool-cases (leb s.frame_buffer.width x || leb s.frame_buffer.height y)) [
      | inl t ↦ rw t e
      | inr t ↦ rw t e
    ]

set_pix-HasValue :
    (f : FrameBuffer) (x y a c : ℕ) (s : Renderer)
    → HasValue f a c s
    → HasValue f a c (set_pix x y c s)
set_pix-HasValue f x y a c s (e, v) =
    elim (Bool-cases (leb s.frame_buffer.width x || leb s.frame_buffer.height y)) [
      | inl t ↦ rw t (e, v)
      | inr t ↦ rw t (
        e,
        elim (Bool-cases (pixel_at s.frame_buffer x y == a)) [ inl q ↦ rw q refl | inr q ↦ rw q v ],
      )
    ]

set_pix-here :
    (f : FrameBuffer) (x y c : ℕ) (s : Renderer)
    → x < f.width
    → y < f.height
    → s.frame_buffer ≡ f
    → HasValue f (pixel_at f x y) c (set_pix x y c s)
set_pix-here f x y c s p q e =
    let w : s.frame_buffer.width ≡ f.width = ap (λ (g : FrameBuffer). g.width) e in
    let h : s.frame_buffer.height ≡ f.height = ap (λ (g : FrameBuffer). g.height) e in
    let t : (leb s.frame_buffer.width x || leb s.frame_buffer.height y) ≡ false = ground arith in
    let same : (pixel_at s.frame_buffer x y == pixel_at f x y) ≡ true =
      eq→== _ _ (ap (λ (g : FrameBuffer). pixel_at g x y) e) in
    rw t (e, rw same refl)

-- `ClearScreen`: every pixel on the screen has the colour.
pub clear_screen_lem :
    (color : Color) (r : Renderer) (u v : ℕ)
    → u < r.frame_buffer.width
    → v < r.frame_buffer.height
    → (clear_screen color r).pixels (pixel_at r.frame_buffer u v) ≡ from_color color
unfolding clear_screen
clear_screen_lem color r u v p q =
    let f = r.frame_buffer in
    let c = from_color color in
    let a = pixel_at f u v in
    (for_loop-once (λ (s : Renderer). s.frame_buffer ≡ f) (HasValue f a c)
      (λ x s. for_loop (λ y t. set_pix x y c t) f.height 0 s) f.width 0 u r
      (λ x s low n e.
        for_loop-never (λ (t : Renderer). t.frame_buffer ≡ f) (λ y t. set_pix x y c t) f.height 0 s
          (λ y t lo hi k. set_pix-frame f x y c t k) e)
      (λ s e.
        for_loop-once (λ (t : Renderer). t.frame_buffer ≡ f) (HasValue f a c)
          (λ y t. set_pix u y c t) f.height 0 v s (λ y t low n k. set_pix-frame f u y c t k)
          (λ t k. set_pix-here f u v c t p q k) (λ y t low n k. set_pix-HasValue f u y a c t k)
          (omega arith) (omega arith) e)
      (λ x s low n k.
        for_loop-never (HasValue f a c) (λ y t. set_pix x y c t) f.height 0 s
          (λ y t lo hi l. set_pix-HasValue f x y a c t l) k)
      (omega arith) (omega arith) refl).1
