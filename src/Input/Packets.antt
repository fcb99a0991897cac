-- ===== src/Input/Packets.antt =====
-- How `HandlePS2Mouse` of kernel/src/userinput/mouse.cpp puts packets together.
use mates_os.Base.{
  ℕ, ◌≡◌, false, true, Bool-cases, refl, if◌then◌else◌, inr, inl, ◌==◌, ◌∙◌, ◌&&◌, ap, arith, Bool,
}
use mates_os.Input.Mouse.{handle_ps2_mouse, process_mouse_packet, Mouse, has_flag, take_byte}

process-idle : (w h : ℕ) (m : Mouse) → m.mouse_packet_ready ≡ false → process_mouse_packet w h m ≡ m
unfolding process_mouse_packet
process-idle w h m e = rw e refl

process-frame :
    (w h : ℕ) (m : Mouse)
    → ((process_mouse_packet w h m).skip ≡ m.skip)
      × ((process_mouse_packet w h m).mouse_cycle ≡ m.mouse_cycle)
      × ((process_mouse_packet w h m).mouse_packet_ready ≡ false)
unfolding process_mouse_packet
process-frame w h m = elim (Bool-cases m.mouse_packet_ready) [
  | inr e ↦
      let q = process-idle w h m e in
      (
        ap (λ (t : Mouse). t.skip) q,
        ap (λ (t : Mouse). t.mouse_cycle) q,
        ap (λ (t : Mouse). t.mouse_packet_ready) q ∙ e,
      )
  | inl e ↦ elim (Bool-cases ((w == 0) && (h == 0))) [
    | inl q ↦ rw (e, q) (refl, refl, refl)
    | inr q ↦ rw (e, q) (refl, refl, refl)
  ]
]

-- `handle_ps2_mouse` once the first byte is skipped.
handle-take :
    (w h b : ℕ) (m : Mouse)
    → m.skip ≡ false
    → handle_ps2_mouse w h b m ≡ take_byte b (process_mouse_packet w h m)
unfolding handle_ps2_mouse
handle-take w h b m s =
    let p : Mouse = process_mouse_packet w h m in
    ap (λ (t : Bool). if t then record p { skip = false } else take_byte b p)
      ((process-frame w h m).0 ∙ s)

take_first :
    (b : ℕ) (p : Mouse)
    → p.mouse_cycle ≡ 0
    → has_flag b 0b00001000 ≡ true
    → take_byte b p ≡ record p { packet0 = b; mouse_cycle = 1 }
take_first b p c f = let t : (p.mouse_cycle == 0) ≡ true = ground arith in rw (t, f) refl

take_none :
    (b : ℕ) (p : Mouse) → p.mouse_cycle ≡ 0 → has_flag b 0b00001000 ≡ false → take_byte b p ≡ p
take_none b p c f = let t : (p.mouse_cycle == 0) ≡ true = ground arith in rw (t, f) refl

-- The two bytes after the first.
take_rest :
    (w h b0 b1 b2 : ℕ) (p : Mouse)
    → p.skip ≡ false
    → p.mouse_packet_ready ≡ false
    → handle_ps2_mouse w h b2 (handle_ps2_mouse w h b1 (record p { packet0 = b0; mouse_cycle = 1 }))
      ≡ record p {
        packet0 = b0;
        packet1 = b1;
        packet2 = b2;
        mouse_packet_ready = true;
        mouse_cycle = 0;
      }
take_rest w h b0 b1 b2 p s r =
    let m1 : Mouse = record p { packet0 = b0; mouse_cycle = 1 } in
    let m2 : Mouse = record m1 { packet1 = b1; mouse_cycle = 2 } in
    let e1 : handle_ps2_mouse w h b1 m1 ≡ m2 =
      handle-take w h b1 m1 s ∙ ap (take_byte b1) (process-idle w h m1 r) in
    ap (handle_ps2_mouse w h b2) e1
    ∙ handle-take w h b2 m2 s
    ∙ ap (take_byte b2) (process-idle w h m2 r)

-- A whole packet waits, and the next byte starts another.
pub IsWhole : ℕ → ℕ → ℕ → Mouse → Type 0
IsWhole b0 b1 b2 m =
    (m.packet0 ≡ b0)
    × (m.packet1 ≡ b1)
    × (m.packet2 ≡ b2)
    × (m.mouse_packet_ready ≡ true)
    × (m.mouse_cycle ≡ 0)
    × (m.skip ≡ false)

-- Once the first byte is skipped and no packet is begun, a byte with bit 3 and the two after it
-- make a whole packet, whatever waited before; a byte without bit 3 begins none.
pub handle_ps2_mouse-IsWhole :
    (w h b0 b1 b2 : ℕ) (m : Mouse)
    → m.skip ≡ false
    → m.mouse_cycle ≡ 0
    → (has_flag b0 0b00001000 ≡ true
        → IsWhole b0 b1 b2
            (handle_ps2_mouse w h b2 (handle_ps2_mouse w h b1 (handle_ps2_mouse w h b0 m))))
      × (has_flag b0 0b00001000 ≡ false
          → ((handle_ps2_mouse w h b0 m).mouse_cycle ≡ 0)
            × ((handle_ps2_mouse w h b0 m).mouse_packet_ready ≡ false))
unfolding IsWhole
handle_ps2_mouse-IsWhole w h b0 b1 b2 m s c =
    let p : Mouse = process_mouse_packet w h m in
    let (ps, pc, pr) = process-frame w h m in
    (
      (λ f.
          let e =
            ap (λ (t : Mouse). handle_ps2_mouse w h b2 (handle_ps2_mouse w h b1 t))
              (handle-take w h b0 m s ∙ take_first b0 p (pc ∙ c) f)
            ∙ take_rest w h b0 b1 b2 p (ps ∙ s) pr in
          whole p _ e (ps ∙ s)),
      λ f.
          let e = handle-take w h b0 m s ∙ take_none b0 p (pc ∙ c) f in
          (
            ap (λ (t : Mouse). t.mouse_cycle) e ∙ pc ∙ c,
            ap (λ (t : Mouse). t.mouse_packet_ready) e ∙ pr,
          ),
    )
  where
    whole :
        (p m' : Mouse)
        → m' ≡ record p {
          packet0 = b0;
          packet1 = b1;
          packet2 = b2;
          mouse_packet_ready = true;
          mouse_cycle = 0;
        }
        → p.skip ≡ false
        → IsWhole b0 b1 b2 m'
    whole p m' e s = (
      ap (λ (t : Mouse). t.packet0) e,
      ap (λ (t : Mouse). t.packet1) e,
      ap (λ (t : Mouse). t.packet2) e,
      ap (λ (t : Mouse). t.mouse_packet_ready) e,
      ap (λ (t : Mouse). t.mouse_cycle) e,
      ap (λ (t : Mouse). t.skip) e ∙ s,
    )
