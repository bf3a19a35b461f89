-- ===== src/Mouse/Laws.antt =====
-- kernel/mouse.c: the pointer stays on the screen, and packets keep their frame.
use os_u.Prelude.{ℕ, ◌+◌, ◌-◌, ◌/◌, ◌%◌, ◌<◌, ◌≡◌, refl, true, arith, ltb, if◌then◌else◌, min}
use os_u.Mouse.{Mouse, add_signed, sub_signed, complete, irq_handler, set_bounds}

-- The pointer lies on a screen that is not empty, and a packet is not complete.
pub record IsValid (m : Mouse) : Type 0 where
  pub on_screen_x : m.x < m.screen_w
  pub on_screen_y : m.y < m.screen_h
  pub partial : m.packet_index < 3

-- With the pointer on the screen and less than a packet read, every interrupt and every change of
-- the bounds keeps it so.
pub mouse-IsValid :
    (m : Mouse) (status byte width height : ℕ)
    → IsValid m
    → IsValid (irq_handler m status byte) × IsValid (set_bounds m width height)
unfolding irq_handler complete set_bounds
mouse-IsValid m status byte width height v = (ground arith, ground arith)

irq_skip :
    (m : Mouse) (byte : ℕ) → m.packet_index ≡ 0 → byte / 8 % 2 ≡ 0 → irq_handler m 0x20 byte ≡ m
unfolding irq_handler
irq_skip m byte e h = ground arith

irq_first :
    (m : Mouse) (byte : ℕ)
    → m.packet_index ≡ 0
    → byte / 8 % 2 ≡ 1
    → irq_handler m 0x20 byte ≡ record m { packet0 = byte; packet_index = 1 }
unfolding irq_handler
irq_first m byte e h = ground arith

irq_second :
    (m : Mouse) (byte : ℕ)
    → m.packet_index ≡ 1
    → irq_handler m 0x20 byte ≡ record m { packet1 = byte; packet_index = 2 }
unfolding irq_handler
irq_second m byte e = ground arith

irq_third : (m : Mouse) (byte : ℕ) → m.packet_index ≡ 2 → irq_handler m 0x20 byte ≡ complete m byte
unfolding irq_handler
irq_third m byte e = ground arith

complete_lem :
    (m : Mouse) (dy : ℕ)
    → m.x < m.screen_w
    → m.y < m.screen_h
    → m.packet1 < 256
    → dy < 256
    → let dx = m.packet1 in
      let m' = complete m dy in
      (m'.x ≡ (if ltb dx 128 then min (m.x + dx) (m.screen_w - 1) else m.x - (256 - dx)))
      × (m'.y ≡ (if ltb dy 128 then m.y - dy else min (m.y + (256 - dy)) (m.screen_h - 1)))
      × (m'.buttons ≡ m.packet0 % 8)
      × (m'.packet_index ≡ 0)
      × (m'.updated ≡ true)
unfolding complete add_signed sub_signed
complete_lem m dy h h' p q = ground arith

-- With the pointer on the screen and no packet begun, a byte without bit 3 is skipped, and then
-- three bytes from the mouse, the first with bit 3 set, move the pointer by the two signed bytes,
-- to the right and up, as far as the screen goes, and wait to be polled.
pub packet_moves :
    (m : Mouse) (skipped b dx dy : ℕ)
    → IsValid m
    → m.packet_index ≡ 0
    → skipped / 8 % 2 ≡ 0
    → b / 8 % 2 ≡ 1
    → dx < 256
    → dy < 256
    → let m' =
        irq_handler
          (irq_handler (irq_handler (irq_handler m 0x20 skipped) 0x20 b) 0x20 dx)
          0x20
          dy in
      (m'.x ≡ (if ltb dx 128 then min (m.x + dx) (m.screen_w - 1) else m.x - (256 - dx)))
      × (m'.y ≡ (if ltb dy 128 then m.y - dy else min (m.y + (256 - dy)) (m.screen_h - 1)))
      × (m'.buttons ≡ b % 8)
      × (m'.packet_index ≡ 0)
      × (m'.updated ≡ true)
packet_moves m skipped b dx dy v e s h p q =
    let m1 = record m { packet0 = b; packet_index = 1 } in
    let m2 = record m1 { packet1 = dx; packet_index = 2 } in
    rw (irq_skip m skipped e s, irq_first m b e h, irq_second m1 dx refl, irq_third m2 dy refl)
      (complete_lem m2 dy v.on_screen_x v.on_screen_y p q)
