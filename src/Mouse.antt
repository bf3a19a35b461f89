-- ===== src/Mouse.antt =====
-- kernel/mouse.c: packets of the PS/2 mouse, and the pointer on the screen.
pub mod Laws
use os_u.Prelude.{
  ℕ, suc, ◌+◌, ◌-◌, ◌/◌, ◌%◌, Bool, true, false, ◌&&◌, Option, none, some, leb, ltb, ◌==◌,
  if◌then◌else◌,
}

-- The static variables. The packet's first two bytes are kept until the third comes; `x` and `y` are
-- never negative between interrupts, and `dx` and `dy` are the bytes of an int8_t.
pub record Mouse : Type 0 where
  pub x : ℕ
  pub y : ℕ
  pub buttons : ℕ
  pub dx : ℕ
  pub dy : ℕ
  pub updated : Bool
  pub screen_w : ℕ
  pub screen_h : ℕ
  pub packet0 : ℕ
  pub packet1 : ℕ
  pub packet_index : ℕ

-- `x + dx` for a signed byte, and 0 for a negative sum.
unfoldable pub add_signed : ℕ → ℕ → ℕ
add_signed x d = if ltb d 128 then x + d else x + d - 256

-- `y - dy` for a signed byte, and 0 for a negative difference.
unfoldable pub sub_signed : ℕ → ℕ → ℕ
sub_signed y d = if ltb d 128 then y - d else y + 256 - d

-- `if (x >= screen_w) x = screen_w - 1;`
abbrev pub clamp : ℕ → ℕ → ℕ
clamp x w = if leb w x then w - 1 else x

-- The third byte of a packet.
unfoldable pub complete : Mouse → ℕ → Mouse
unfolding add_signed sub_signed
complete m packet2 = record m {
  packet_index = 0;
  x = clamp (add_signed m.x m.packet1) m.screen_w;
  y = clamp (sub_signed m.y packet2) m.screen_h;
  buttons = m.packet0 % 8;
  dx = m.packet1;
  dy = packet2;
  updated = true;
}

-- `mouse_irq_handler`, for the bytes of the status port and of the data port.
unfoldable pub irq_handler : Mouse → ℕ → ℕ → Mouse
unfolding complete
irq_handler m status byte =
    if status / 0x20 % 2 == 0
    then m
    else if m.packet_index == 0 && byte / 0x08 % 2 == 0
    then m
    else if m.packet_index == 0
    then record m { packet0 = byte; packet_index = 1 }
    else if m.packet_index == 1
    then record m { packet1 = byte; packet_index = 2 }
    else complete m byte

-- `mouse_set_bounds`, for sizes that are not negative.
unfoldable pub set_bounds : Mouse → ℕ → ℕ → Mouse
set_bounds m width height =
    let w = if ltb 0 width then width else m.screen_w in
    let h = if ltb 0 height then height else m.screen_h in
    record m { screen_w = w; screen_h = h; x = clamp m.x w; y = clamp m.y h }

-- `mouse_poll`: the state is copied out once after each packet.
unfoldable pub poll : Mouse → Option (ℕ × ℕ × ℕ) × Mouse
poll m = if m.updated then (some (m.x, m.y, m.buttons), record m { updated = false }) else (none, m)
