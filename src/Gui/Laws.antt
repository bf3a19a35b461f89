-- ===== src/Gui/Laws.antt =====
-- kernel/gui.c: the window stays on the screen, and the texts within their arrays.
use os_u.Prelude.{
  ℕ, ◌+◌, ◌-◌, ◌^◌, ◌≤◌, ◌<◌, ◌≡◌, ◌⊎◌, inl, inr, refl, sym, ap, Bool-cases, Option, none, some,
  List, [], ◌∷◌, length, sub32, if◌then◌else◌, arith, codes,
}
use mathlib.Core.Path.{subst}
use Prim.{Unit, tt}
use native.Mathlib.Decide.{dec_lt}
use os_u.Gui.{
  Window, Pointer, Gui, gui_log_line, press, kept, drag, gui_round, gui_rounds, gui_start,
}
use os_u.Gui.Texts.{AllShort, gui_log_line-LogFits, TextFits, type_chars_lem}

-- A window of its size, above the bar at the bottom of the screen.
pub record OnScreen (width height : ℕ) (win : Window) : Type 0 where
  pub w : win.w ≡ 520
  pub h : win.h ≡ 240
  pub right : win.x + 520 ≤ width
  pub bottom : win.y + 240 + 24 ≤ height
  pub off_x : win.drag_off_x < 2 ^ 16
  pub off_y : win.drag_off_y < 2 ^ 16

abbrev pub Near : Pointer → Type 0
Near p = (p.x < 2 ^ 16) × (p.y < 2 ^ 16)

kept_lem :
    (v size limit : ℕ)
    → size ≤ limit
    → limit < 2 ^ 16
    → (v < 2 ^ 16) ⊎ (2 ^ 31 ≤ v)
    → kept v size limit + size ≤ limit
kept_lem v size limit h k (inl l) = ground arith
kept_lem v size limit h k (inr l) = ground arith

off_lem : (a b : ℕ) → a < 2 ^ 16 → b < 2 ^ 16 → (sub32 a b < 2 ^ 16) ⊎ (2 ^ 31 ≤ sub32 a b)
off_lem a b h k = elim (dec_lt a b) [ yes l ↦ inr (omega arith) | no l ↦ inl (omega arith) ]

press-OnScreen :
    (width height : ℕ) (win : Window) (ms : Pointer) (last : ℕ)
    → width < 2 ^ 16
    → height < 2 ^ 16
    → Near ms
    → OnScreen width height win
    → OnScreen width height (press win ms last)
unfolding press
press-OnScreen width height win ms last h k near on = record {
  w = ground (arith, on.w);
  h = ground (arith, on.h);
  right = ground (arith, on.right);
  bottom = ground (arith, on.bottom);
  off_x = ground (arith, on.off_x, on.right, near.0);
  off_y = ground (arith, on.off_y, on.bottom, near.1);
}

drag-OnScreen :
    (width height : ℕ) (win : Window) (ms : Pointer)
    → width < 2 ^ 16
    → height < 2 ^ 16
    → Near ms
    → OnScreen width height win
    → OnScreen width height (drag width height win ms)
unfolding drag
drag-OnScreen width height win ms h k near on =
    let moved = record win {
      x = kept (sub32 ms.x win.drag_off_x) win.w width;
      y = kept (sub32 ms.y win.drag_off_y) win.h (sub32 height 24);
    } in
    let low : sub32 height 24 ≡ height - 24 = omega (arith, on.bottom) in
    let x =
      kept_lem (sub32 ms.x win.drag_off_x) 520 width (omega (arith, on.right)) h
        (off_lem ms.x win.drag_off_x near.0 on.off_x) in
    let y =
      kept_lem (sub32 ms.y win.drag_off_y) 240 (height - 24) (omega (arith, on.bottom))
        (omega arith) (off_lem ms.y win.drag_off_y near.1 on.off_y) in
    let fits : OnScreen width height moved = record {
      w = on.w;
      h = on.h;
      right = rw on.w x;
      bottom = rw (on.h, low) (omega (arith, y, on.bottom));
      off_x = on.off_x;
      off_y = on.off_y;
    } in
    elim (Bool-cases win.dragging) [
      | inl e ↦ subst (OnScreen width height) (sym (ap (λ t. if t then moved else win) e)) fits
      | inr e ↦ subst (OnScreen width height) (sym (ap (λ t. if t then moved else win) e)) on
    ]

-- All of it, for the screen.
abbrev IsFine : ℕ → ℕ → Gui → Type 0
IsFine width height g = OnScreen width height g.main_win × Near g.ms × TextFits g

abbrev pub NearIfMoved : Option Pointer → Type 0
NearIfMoved none = Unit
NearIfMoved (some p) = Near p

gui_round-IsFine :
    (width height : ℕ) (g : Gui) (polled : Option Pointer) (keys : List ℕ)
    → width < 2 ^ 16
    → height < 2 ^ 16
    → NearIfMoved polled
    → IsFine width height g
    → IsFine width height (gui_round width height g polled keys)
unfolding gui_round
gui_round-IsFine width height g polled keys h k m (on, near, fits) =
    let ms : Pointer = elim polled [ none ↦ g.ms | some p ↦ p ] in
    let near' : Near ms = nearer polled m in
    let win = drag width height (press g.main_win ms g.last_buttons) ms in
    let on' : OnScreen width height win =
      drag-OnScreen width height (press g.main_win ms g.last_buttons) ms h k near'
        (press-OnScreen width height g.main_win ms g.last_buttons h k near' on) in
    let (fits', (same_win, same_ms)) =
      type_chars_lem (record g { main_win = win; ms = ms }) keys fits in
    (subst (OnScreen width height) (sym same_win) on', subst Near (sym same_ms) near', fits')
  where
    nearer : (o : Option Pointer) → NearIfMoved o → Near (elim o [ none ↦ g.ms | some p ↦ p ])
    nearer none m = near
    nearer (some p) m = m

-- The rounds to come have the pointer at places of 16 bits.
abbrev AllNear : List (Option Pointer × List ℕ) → Type 0
AllNear [] = Unit
AllNear ((polled, keys) ∷ rounds) = NearIfMoved polled × AllNear rounds

gui_rounds-IsFine :
    (width height : ℕ) (g : Gui) (rounds : List (Option Pointer × List ℕ))
    → width < 2 ^ 16
    → height < 2 ^ 16
    → AllNear rounds
    → IsFine width height g
    → IsFine width height (gui_rounds width height g rounds)
unfolding gui_rounds
gui_rounds-IsFine width height g [] h k all fine = fine
gui_rounds-IsFine width height g ((polled, keys) ∷ rounds) h k (m, all) fine =
    let next = gui_round width height g polled keys in
    let rest =
      gui_rounds-IsFine width height next rounds h k all
        (gui_round-IsFine width height g polled keys h k m fine) in
    elim (Bool-cases g.running) [
      | inl e ↦
          subst (IsFine width height)
            (sym (ap (λ t. if t then gui_rounds width height next rounds else g) e)) rest
      | inr e ↦
          subst (IsFine width height)
            (sym (ap (λ t. if t then gui_rounds width height next rounds else g) e)) fine
    ]

-- On a screen of at least 600 by 324 pixels, whatever is typed and wherever the mouse, whose place has 16 bits,
-- drags the window, it stays on the screen and above the bar, the line that is typed fits in its 128 bytes with
-- its NUL, and the log has at most eight lines, each of which fits in its 64 bytes.
pub gui_start-gui_rounds :
    (width height : ℕ) (rounds : List (Option Pointer × List ℕ))
    → 600 ≤ width
    → width < 2 ^ 16
    → 324 ≤ height
    → height < 2 ^ 16
    → AllNear rounds
    → let g = gui_rounds width height (gui_start width height) rounds in
      OnScreen width height g.main_win
      × (length g.input_line ≤ 127)
      × (length g.log_lines ≤ 8)
      × AllShort g.log_lines
unfolding gui_start
gui_start-gui_rounds width height rounds wide h tall k all =
    let first : IsFine width height (gui_start width height) = (
      record {
        w = refl;
        h = refl;
        right = omega arith;
        bottom = omega arith;
        off_x = omega arith;
        off_y = omega arith;
      },
      (omega arith, omega arith),
      (
        omega arith,
        gui_log_line-LogFits (gui_log_line [] (codes "GUI ready. Type text and press Enter."))
            (codes "ESC exits to shell.")
            (gui_log_line-LogFits [] (codes "GUI ready. Type text and press Enter.")
              (omega arith, tt)),
      ),
    ) in
    let (on, near, fits) =
      gui_rounds-IsFine width height (gui_start width height) rounds h k all first in
    (on, fits.0, fits.1.0, fits.1.1)
