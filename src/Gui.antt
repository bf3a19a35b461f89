-- ===== src/Gui.antt =====
-- kernel/gui.c: the window, the line that is typed and the lines of the log, as gui_run changes them. An int is
-- its 32 bits, and a C string the list of its characters. Draw has what is drawn.
pub mod Texts
pub mod Draw
pub mod Laws
use os_u.Prelude.{
  ℕ, zero, suc, ◌+◌, ◌-◌, ◌*◌, ◌/◌, ◌%◌, ◌^◌, Bool, true, false, ◌&&◌, ◌||◌, Option, none, some,
  List, [], ◌∷◌, ◌++◌, length, take, is_neg, add32, sub32, lt32, ltb, leb, ◌==◌, not, if◌then◌else◌,
  codes,
}

-- `gui_window_t`
pub record Window : Type 0 where
  pub x : ℕ
  pub y : ℕ
  pub w : ℕ
  pub h : ℕ
  pub dragging : Bool
  pub drag_off_x : ℕ
  pub drag_off_y : ℕ

-- The fields of `mouse_state_t` that gui_run reads.
pub record Pointer : Type 0 where
  pub x : ℕ
  pub y : ℕ
  pub buttons : ℕ

-- The static variables and those of gui_run: `input_line` up to `input_len`, and the first `log_count` lines of
-- `log_lines`.
pub record Gui : Type 0 where
  pub main_win : Window
  pub input_line : List ℕ
  pub log_lines : List (List ℕ)
  pub last_key : List ℕ
  pub ms : Pointer
  pub last_buttons : ℕ
  pub running : Bool

-- At most `n` characters of a C string.
unfoldable pub cut : ℕ → List ℕ → List ℕ
cut zero s = []
cut (suc n) [] = []
cut (suc n) (c ∷ s) = let rest = cut n s in if c == 0 then [] else c ∷ rest

abbrev pub without_first : List (List ℕ) → List (List ℕ)
without_first [] = []
without_first (l ∷ ls) = ls

-- `gui_log_line`: a line of 64 bytes ends with a NUL, and when all eight are used the first is dropped.
unfoldable pub gui_log_line : List (List ℕ) → List ℕ → List (List ℕ)
unfolding cut
gui_log_line lines s =
    if ltb (length lines) 8
    then lines ++ (cut 63 s ∷ [])
    else without_first lines ++ (cut 63 s ∷ [])

-- Whether the left button is down.
abbrev is_down : ℕ → Bool
is_down buttons = not (buttons % 2 == 0)

-- The tests whether the pointer is on the title bar, and what a press does there.
abbrev on_title : Window → Pointer → Bool
on_title win ms =
    not (lt32 ms.x win.x)
    && (lt32 ms.x (add32 win.x win.w) && (not (lt32 ms.y win.y) && lt32 ms.y (add32 win.y 18)))

abbrev pub grabbed : Window → Pointer → Window
grabbed win ms = record win {
  dragging = true;
  drag_off_x = sub32 ms.x win.x;
  drag_off_y = sub32 ms.y win.y;
}

-- The part of gui_run on the button.
unfoldable pub press : Window → Pointer → ℕ → Window
press win ms last_buttons =
    if is_down ms.buttons && not (is_down last_buttons)
    then (if on_title win ms then grabbed win ms else win)
    else if not (is_down ms.buttons) && is_down last_buttons
    then record win { dragging = false }
    else win

-- The two tests that keep one coordinate of the window between 0 and a limit.
abbrev pub kept : ℕ → ℕ → ℕ → ℕ
kept v size limit =
    let a = if is_neg v then 0 else v in if lt32 limit (add32 a size) then sub32 limit size else a

-- The part of gui_run that drags, on a screen of this width and height; the bar at the bottom has 24 rows.
unfoldable pub drag : ℕ → ℕ → Window → Pointer → Window
drag width height win ms =
    if win.dragging
    then record win {
      x = kept (sub32 ms.x win.drag_off_x) win.w width;
      y = kept (sub32 ms.y win.drag_off_y) win.h (sub32 height 24);
    }
    else win

abbrev pub is_printed : ℕ → Bool
is_printed c = leb 32 c && leb c 126

-- A character that is typed, other than ESC, up to the next one.
unfoldable pub type_char : Gui → ℕ → Gui
unfolding gui_log_line
type_char g c =
    let n = length g.input_line in
    if c == 8
    then record g { input_line = take (n - 1) g.input_line }
    else if c == b'\r'
    then g
    else if c == b'\n'
    then record g {
      log_lines = if ltb 0 n then gui_log_line g.log_lines g.input_line else g.log_lines;
      input_line = [];
    }
    else record g {
      input_line =
          if is_printed c && ltb (n + 1) 128 then g.input_line ++ (c ∷ []) else g.input_line;
      last_key = if is_printed c then c ∷ [] else b'^' ∷ (b'@' + c % 32) ∷ [];
    }

-- The loop over the characters that are there.
unfoldable pub type_chars : Gui → List ℕ → Gui
unfolding type_char
type_chars g [] = g
type_chars g (c ∷ keys) =
    let rest = type_chars (type_char g c) keys in
    if c == 27 then record g { running = false } else rest

-- A round of gui_run, for what mouse_poll gives, if anything, and the characters in the keyboard's queue.
unfoldable pub gui_round : ℕ → ℕ → Gui → Option Pointer → List ℕ → Gui
unfolding press drag type_chars
gui_round width height g polled keys =
    let ms : Pointer = elim polled [ none ↦ g.ms | some p ↦ p ] in
    let win = drag width height (press g.main_win ms g.last_buttons) ms in
    let typed = type_chars (record g { main_win = win; ms = ms }) keys in
    record typed { last_buttons = ms.buttons }

-- The loop of gui_run over the rounds to come.
unfoldable pub gui_rounds : ℕ → ℕ → Gui → List (Option Pointer × List ℕ) → Gui
unfolding gui_round
gui_rounds width height g [] = g
gui_rounds width height g ((polled, keys) ∷ rounds) =
    let rest = gui_rounds width height (gui_round width height g polled keys) rounds in
    if g.running then rest else g

-- What gui_run sets before the loop.
unfoldable pub gui_start : ℕ → ℕ → Gui
unfolding gui_log_line
gui_start width height = record {
  main_win = record {
    x = 80;
    y = 60;
    w = 520;
    h = 240;
    dragging = false;
    drag_off_x = 0;
    drag_off_y = 0;
  };
  input_line = [];
  log_lines =
      gui_log_line (gui_log_line [] (codes "GUI ready. Type text and press Enter."))
        (codes "ESC exits to shell.");
  last_key = [];
  ms = record { x = width / 2; y = height / 2; buttons = 0 };
  last_buttons = 0;
  running = true;
}
