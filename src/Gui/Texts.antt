-- ===== src/Gui/Texts.antt =====
-- kernel/gui.c: the texts stay within their arrays.
use os_u.Prelude.{
  ℕ, zero, suc, ◌+◌, ◌-◌, ◌≤◌, ◌≡◌, inl, inr, refl, ◌∙◌, Bool, ◌&&◌, Bool-cases, List, [], ◌∷◌,
  ◌++◌, length, length-append, length-take, take, ltb, ◌==◌, if◌then◌else◌, arith,
}
use Prim.{Unit, tt}
use os_u.Gui.{Gui, cut, without_first, gui_log_line, is_printed, type_char, type_chars}

-- Lines of at most 63 characters.
abbrev pub AllShort : List (List ℕ) → Type 0
AllShort [] = Unit
AllShort (l ∷ ls) = (length l ≤ 63) × AllShort ls

length-cut : (n : ℕ) (s : List ℕ) → length (cut n s) ≤ n
unfolding cut
length-cut zero s = omega arith
length-cut (suc n) [] = omega arith
length-cut (suc n) (c ∷ s) = ground (arith, length-cut n s)

AllShort-append :
    (ls : List (List ℕ)) (l : List ℕ) → AllShort ls → length l ≤ 63 → AllShort (ls ++ (l ∷ []))
AllShort-append [] l a h = (h, tt)
AllShort-append (k ∷ ls) l (a, b) h = (a, AllShort-append ls l b h)

-- A log of at most eight lines.
abbrev LogFits : List (List ℕ) → Type 0
LogFits ls = (length ls ≤ 8) × AllShort ls

without_first-LogFits :
    (ls : List (List ℕ))
    → LogFits ls
    → (length (without_first ls) ≤ 7) × AllShort (without_first ls)
without_first-LogFits [] w = (omega arith, tt)
without_first-LogFits (l ∷ ls) w = (omega (arith, w.0), w.1.1)

pub gui_log_line-LogFits :
    (ls : List (List ℕ)) (s : List ℕ) → LogFits ls → LogFits (gui_log_line ls s)
unfolding gui_log_line
gui_log_line-LogFits ls s w =
    let (few, short) = without_first-LogFits ls w in
    let l = cut 63 s in
    elim (Bool-cases (ltb (length ls) 8)) [
      | inl e ↦
          rw e (
            ground (arith, e, length-append ls (l ∷ [])),
            AllShort-append ls l w.1 (length-cut 63 s),
          )
      | inr e ↦ rw e (
        ground (arith, few, length-append (without_first ls) (l ∷ [])),
        AllShort-append (without_first ls) l short (length-cut 63 s),
      )
    ]

-- The texts fit in their arrays: 128 characters and eight lines of 64, each with its NUL.
abbrev pub TextFits : Gui → Type 0
TextFits g = (length g.input_line ≤ 127) × LogFits g.log_lines

-- A character that is typed leaves the window and the pointer.
abbrev SameScreen : Gui → Gui → Type 0
SameScreen g h = (g.main_win ≡ h.main_win) × (g.ms ≡ h.ms)

longer_lem :
    (t : Bool) (s : List ℕ) (c : ℕ)
    → length s ≤ 127
    → length (if t && ltb (length s + 1) 128 then s ++ (c ∷ []) else s) ≤ 127
longer_lem t s c h = elim (Bool-cases (t && ltb (length s + 1) 128)) [
  | inl e ↦ rw e (ground (arith, e, length-append s (c ∷ [])))
  | inr e ↦ rw e h
]

type_char_lem :
    (g : Gui) (c : ℕ) → TextFits g → TextFits (type_char g c) × SameScreen (type_char g c) g
unfolding type_char
type_char_lem g c w =
    let n = length g.input_line in
    let shorter : length (take (n - 1) g.input_line) ≤ 127 =
      omega (arith, length-take (n - 1) g.input_line, w.0) in
    let logged : LogFits (if ltb 0 n then gui_log_line g.log_lines g.input_line else g.log_lines) =
      elim (Bool-cases (ltb 0 n)) [
        | inl e ↦ rw e (gui_log_line-LogFits g.log_lines g.input_line w.1)
        | inr e ↦ rw e w.1
      ] in
    let longer : length
          (if is_printed c && ltb (n + 1) 128 then g.input_line ++ (c ∷ []) else g.input_line)
        ≤ 127 =
      longer_lem (is_printed c) g.input_line c w.0 in
    elim (Bool-cases (c == 8)) [
      | inl e ↦ rw e ((shorter, w.1), (refl, refl))
      | inr e ↦ elim (Bool-cases (c == b'\r')) [
        | inl d ↦ rw (e, d) (w, (refl, refl))
        | inr d ↦ elim (Bool-cases (c == b'\n')) [
          | inl k ↦ rw (e, d, k) ((omega arith, logged), (refl, refl))
          | inr k ↦ rw (e, d, k) ((longer, w.1), (refl, refl))
        ]
      ]
    ]

pub type_chars_lem :
    (g : Gui) (keys : List ℕ)
    → TextFits g
    → TextFits (type_chars g keys) × SameScreen (type_chars g keys) g
unfolding type_chars
type_chars_lem g [] w = (w, (refl, refl))
type_chars_lem g (c ∷ keys) w =
    let (w1, (win1, ms1)) = type_char_lem g c w in
    let (w2, (win2, ms2)) = type_chars_lem (type_char g c) keys w1 in
    elim (Bool-cases (c == 27)) [
      | inl e ↦ rw e (w, (refl, refl))
      | inr e ↦ rw e (w2, (win2 ∙ win1, ms2 ∙ ms1))
    ]
