-- ===== src/Script/Laws.antt =====
-- kernel/script.c: which lines a script runs.
use os_u.Prelude.{
  ℕ, zero, suc, ◌+◌, ◌-◌, ◌≤◌, ◌<◌, ◌≡◌, sym, ◌∙◌, ap, Bool, Option, none, some, List, [], ◌∷◌,
  ◌++◌, length, length-append, Bytes, Holds, arith,
}
use mathlib.Core.Path.{subst}
use os_u.Keyboard.Line.{NoNewline}
use os_u.Shell.Commands.{Machine}
use os_u.Script.{execute_line, copy_line, next_line, script_loop}

-- The text of a file with these lines.
abbrev pub unlines : List (List ℕ) → List ℕ
unlines [] = []
unlines (line ∷ lines) = line ++ b'\n' ∷ unlines lines

-- Lines of at most 127 characters.
abbrev AreLines : List (List ℕ) → Type 0
AreLines [] = Unit
AreLines (line ∷ lines) = NoNewline line × (length line ≤ 127) × AreLines lines

-- The lines one after another.
unfoldable pub run_all : List (List ℕ) → Machine → Option Machine
run_all [] m = some m
run_all (line ∷ lines) m = elim (execute_line line m) [
  | none ↦ none
  | some (r, m') ↦ run_all lines m'
]

-- No line, run after those before it, changes `read_cache`.
abbrev pub KeepCache : List (List ℕ) → Machine → Type 0
KeepCache [] m = Unit
KeepCache (line ∷ lines) m =
    (r : Bool × Machine) × (execute_line line m ≡ some r)
    × (r.1.fs.read_cache ≡ m.fs.read_cache)
    × KeepCache lines r.1

copy_line-lines :
    (n room : ℕ) (content : Bytes) (p : ℕ) (line rest : List ℕ)
    → Holds content p (line ++ b'\n' ∷ rest)
    → NoNewline line
    → length line < n
    → length line ≤ room
    → copy_line n room content p ≡ (line, p + length line)
unfolding copy_line
copy_line-lines zero room content p line rest h nn k l = absurd (omega arith)
copy_line-lines (suc n) zero content p [] rest h nn k l = ap (λ q. ([], q)) (omega arith)
copy_line-lines (suc n) zero content p (c ∷ line) rest h nn k l = absurd (omega arith)
copy_line-lines (suc n) (suc room) content p [] rest h nn k l = ground (arith, h.0)
copy_line-lines (suc n) (suc room) content p (c ∷ line) rest h nn k l =
    let e = copy_line-lines n room content (p + 1) line rest h.1 nn.1 (omega arith) (omega arith) in
    ground (arith, h.0, nn.0, e)

Holds-append :
    (content : Bytes) (p : ℕ) (s t : List ℕ)
    → Holds content p (s ++ t)
    → Holds content (p + length s) t
Holds-append content p [] t h =
    let e : p ≡ p + 0 = omega arith in subst (λ q. Holds content q t) e h
Holds-append content p (c ∷ s) t h =
    let e : p + 1 + length s ≡ p + suc (length s) = omega arith in
    subst (λ q. Holds content q t) e (Holds-append content (p + 1) s t h.1)

next_line-lines :
    (content : Bytes) (p end : ℕ) (line rest : List ℕ)
    → Holds content p (line ++ b'\n' ∷ rest)
    → NoNewline line
    → length line ≤ 127
    → p + length line < end
    → next_line content p end ≡ (line, p + length line + 1)
unfolding next_line
next_line-lines content p end line rest h nn l k =
    let e = copy_line-lines (end - p) 127 content p line rest h nn (omega arith) l in
    let nl = (Holds-append content p line (b'\n' ∷ rest) h).0 in rw e ground (arith, nl)

script_loop-next :
    (n p q end : ℕ) (line : List ℕ) (m : Machine) (r : Bool × Machine)
    → p < end
    → next_line m.fs.read_cache p end ≡ (line, q)
    → execute_line line m ≡ some r
    → script_loop (suc n) p end m ≡ script_loop n q end r.1
unfolding script_loop
script_loop-next n p q end line m r h e f =
    let run : List ℕ × ℕ → Option Machine =
      λ (l, q). elim (execute_line l m) [ none ↦ none | some (b, m') ↦ script_loop n q end m' ] in
    let go : Option (Bool × Machine) → Option Machine =
      λ o. elim o [ none ↦ none | some (b, m') ↦ script_loop n q end m' ] in
    ground (arith, h) ∙ ap run e ∙ ap go f

-- A script of lines of at most 127 characters that leave read_cache alone runs its lines one after
-- another, and each of them once.
pub script_loop-lines :
    (n p end : ℕ) (lines : List (List ℕ)) (m : Machine)
    → AreLines lines
    → Holds m.fs.read_cache p (unlines lines)
    → KeepCache lines m
    → length lines ≤ n
    → end ≡ p + length (unlines lines)
    → script_loop n p end m ≡ run_all lines m
unfolding script_loop run_all
script_loop-lines zero p end [] m a h k l e = ground arith
script_loop-lines zero p end (line ∷ lines) m a h k l e = absurd (omega arith)
script_loop-lines (suc n) p end [] m a h k l e = ground arith
script_loop-lines (suc n) p end (line ∷ lines) m a h (r, f, same, k) l e =
    let q = p + length line + 1 in
    let len = length-append line (b'\n' ∷ unlines lines) in
    let size : p + length line < end = omega arith in
    let stored = Holds-append m.fs.read_cache p line (b'\n' ∷ unlines lines) h in
    let later = subst (λ c. Holds c q (unlines lines)) (sym same) stored.1 in
    script_loop-next n p q end line m r (omega arith)
      (next_line-lines m.fs.read_cache p end line (unlines lines) h a.0 a.1 size) f
    ∙ script_loop-lines n q end lines r.1 a.2 later k (omega arith) (omega arith)
    ∙ sym (
        ap
          (λ (o : Option (Bool × Machine)). elim o [
            | none ↦ none
            | some (b, m') ↦ run_all lines m'
          ])
          f)
