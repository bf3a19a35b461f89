-- ===== src/Cosypy/Statement.antt =====
-- kernel/cospy.c: execute_statement.
pub mod Evaluate
pub mod Assign
pub mod Skip
pub mod Blocks
pub mod Programs
pub mod InnerIf
use os_u.Prelude.{
  ℕ, zero, suc, ◌+◌, ◌-◌, ◌^◌, Bool, true, false, ◌&&◌, ◌||◌, not, Option, none, some, List, [],
  ◌∷◌, ◌++◌, length, get_or, drop, leb, ltb, ◌==◌, if◌then◌else◌, codes,
}
use os_u.Cstring.{strcmp, strncmp}
use os_u.Vga.{dec_text}
use os_u.Cosypy.Lexer.{Token, eof, str, ident, eq, lparen, is, next_token}
use os_u.Cosypy.State.{
  Cosypy, Function, M, Run, ok, stop, overruns, out_of_fuel, bind, ◌>>=◌, ◌>>◌, pure, halt, advance,
  put_text, set_var,
}
use os_u.Cosypy.Parser.{parse}

-- `cursor = line; next_token();`
abbrev pub start_at : List ℕ → M (Unit {0})
start_at line s = advance (record s { cursor = line })

-- `cursor = line; next_token(); parse_expr()`
unfoldable pub evaluate : List ℕ → M ℕ
evaluate line = do start_at line; parse

-- `strncmp(line, word, n) == 0`, for a word of `n` characters.
abbrev pub begins : List ℕ → List ℕ → Bool
begins line word = strncmp line word (length word) == 0

-- The blanks at the front of the line.
unfoldable pub skip_indent : List ℕ → List ℕ
skip_indent [] = []
skip_indent (c ∷ s) = let rest = skip_indent s in if c == b' ' || c == 9 then rest else c ∷ s

abbrev pub cosypy_max_funcs : ℕ
cosypy_max_funcs = 16

abbrev pub cosypy_max_func_lines : ℕ
cosypy_max_func_lines = 32

-- A line behind those of the `i`-th function, if there is room.
unfoldable add_line : List Function → ℕ → List ℕ → List Function
add_line [] i line = []
add_line (f ∷ fs) zero line =
    if ltb (length f.lines) cosypy_max_func_lines
    then record f { lines = f.lines ++ line ∷ [] } ∷ fs
    else f ∷ fs
add_line (f ∷ fs) (suc i) line = f ∷ add_line fs i line

-- A line while a function is being defined.
unfoldable define_line : List ℕ → Cosypy → Cosypy
unfolding add_line
define_line line s =
    if begins line (codes "enddef")
    then record s { defining_function = false }
    else record s { functions = add_line s.functions s.current_func_idx line }

-- `endif`
unfoldable pub end_if : Cosypy → Cosypy
end_if s =
    if s.if_depth == 0
    then s
    else if s.if_depth == 1
    then record s { if_depth = 0; in_if_false = false }
    else record s { if_depth = s.if_depth - 1 }

-- `else`: only that of the outermost if counts.
unfoldable pub else_branch : Cosypy → Cosypy
else_branch s = if s.if_depth == 1 then record s { in_if_false = not s.in_if_false } else s

abbrev pub is_else : List ℕ → Bool
is_else line =
    begins line (codes "else")
    && (get_or line 4 0 == b':' || (get_or line 4 0 == 0 || get_or line 4 0 == b' '))

-- `if`: a condition is evaluated unless the line stands in a block that is skipped.
unfoldable pub if_line : List ℕ → M (Unit {0})
unfolding evaluate
if_line line s =
    let deeper = record s { if_depth = s.if_depth + 1 } in
    if s.in_if_false
    then ok (tt, deeper)
    else bind (evaluate (drop 3 line) deeper)
        (λ v s'. ok (tt, if v == 0 then record s' { in_if_false = true } else s'))

-- The name of a function: at most `n` characters, up to a parenthesis.
unfoldable def_name : ℕ → List ℕ → List ℕ
def_name zero s = []
def_name (suc n) [] = []
def_name (suc n) (c ∷ s) = let rest = def_name n s in if c == 0 || c == b'(' then [] else c ∷ rest

-- `def`
unfoldable def_line : List ℕ → Cosypy → Cosypy
unfolding def_name
def_line line s =
    if leb cosypy_max_funcs (length s.functions)
    then record s { out = s.out ++ codes "too many functions\n" }
    else record s {
      functions = s.functions ++ record { name = def_name 15 (drop 4 line); lines = [] } ∷ [];
      current_func_idx = length s.functions;
      defining_function = true;
    }

-- `print(`: a text is printed as it is, and of an expression its value as a number without a sign.
unfoldable print_token : Token → M (Unit {0})
print_token (str t) = put_text (t ++ b'\n' ∷ [])
print_token t = do v ← parse; put_text (dec_text v ++ b'\n' ∷ [])

unfoldable pub print_line : List ℕ → M (Unit {0})
unfolding print_token
print_line line s = bind (start_at (drop 6 line) s) (λ _ s'. print_token s'.token s')

unfoldable pub find_function : List Function → List ℕ → Option Function
find_function [] name = none
find_function (f ∷ fs) name = if strcmp f.name name == 0 then some f else find_function fs name

-- The lines of a function; what execute_statement returns is not looked at.
unfoldable pub run_lines : (List ℕ → M Bool) → List (List ℕ) → M (Unit {0})
run_lines execute [] = pure tt
run_lines execute (line ∷ lines) = do execute line; run_lines execute lines

-- A call of a function, for a given call of execute_statement; an unknown name is passed over.
unfoldable call_function : (List ℕ → M Bool) → List ℕ → M (Unit {0})
unfolding find_function run_lines
call_function execute name s = elim (find_function s.functions name) [
  | none ↦ ok (tt, s)
  | some f ↦ run_lines execute f.lines s
]

-- `x = expr`
unfoldable pub assign : List ℕ → M (Unit {0})
unfolding set_var
assign name = do
  advance
  v ← parse
  λ s. elim (set_var s.vars name v) [
    | none ↦ stop overruns
    | some vars ↦ ok (tt, record s { vars = vars })
  ]

-- What follows a name at the begin of a line.
unfoldable pub name_line : (List ℕ → M Bool) → List ℕ → M (Unit {0})
unfolding call_function assign
name_line execute name s =
    if is s.token lparen
    then call_function execute name s
    else if is s.token eq
    then assign name s
    else ok (tt, s)

unfoldable pub token_line : (List ℕ → M Bool) → Token → M (Unit {0})
unfolding name_line
token_line execute (ident name) = do advance; name_line execute name
token_line execute t = pure tt

-- A call of a function, or an assignment; any other line does nothing.
unfoldable pub plain_line : (List ℕ → M Bool) → List ℕ → M (Unit {0})
unfolding token_line
plain_line execute line s = bind (start_at line s) (λ _ s'. token_line execute s'.token s')

abbrev pub goes_on : {A : Type 0} → M A → M Bool
goes_on m = do m; pure false

abbrev pub does : (Cosypy → Cosypy) → M Bool
does f s = ok (false, f s)

-- A line that is no comment and stands in no definition and no skipped block.
unfoldable active_line : (List ℕ → M Bool) → List ℕ → M Bool
unfolding def_line print_line plain_line
active_line execute line =
    if begins line (codes "endwhile")
    then pure false
    else if begins line (codes "while ")
    then does (λ s. record s { while_cond = drop 6 line; while_depth = s.while_depth + 1 })
    else if begins line (codes "def ")
    then does (def_line line)
    else if begins line (codes "print") && get_or line 5 0 == b'('
    then goes_on (print_line line)
    else goes_on (plain_line execute line)

-- A line that is no comment and stands in no definition.
unfoldable pub control_line : (List ℕ → M Bool) → List ℕ → M Bool
unfolding end_if else_branch if_line active_line
control_line execute line s =
    if begins line (codes "exit") || begins line (codes "quit")
    then ok (true, s)
    else if begins line (codes "endif")
    then ok (false, end_if s)
    else if is_else line
    then ok (false, else_branch s)
    else if begins line (codes "if ")
    then goes_on (if_line line) s
    else if s.in_if_false
    then ok (false, s)
    else active_line execute line s

-- A line without its indent.
unfoldable pub statement : (List ℕ → M Bool) → List ℕ → M Bool
unfolding define_line control_line
statement execute [] s = ok (false, s)
statement execute (c ∷ line) s =
    if c == 0 || c == b'#'
    then ok (false, s)
    else if s.defining_function
    then ok (false, define_line (c ∷ line) s)
    else control_line execute (c ∷ line) s

-- `execute_statement`: whether the interpreter is left. The fuel bounds how deep functions call one
-- another, as the kernel's stack does.
unfoldable pub execute_statement : ℕ → List ℕ → M Bool
unfolding statement skip_indent
execute_statement zero line = halt out_of_fuel
execute_statement (suc n) line = statement (execute_statement n) (skip_indent line)
