-- ===== src/Cosypy/State.antt =====
-- kernel/cospy.c: the static variables of the interpreter, and the programs that work on them.
use os_u.Prelude.{
  ℕ, Bool, Option, none, some, List, [], ◌∷◌, ◌++◌, length, leb, ltb, ◌==◌, if◌then◌else◌,
}
use os_u.Cstring.{strcmp, strlen, atoi}
use os_u.Keyboard.Line.{keyboard_readline, text}
use os_u.Cosypy.Lexer.{Token, next_token}

-- `function_t`
pub record Function : Type 0 where
  pub name : List ℕ
  pub lines : List (List ℕ)

-- The static variables; `vars` holds the first var_count variables, and `functions` the first func_count
-- functions. `keys` are the characters that are still to come from the keyboard, and `out` is what
-- was printed.
pub record Cosypy : Type 0 where
  pub cursor : List ℕ
  pub token : Token
  pub vars : List (List ℕ × ℕ)
  pub functions : List Function
  pub in_if_false : Bool
  pub if_depth : ℕ
  pub while_depth : ℕ
  pub while_cond : List ℕ
  pub defining_function : Bool
  pub current_func_idx : ℕ
  pub keys : List ℕ
  pub out : List ℕ

-- Why a run ends early: it waits for a key, the processor stops it at a division, it writes behind the
-- end of an array, which is undefined, or the model ran out of fuel.
pub data Halt : Type 0 where
  waits traps_at overruns out_of_fuel : Halt

pub data Run (A : Type 0) : Type 0 where
  ok : A → Run A
  stop : Halt → Run A

abbrev pub M : Type 0 → Type 0
M A = Cosypy → Run (A × Cosypy)

abbrev pub bind : {A B : Type 0} → Run (A × Cosypy) → (A → M B) → Run (B × Cosypy)
bind (ok (a, s)) f = f a s
bind (stop h) f = stop h

infixl 5 ◌>>=◌ ◌>>◌
abbrev pub ◌>>=◌ : {A B : Type 0} → M A → (A → M B) → M B
◌>>=◌ m f s = bind (m s) f

abbrev pub ◌>>◌ : {A B : Type 0} → M A → M B → M B
m >> k = m >>= λ _. k

abbrev pub pure : {A : Type 0} → A → M A
pure a s = ok (a, s)

abbrev pub halt : {A : Type 0} → Halt → M A
halt h s = stop h

-- `next_token()`
abbrev pub advance : M (Unit {0})
advance s = let (t, rest) = next_token s.cursor in ok (tt, record s { cursor = rest; token = t })

abbrev pub put_text : List ℕ → M (Unit {0})
put_text t s = ok (tt, record s { out = s.out ++ t })

-- `get_var`: the value of the first variable of that name.
unfoldable pub get_var : List (List ℕ × ℕ) → List ℕ → Option ℕ
get_var [] name = none
get_var ((n, v) ∷ vars) name = if strcmp n name == 0 then some v else get_var vars name

abbrev pub cosypy_max_vars : ℕ
cosypy_max_vars = 64

-- The variable is there, and takes the value.
unfoldable pub replace_var : List (List ℕ × ℕ) → List ℕ → ℕ → List (List ℕ × ℕ)
replace_var [] name value = []
replace_var ((n, v) ∷ vars) name value =
    if strcmp n name == 0 then (n, value) ∷ vars else (n, v) ∷ replace_var vars name value

-- `set_var`: with 64 variables a new one is dropped. The array for a name has 16 characters.
unfoldable pub set_var : List (List ℕ × ℕ) → List ℕ → ℕ → Option (List (List ℕ × ℕ))
unfolding get_var replace_var
set_var vars name value = elim (get_var vars name) [
  | some v ↦ some (replace_var vars name value)
  | none ↦
      if leb cosypy_max_vars (length vars)
      then some vars
      else if ltb (strlen name) 16
      then some (vars ++ (name, value) ∷ [])
      else none
]

-- The built-in input(): a line of at most 63 characters, and its number.
unfoldable pub read_input : M ℕ
read_input s = elim (keyboard_readline (λ i. 0) 64 s.keys) [
  | none ↦ stop waits
  | some (l, rest) ↦ ok (atoi (text l), record s { keys = rest; out = s.out ++ l.echo })
]
