-- ===== src/Forth.antt =====
-- kernel/lang.c: the Forth interpreter, its stack, its words and its lines.
pub mod Stack
pub mod Tokens
pub mod Postfix
use os_u.Prelude.{
  ℕ, zero, suc, ◌+◌, ◌-◌, ◌%◌, ◌^◌, Bool, true, false, ◌&&◌, ◌||◌, Option, none, some, List, [],
  ◌∷◌, ◌++◌, Bytes, update, length, leb, ltb, ◌==◌, if◌then◌else◌, add32, sub32, mul32, div32,
  traps, codes,
}
use os_u.Cstring.{strcmp, atoi}
use os_u.Vga.{dec_text}

-- `stack`, of 128 values, and `sp`.
pub record Forth : Type 0 where
  pub stack : Bytes
  pub sp : ℕ

abbrev pub stack_max : ℕ
stack_max = 128

-- `pop`: `none` for the result -1.
unfoldable pop : Forth → Option ℕ × Forth
pop f = if f.sp == 0 then (none, f) else (some (f.stack (f.sp - 1)), record f { sp = f.sp - 1 })

-- `push`: whether there was room.
unfoldable pub push : Forth → ℕ → Bool × Forth
push f v =
    if leb stack_max f.sp
    then (false, f)
    else (true, record f { stack = update f.stack f.sp v; sp = f.sp + 1 })

-- The digits that is_number reads behind a sign; an empty text has none.
unfoldable pub all_digits : List ℕ → Bool
all_digits [] = true
all_digits (c ∷ s) =
    let rest = all_digits s in if c == 0 then true else leb b'0' c && (leb c b'9' && rest)

unfoldable pub some_digits : List ℕ → Bool
unfolding all_digits
some_digits [] = false
some_digits (c ∷ s) = if c == 0 then false else all_digits (c ∷ s)

-- `is_number`
unfoldable pub is_number : List ℕ → Bool
unfolding some_digits
is_number [] = false
is_number (c ∷ s) = if c == b'-' || c == b'+' then some_digits s else some_digits (c ∷ s)

abbrev pub is_blank : ℕ → Bool
is_blank c = c == b' ' || c == 9

-- The first loop of next_tok.
unfoldable skip_blanks : List ℕ → List ℕ
skip_blanks [] = []
skip_blanks (c ∷ s) = let rest = skip_blanks s in if is_blank c then rest else c ∷ s

-- The second loop: the token, and the text behind the blank that ends it.
unfoldable pub split_tok : List ℕ → List ℕ × List ℕ
split_tok [] = ([], [])
split_tok (c ∷ s) =
    let (tok, rest) = split_tok s in
    if c == 0 then ([], c ∷ s) else if is_blank c then ([], s) else (c ∷ tok, rest)

-- The token of a text that does not begin with a blank; `none` at the end of the line.
unfoldable tok_at : List ℕ → Option (List ℕ × List ℕ)
unfolding split_tok
tok_at [] = none
tok_at (c ∷ s) = if c == 0 then none else some (split_tok (c ∷ s))

-- `next_tok`
unfoldable pub next_tok : List ℕ → Option (List ℕ × List ℕ)
unfolding skip_blanks tok_at
next_tok line = tok_at (skip_blanks line)

-- What a token is to the chain of tests in lang_repl.
pub data Word : Type 0 where
  bye add sub mul div dup drop swap dot dot_s mem clear words : Word
  number : ℕ → Word
  unknown : List ℕ → Word

abbrev pub spells : List ℕ → List ℕ → Bool
spells tok name = strcmp tok name == 0

unfoldable pub word_of : List ℕ → Word
word_of tok =
    if spells tok (codes "bye") || spells tok (codes "exit")
    then bye
    else if spells tok (codes "+")
    then add
    else if spells tok (codes "-")
    then sub
    else if spells tok (codes "*")
    then mul
    else if spells tok (codes "/")
    then div
    else if spells tok (codes "dup")
    then dup
    else if spells tok (codes "drop")
    then drop
    else if spells tok (codes "swap")
    then swap
    else if spells tok (codes ".")
    then dot
    else if spells tok (codes ".s")
    then dot_s
    else if spells tok (codes "mem")
    then mem
    else if spells tok (codes "clear")
    then clear
    else if spells tok (codes "words")
    then words
    else if is_number tok
    then number (atoi tok)
    else unknown tok

-- What a word does: it goes on with a stack and a printed text, it leaves the loop, or the processor
-- stops it at a division.
pub data Outcome : Type 0 where
  goes_on : Forth → List ℕ → Outcome
  leaves : Outcome
  traps_at : Outcome

-- `if (pop(&b) || pop(&a))`: the operands, the lower one first, and the stack without them.
unfoldable pop_two : Forth → Option (ℕ × ℕ) × Forth
unfolding pop
pop_two f =
    let (b, f1) = pop f in
    let (a, f2) = pop f1 in
    elim b [
      | none ↦ (none, f1)
      | some y ↦ elim a [ none ↦ (none, f2) | some x ↦ (some (x, y), f2) ]
    ]

-- A word with two operands, which pushes its result; it has just popped two, so there is room.
unfoldable pub binary : (ℕ → ℕ → ℕ) → Forth → Outcome
unfolding pop_two push
binary op f =
    let (operands, f') = pop_two f in
    elim operands [
      | none ↦ goes_on f' (codes "stack underflow\n")
      | some (a, b) ↦ goes_on (push f' (op a b)).1 []
    ]

-- Division by 0 puts the operands back.
unfoldable pub divide : Forth → Outcome
unfolding pop_two push
divide f =
    let (operands, f') = pop_two f in
    elim operands [
      | none ↦ goes_on f' (codes "stack underflow\n")
      | some (a, b) ↦
          if b == 0
          then goes_on (push (push f' a).1 b).1 (codes "div by zero\n")
          else if traps a b
          then traps_at
          else goes_on (push f' (div32 a b)).1 []
    ]

-- The values from the bottom on, each followed by a blank, of print_stack.
unfoldable stack_text : Bytes → ℕ → List ℕ
stack_text stack zero = []
stack_text stack (suc n) = stack_text stack n ++ (dec_text (stack n) ++ b' ' ∷ [])

-- `print_stack`
unfoldable print_stack : Forth → List ℕ
unfolding stack_text
print_stack f = b'<' ∷ (dec_text f.sp ++ (codes "> " ++ (stack_text f.stack f.sp ++ b'\n' ∷ [])))

-- The body of the loop of lang_repl, for a given heap_used.
unfoldable pub exec : ℕ → Word → Forth → Outcome
unfolding binary divide pop push print_stack
exec heap bye f = leaves
exec heap add f = binary add32 f
exec heap sub f = binary sub32 f
exec heap mul f = binary mul32 f
exec heap div f = divide f
exec heap dup f =
    let (done, f') = push f (f.stack (f.sp - 1)) in
    if f.sp == 0
    then goes_on f (codes "stack error\n")
    else if done
    then goes_on f' []
    else goes_on f' (codes "stack error\n")
exec heap drop f =
    let (v, f') = pop f in
    elim v [ none ↦ goes_on f' (codes "stack underflow\n") | some x ↦ goes_on f' [] ]
exec heap swap f =
    if ltb f.sp 2
    then goes_on f (codes "stack underflow\n")
    else goes_on
        (record f {
          stack =
              update (update f.stack (f.sp - 1) (f.stack (f.sp - 2))) (f.sp - 2)
                (f.stack (f.sp - 1));
        })
        []
exec heap dot f =
    let (v, f') = pop f in
    elim v [
      | none ↦ goes_on f' (codes "stack underflow\n")
      | some x ↦ goes_on f' (dec_text x ++ b'\n' ∷ [])
    ]
exec heap dot_s f = goes_on f (print_stack f)
exec heap mem f = goes_on f (codes "heap used: " ++ (dec_text heap ++ codes " bytes\n"))
exec heap clear f = goes_on (record f { sp = 0 }) []
exec heap words f = goes_on f (codes "+ - * / dup drop swap . .s mem clear words bye\n")
exec heap (number v) f =
    let (done, f') = push f v in if done then goes_on f' [] else goes_on f' (codes "stack full\n")
exec heap (unknown tok) f = goes_on f (codes "unknown word: " ++ (tok ++ b'\n' ∷ []))

-- The rest of a line, after the text `out` is printed.
unfoldable pub exec_all : ℕ → List Word → Forth → List ℕ → Outcome
exec_all heap [] f out = goes_on f out
exec_all heap (w ∷ ws) f out = elim (exec heap w f) [
  | goes_on f' text ↦ exec_all heap ws f' (out ++ text)
  | leaves ↦ leaves
  | traps_at ↦ traps_at
]

-- The words of a line, with fuel for `n` of them.
unfoldable pub words_of : ℕ → List ℕ → List Word
words_of zero line = []
words_of (suc n) line = elim (next_tok line) [
  | none ↦ []
  | some (tok, rest) ↦ word_of tok ∷ words_of n rest
]

-- A line of lang_repl, as keyboard_readline gives it: at most 95 characters, for the 96 of the array.
-- Each word takes at least a character of it.
unfoldable pub run_line : ℕ → Forth → List ℕ → Outcome
run_line heap f line = exec_all heap (words_of (length line) line) f []
