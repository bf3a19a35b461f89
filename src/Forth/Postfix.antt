-- ===== src/Forth/Postfix.antt =====
-- kernel/lang.c: expressions in postfix notation.
use os_u.Prelude.{
  ℕ, suc, ◌+◌, ◌-◌, ◌^◌, ◌≤◌, ◌<◌, ◌≡◌, ◌≢◌, refl, ap, ◌∙◌, ◌||◌, Option, none, some, List, [], ◌∷◌,
  ◌++◌, arith, length, length-append, ltb, ◌==◌, if◌then◌else◌, add32, sub32, mul32, div32, traps,
  codes,
}
use os_u.Cstring.{strcmp}
use os_u.Vga.{dec_text}
use os_u.Forth.{
  Forth, exec, exec_all, Word, add, sub, mul, div, number, Outcome, goes_on, leaves, traps_at,
  word_of, words_of, run_line,
}
use os_u.Forth.Stack.{contents, left, effect, exec-contents, length-items}
use os_u.Forth.Tokens.{
  IsPlain, words_of-append, words_of-nil, word_of-dec_text, dec_text-IsPlain, dec_text-ne-nil,
}

pub data Operator : Type 0 where
  plus minus times over : Operator

pub data Expr : Type 0 where
  lit : ℕ → Expr
  bin : Operator → Expr → Expr → Expr

-- The value of an operator, if the processor gives one.
abbrev pub apply : Operator → ℕ → ℕ → Option ℕ
apply plus a b = some (add32 a b)
apply minus a b = some (sub32 a b)
apply times a b = some (mul32 a b)
apply over a b = if b == 0 || traps a b then none else some (div32 a b)

abbrev pub apply_to : Operator → Option ℕ → Option ℕ → Option ℕ
apply_to o none v = none
apply_to o (some a) none = none
apply_to o (some a) (some b) = apply o a b

unfoldable pub eval : Expr → Option ℕ
eval (lit n) = some n
eval (bin o l r) = apply_to o (eval l) (eval r)

-- The literals are 32-bit numbers.
abbrev LitsFit : Expr → Type 0
LitsFit (lit n) = n < 2 ^ 32
LitsFit (bin o l r) = LitsFit l × LitsFit r

-- How many places of the stack an expression takes.
unfoldable pub depth : Expr → ℕ
depth (lit n) = 1
depth (bin o l r) = if ltb (depth l) (depth r + 1) then depth r + 1 else depth l

abbrev pub symbol : Operator → List ℕ
symbol plus = codes "+"
symbol minus = codes "-"
symbol times = codes "*"
symbol over = codes "/"

-- An expression in postfix notation, each token with a blank behind it, in front of a text.
unfoldable pub postfix : Expr → List ℕ → List ℕ
postfix (lit n) rest = dec_text n ++ b' ' ∷ rest
postfix (bin o l r) rest = postfix l (postfix r (symbol o ++ b' ' ∷ rest))

word : Operator → Word
word plus = add
word minus = sub
word times = mul
word over = div

-- The words of an expression, in front of others.
code : Expr → List Word → List Word
code (lit n) ws = number n ∷ ws
code (bin o l r) ws = code l (code r (word o ∷ ws))

count : Expr → ℕ
count (lit n) = 1
count (bin o l r) = count l + (count r + 1)

word_of-symbol : (o : Operator) → word_of (symbol o) ≡ word o
unfolding word_of word strcmp
word_of-symbol plus = refl
word_of-symbol minus = refl
word_of-symbol times = refl
word_of-symbol over = refl

words_of-symbol :
    (o : Operator) (n : ℕ) (rest : List ℕ)
    → words_of (suc n) (symbol o ++ b' ' ∷ rest) ≡ word o ∷ words_of n rest
words_of-symbol o n rest =
    words_of-append n (symbol o) rest (symbol-IsPlain o) (symbol-ne-nil o)
    ∙ ap (λ w. w ∷ words_of n rest) (word_of-symbol o)
  where
    symbol-IsPlain : (o : Operator) → IsPlain (symbol o)
    symbol-IsPlain plus = ground arith
    symbol-IsPlain minus = ground arith
    symbol-IsPlain times = ground arith
    symbol-IsPlain over = ground arith

    symbol-ne-nil : (o : Operator) → symbol o ≢ []
    symbol-ne-nil plus = cc
    symbol-ne-nil minus = cc
    symbol-ne-nil times = cc
    symbol-ne-nil over = cc

words_of-lit :
    (v n : ℕ) (rest : List ℕ)
    → v < 2 ^ 32
    → words_of (suc n) (dec_text v ++ b' ' ∷ rest) ≡ number v ∷ words_of n rest
words_of-lit v n rest h =
    words_of-append n (dec_text v) rest (dec_text-IsPlain v) (dec_text-ne-nil v)
    ∙ ap (λ w. w ∷ words_of n rest) (word_of-dec_text v h)

-- The text of an expression is split into its words.
words_of-postfix :
    (e : Expr) (n m : ℕ) (rest : List ℕ)
    → LitsFit e
    → n ≡ count e + m
    → words_of n (postfix e rest) ≡ code e (words_of m rest)
unfolding postfix code count
words_of-postfix (lit v) n m rest f q =
    let q' : n ≡ suc m = omega (arith, q) in rw q' (words_of-lit v m rest f)
words_of-postfix (bin o l r) n m rest f q =
    words_of-postfix l n (count r + (m + 1)) _ f.0 (omega (arith, q))
    ∙ ap (code l) (
        words_of-postfix r (count r + (m + 1)) (suc m) _ f.1 (omega arith)
        ∙ ap (code r) (words_of-symbol o m rest))

length-postfix : (e : Expr) (rest : List ℕ) → count e + length rest ≤ length (postfix e rest)
unfolding postfix count
length-postfix (lit v) rest = omega (arith, length-append (dec_text v) (b' ' ∷ rest))
length-postfix (bin o l r) rest = omega (
  arith,
  length-postfix l (postfix r (symbol o ++ b' ' ∷ rest)),
  length-postfix r (symbol o ++ b' ' ∷ rest),
  length-append (symbol o) (b' ' ∷ rest),
)

Outcome-left :
    (o : Outcome) (l : List ℕ)
    → left o ≡ some l
    → (f : Forth) × (text : List ℕ) × (o ≡ goes_on f text) × (contents f ≡ l)
Outcome-left (goes_on f text) l h = (f, text, refl, cc)
Outcome-left leaves l h = cc
Outcome-left traps_at l h = cc

sp_lem : (f : Forth) → length (contents f) ≡ f.sp
sp_lem f = length-items f.stack f.sp

-- One word.
step :
    (heap : ℕ) (w : Word) (ws : List Word) (f : Forth) (out l : List ℕ)
    → f.sp ≤ 128
    → effect w (contents f) ≡ some l
    → (f' : Forth) × (out' : List ℕ) × (exec_all heap (w ∷ ws) f out ≡ exec_all heap ws f' out')
      × (contents f' ≡ l)
unfolding exec_all
step heap w ws f out l h q =
    let (f', text, run, c) = Outcome-left (exec heap w f) l (exec-contents heap w f h ∙ q) in
    (f', out ++ text, rw (run, exec_all), c)

apply_to-some :
    (o : Operator) (x y : Option ℕ) (v : ℕ)
    → apply_to o x y ≡ some v
    → (a : ℕ) × (b : ℕ) × (x ≡ some a) × (y ≡ some b) × (apply o a b ≡ some v)
apply_to-some o none y v h = cc
apply_to-some o (some a) none v h = cc
apply_to-some o (some a) (some b) v h = (a, b, refl, refl, h)

effect-word :
    (o : Operator) (a b v : ℕ) (l : List ℕ)
    → apply o a b ≡ some v
    → effect (word o) (b ∷ a ∷ l) ≡ some (v ∷ l)
unfolding word
effect-word plus a b v l h = ground arith
effect-word minus a b v l h = ground arith
effect-word times a b v l h = ground arith
effect-word over a b v l h = ground arith

sp-cons : (f g : Forth) (v : ℕ) → contents g ≡ v ∷ contents f → g.sp ≡ f.sp + 1
sp-cons f g v c = omega (arith, sp_lem f, sp_lem g, ap (length {0}) c)

depth-bin :
    (o : Operator) (l r : Expr) (n : ℕ)
    → n + depth (bin o l r) ≤ 128
    → (n + depth l ≤ 128) × (n + 1 + depth r ≤ 128)
unfolding depth
depth-bin o l r n h = ground arith

depth_pos : (e : Expr) → 0 < depth e
unfolding depth
depth_pos (lit n) = omega arith
depth_pos (bin o l r) = ground (arith, depth_pos l)

-- The words of an expression leave its value on the stack, whatever comes after them.
run-code :
    (heap : ℕ) (e : Expr) (ws : List Word) (f : Forth) (out : List ℕ) (v : ℕ)
    → eval e ≡ some v
    → f.sp + depth e ≤ 128
    → (f' : Forth) × (out' : List ℕ) × (exec_all heap (code e ws) f out ≡ exec_all heap ws f' out')
      × (contents f' ≡ v ∷ contents f)
unfolding eval depth code
run-code heap (lit n) ws f out v h d =
    step heap (number n) ws f out (v ∷ contents f) (omega arith) (ground (arith, sp_lem f))
run-code heap (bin o l r) ws f out v h d =
    let (a, b, p, q, s) = apply_to-some o (eval l) (eval r) v h in
    let (dl, dr) = depth-bin o l r f.sp d in
    let (f1, out1, run1, c1) = run-code heap l (code r (word o ∷ ws)) f out a p dl in
    let d1 : f1.sp + depth r ≤ 128 = omega (arith, sp-cons f f1 a c1, dr) in
    let (f2, out2, run2, c2) = run-code heap r (word o ∷ ws) f1 out1 b q d1 in
    let (f3, out3, run3, c3) =
      step heap (word o) ws f2 out2 (v ∷ contents f)
        (omega (arith, sp-cons f1 f2 b c2, d1, depth_pos r))
        (ap (effect (word o)) (c2 ∙ ap (λ t. b ∷ t) c1) ∙ effect-word o a b v (contents f) s) in
    (f3, out3, run1 ∙ run2 ∙ run3, c3)

-- A line that was read, whatever its length, with an expression in postfix notation, of 32-bit literals
-- and with a value, leaves the value on top of what was on the stack, if the stack has room for the
-- expression's depth.
pub run_line-postfix :
    (heap : ℕ) (e : Expr) (f : Forth) (v : ℕ)
    → LitsFit e
    → eval e ≡ some v
    → f.sp + depth e ≤ 128
    → left (run_line heap f (postfix e [])) ≡ some (v ∷ contents f)
unfolding run_line exec_all
run_line-postfix heap e f v fits h d =
    let m = length (postfix e []) - count e in
    let w =
      words_of-postfix e (length (postfix e [])) m [] fits (omega (arith, length-postfix e [])) in
    let (f', out', run, c) = run-code heap e [] f [] v h d in
    rw (w, words_of-nil m, run) (finish f' out' (v ∷ contents f) c)
  where
    finish : (f' : Forth) (out l : List ℕ) → contents f' ≡ l → left (goes_on f' out) ≡ some l
    finish f' out l c = cc
