-- ===== src/Cosypy/Parser/Primary.antt =====
-- kernel/cospy.c: runs within their fuel, and the innermost level of the expression parser.
use os_u.Prelude.{
  ℕ, zero, suc, ◌≤◌, ◌<◌, ◌≡◌, ◌⊎◌, inl, inr, refl, false, ◌||◌, List, ◌==◌, arith, if◌then◌else◌,
  Bool-cases, Option-cases, codes, neg32,
}
use os_u.Cstring.{strcmp, strlen}
use os_u.Keyboard.Line.{keyboard_readline}
use os_u.Cosypy.Lexer
use os_u.Cosypy.Lexer.{
  Token, eof, num, str, ident, plus, minus, star, slash, percent, eq, eqeq, ne, lt, gt, le, ge,
  lparen, rparen, colon, comma, is, next_token,
}
use os_u.Cosypy.Lexer.Progress.{next_token-Within}
use os_u.Cosypy.State.{
  Cosypy, M, Run, Halt, ok, stop, waits, traps_at, bind, ◌>>=◌, ◌>>◌, pure, advance, read_input,
}
use os_u.Cosypy.Parser.{
  accept_rparen, skip_args, parse_call, parse_name, primary_of, parse_primary, size, not32,
}

-- A run that ends within its fuel and leaves at most `n` to be read, or stops to wait for a key or at a
-- division that the processor refuses.
pub data Ends {A : Type 0} (n : ℕ) : Run (A × Cosypy) → Type 0 where
  ends : (a : A) (s : Cosypy) → size s ≤ n → Ends n (ok (a, s))
  halts : (h : Halt) → (h ≡ waits) ⊎ (h ≡ traps_at) → Ends n (stop h)

pub Ends-bind :
    {A B : Type 0} {n m : ℕ} {r : Run (A × Cosypy)} (f : A → M B)
    → Ends n r
    → ((a : A) (s : Cosypy) → size s ≤ n → Ends m (f a s))
    → Ends m (bind r f)
Ends-bind f (ends a s h) k = k a s h
Ends-bind f (halts h x) k = halts h x

pub Ends-weaken : {A : Type 0} {n m : ℕ} {r : Run (A × Cosypy)} → Ends n r → n ≤ m → Ends m r
Ends-weaken (ends a s h) l = ends a s (omega arith)
Ends-weaken (halts h x) l = halts h x

-- On less than `n` to be read, a program keeps within its fuel and reads nothing back.
abbrev pub Bounded : {A : Type 0} → ℕ → M A → Type 0
Bounded n p = (s : Cosypy) → size s < n → Ends (size s) (p s)

-- The state after next_token.
abbrev pub next : Cosypy → Cosypy
next s = record s { cursor = (next_token s.cursor).1; token = (next_token s.cursor).0 }

pub size-next : (s : Cosypy) → is s.token eof ≡ false → size (next s) < size s
size-next s h = rw h (omega (arith, next_token-Within s.cursor))

accept_rparen-Ends : (s : Cosypy) → Ends (size s) (accept_rparen s)
accept_rparen-Ends s = elim (Bool-cases (is s.token rparen)) [
  | inl e ↦ rw e (ends tt (next s) (omega (arith, size-next s (ground arith))))
  | inr e ↦ rw e (ends tt s (omega arith))
]

skip_args-Bounded : (n : ℕ) → Bounded n (skip_args n)
unfolding skip_args
skip_args-Bounded zero s h = absurd (omega arith)
skip_args-Bounded (suc n) s h = elim (Bool-cases (is s.token rparen || is s.token eof)) [
  | inl e ↦ rw (e, skip_args) (ends tt s (omega arith))
  | inr e ↦
      let l = size-next s (ground arith) in
      rw (e, skip_args)
        (Ends-weaken (skip_args-Bounded n (next s) (omega (arith, l))) (omega (arith, l)))
]

read_input-Ends : (s : Cosypy) → Ends (size s) (read_input s)
unfolding read_input
read_input-Ends s = elim (Option-cases (keyboard_readline (λ i. 0) 64 s.keys)) [
  | inl e ↦ rw (e, read_input) (halts waits (inl refl))
  | inr (p, e) ↦ rw (e, read_input) (ends _ _ (omega arith))
]

-- A call, at its left parenthesis.
parse_call-Ends :
    (n : ℕ) (name : List ℕ) (s : Cosypy)
    → is s.token eof ≡ false
    → size s < n
    → Ends (size s) (parse_call n name s)
unfolding parse_call
parse_call-Ends n name s t h =
    let l = size-next s t in
    Ends-weaken
      (Ends-bind _ (skip_args-Bounded n (next s) (omega (arith, l))) λ _ s1 h1.
        Ends-bind _ (Ends-weaken (accept_rparen-Ends s1) h1) λ _ s2 h2. input_or_zero s2 h2)
      (omega (arith, l))
  where
    input_or_zero :
        (s2 : Cosypy)
        → size s2 ≤ size (next s)
        → Ends
            (size (next s))
            ((if strcmp name (codes "input") == 0 then read_input else pure 0) s2)
    input_or_zero s2 h2 = elim (Bool-cases (strcmp name (codes "input") == 0)) [
      | inl e ↦ rw e (Ends-weaken (read_input-Ends s2) h2)
      | inr e ↦ rw e (ends 0 s2 h2)
    ]

parse_name-Bounded : (n : ℕ) (name : List ℕ) → Bounded n (parse_name n name)
unfolding parse_name
parse_name-Bounded n name s h = elim (Bool-cases (is s.token lparen)) [
  | inl e ↦ rw (e, parse_name) (parse_call-Ends n name s (ground arith) h)
  | inr e ↦ rw (e, parse_name) (ends _ s (omega arith))
]

-- After a token: the next one, and a program on what is left.
after-Ends :
    {A : Type 0} (s : Cosypy) (n : ℕ) (k : M A)
    → is s.token eof ≡ false
    → size s < suc n
    → Bounded n k
    → Ends (size s) ((advance >> k) s)
after-Ends s n k t h b =
    let l = size-next s t in Ends-weaken (b (next s) (omega (arith, l))) (omega (arith, l))

then_pure-Bounded : (n : ℕ) (p : M ℕ) (f : ℕ → ℕ) → Bounded n p → Bounded n (do v ← p; pure (f v))
then_pure-Bounded n p f b s h = Ends-bind _ (b s h) λ v s1 h1. ends (f v) s1 h1

paren-Bounded : (n : ℕ) (p : M ℕ) → Bounded n p → Bounded n (do v ← p; accept_rparen; pure v)
paren-Bounded n p b s h =
    Ends-bind _ (b s h)
      λ v s1 h1. Ends-bind _ (Ends-weaken (accept_rparen-Ends s1) h1) λ _ s2 h2. ends v s2 h2

pure-Bounded : {A : Type 0} (n : ℕ) (a : A) → Bounded n (pure a)
pure-Bounded n a s h = ends a s (omega arith)

primary_of-Ends :
    (n : ℕ) (self again : M ℕ) (s : Cosypy) (t : Token)
    → Bounded n self
    → Bounded n again
    → s.token ≡ t
    → size s < suc n
    → Ends (size s) (primary_of self again n t s)
unfolding primary_of
primary_of-Ends n self again s (num v) b c e h = after-Ends s n (pure v) (rw e) h (pure-Bounded n v)
primary_of-Ends n self again s (str t) b c e h =
    after-Ends s n (pure (strlen t)) (rw e) h (pure-Bounded n (strlen t))
primary_of-Ends n self again s (ident x) b c e h =
    after-Ends s n (parse_name n x) (rw e) h (parse_name-Bounded n x)
primary_of-Ends n self again s lparen b c e h =
    after-Ends s n (do v ← self; accept_rparen; pure v) (rw e) h (paren-Bounded n self b)
primary_of-Ends n self again s minus b c e h =
    after-Ends s n (do v ← again; pure (neg32 v)) (rw e) h (then_pure-Bounded n again neg32 c)
primary_of-Ends n self again s Lexer.not b c e h =
    after-Ends s n (do v ← again; pure (not32 v)) (rw e) h (then_pure-Bounded n again not32 c)
primary_of-Ends n self again s t b c e h = ends 0 s (omega arith)

Bounded-weaken : {A : Type 0} {n m : ℕ} (p : M A) → n ≤ m → Bounded m p → Bounded n p
Bounded-weaken p l b s h = b s (omega (arith, h, l))

pub parse_primary-Bounded :
    (self : M ℕ) (b n : ℕ) → Bounded b self → n ≤ suc b → Bounded n (parse_primary self n)
unfolding parse_primary
parse_primary-Bounded self b zero c l s h = absurd (omega arith)
parse_primary-Bounded self b (suc n) c l s h =
    primary_of-Ends n self (parse_primary self n) s s.token
      (Bounded-weaken self (omega (arith, l)) c)
      (parse_primary-Bounded self b n c (omega (arith, l))) refl h
