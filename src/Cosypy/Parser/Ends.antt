-- ===== src/Cosypy/Parser/Ends.antt =====
-- kernel/cospy.c: the expression parser comes to an end.
use os_u.Prelude.{
  ℕ, zero, suc, ◌+◌, ◌≤◌, ◌≡◌, inl, inr, refl, Bool, true, false, ◌==◌, arith, Bool-cases, traps,
}
use os_u.Cosypy.Lexer.{Token, eof, star, slash, is}
use os_u.Cosypy.State.{Cosypy, M, traps_at}
use os_u.Cosypy.Parser.{
  parse_primary, operators, level, is_term, apply_term, parse_term, is_additive, apply_additive,
  parse_additive, is_comparison, apply_comparison, parse_comparison, is_and, apply_and, parse_and,
  is_or, apply_or, parse_or, parse_expr, size, parse,
}
use os_u.Cosypy.Parser.Primary.{
  Ends, Ends-bind, Ends-weaken, Bounded, next, size-next, parse_primary-Bounded, ends, halts,
}

-- No test for an operator accepts the end.
abbrev NotAtEnd : (Token → Bool) → Type 0
NotAtEnd is_op = (t : Token) → is_op t ≡ true → is t eof ≡ false

-- What is computed from two operands reads nothing.
abbrev Applies : (Token → ℕ → ℕ → M ℕ) → Type 0
Applies apply = (t : Token) (a b n : ℕ) → Bounded n (apply t a b)

operators-Bounded :
    (is_op : Token → Bool) (apply : Token → ℕ → ℕ → M ℕ) (operand : M ℕ) (m n left : ℕ)
    → NotAtEnd is_op
    → Applies apply
    → Bounded m operand
    → n ≤ m
    → Bounded n (operators is_op apply operand n left)
unfolding operators
operators-Bounded is_op apply operand m zero left t a b l s h = absurd (omega arith)
operators-Bounded is_op apply operand m (suc n) left t a b l s h =
    elim (Bool-cases (is_op s.token)) [
      | inl e ↦
          let g = size-next s (t s.token e) in
          rw (e, operators)
            (Ends-weaken
              (Ends-bind _ (b (next s) (omega (arith, g, l))) λ right s1 h1.
                Ends-bind _ (Ends-weaken (a s.token left right (suc (size s1)) s1 (omega arith)) h1)
                  λ v s2 h2.
                    Ends-weaken
                      (operators-Bounded is_op apply operand m n v t a b (omega (arith, l)) s2
                        (omega (arith, g, h2)))
                      h2)
              (omega (arith, g)))
      | inr e ↦ rw (e, operators) (ends left s (omega arith))
    ]

level-Bounded :
    (is_op : Token → Bool) (apply : Token → ℕ → ℕ → M ℕ) (operand : M ℕ) (n : ℕ)
    → NotAtEnd is_op
    → Applies apply
    → Bounded n operand
    → Bounded n (level is_op apply operand n)
level-Bounded is_op apply operand n t a b s h = Ends-bind _ (b s h) λ left s1 h1.
    Ends-weaken
      (operators-Bounded is_op apply operand n n left t a b (omega arith) s1 (omega (arith, h1))) h1

apply_term-Applies : Applies apply_term
unfolding apply_term
apply_term-Applies t a b n s h = elim (Bool-cases (is t star)) [
  | inl e ↦ rw (e, apply_term) (ends _ s (omega arith))
  | inr e ↦ elim (Bool-cases (is t slash)) [
    | inl f ↦ elim (Bool-cases (b == 0)) [
      | inl z ↦ rw (e, f, z, apply_term) (ends _ _ (omega arith))
      | inr z ↦ elim (Bool-cases (traps a b)) [
        | inl q ↦ rw (e, f, z, q, apply_term) (halts traps_at (inr refl))
        | inr q ↦ rw (e, f, z, q, apply_term) (ends _ s (omega arith))
      ]
    ]
    | inr f ↦ elim (Bool-cases (b == 0)) [
      | inl z ↦ rw (e, f, z, apply_term) (ends _ s (omega arith))
      | inr z ↦ elim (Bool-cases (traps a b)) [
        | inl q ↦ rw (e, f, z, q, apply_term) (halts traps_at (inr refl))
        | inr q ↦ rw (e, f, z, q, apply_term) (ends _ s (omega arith))
      ]
    ]
  ]
]

module _ (self : M ℕ) (n : ℕ) (b : Bounded n self) where
  parse_term-Bounded : Bounded (suc n) (parse_term self (suc n))
  unfolding parse_term
  parse_term-Bounded =
      level-Bounded is_term apply_term (parse_primary self (suc n)) (suc n) (λ t h. ground arith)
        apply_term-Applies (parse_primary-Bounded self n (suc n) b (omega arith))

  parse_additive-Bounded : Bounded (suc n) (parse_additive self (suc n))
  unfolding parse_additive
  parse_additive-Bounded =
      level-Bounded is_additive apply_additive (parse_term self (suc n)) (suc n)
        (λ t h. ground arith) (λ t x y m s h. ends _ s (omega arith)) parse_term-Bounded

  parse_comparison-Bounded : Bounded (suc n) (parse_comparison self (suc n))
  unfolding parse_comparison
  parse_comparison-Bounded =
      level-Bounded is_comparison apply_comparison (parse_additive self (suc n)) (suc n)
        (λ t h. ground arith) (λ t x y m s h. ends _ s (omega arith)) parse_additive-Bounded

  parse_and-Bounded : Bounded (suc n) (parse_and self (suc n))
  unfolding parse_and
  parse_and-Bounded =
      level-Bounded is_and apply_and (parse_comparison self (suc n)) (suc n) (λ t h. ground arith)
        (λ t x y m s h. ends _ s (omega arith)) parse_comparison-Bounded

  parse_or-Bounded : Bounded (suc n) (parse_or self (suc n))
  unfolding parse_or
  parse_or-Bounded =
      level-Bounded is_or apply_or (parse_and self (suc n)) (suc n) (λ t h. ground arith)
        (λ t x y m s h. ends _ s (omega arith)) parse_and-Bounded

parse_expr-Bounded : (n : ℕ) → Bounded n (parse_expr n)
unfolding parse_expr
parse_expr-Bounded zero s h = absurd (omega arith)
parse_expr-Bounded (suc n) s h = parse_or-Bounded (parse_expr n) n (parse_expr-Bounded n) s h

-- On every text the expression parser comes to an end within the fuel it is given, one more than the
-- characters and the token that are left, and it leaves no more than these; it can stop before only
-- to wait for a key, or at a division that the processor refuses.
pub parse_total : (s : Cosypy) → Ends (size s) (parse s)
unfolding parse
parse_total s = parse_expr-Bounded (size s + 1) s (omega arith)
