-- ===== src/Vga/Printf/Laws.antt =====
-- kernel/vga.c: vga_printf prints the text that the format and the arguments make.
use os_u.Prelude.{
  ℕ, zero, suc, ◌%◌, ◌≡◌, inl, inr, refl, sym, ◌∙◌, ap, Bool-cases, Option, none, some, List, [],
  ◌∷◌, ◌++◌, is_neg, neg32, ◌==◌, if◌then◌else◌, codes,
}
use os_u.Vga.{Vga, vga_putc, vga_puts, dec_text, vga_print_dec}
use os_u.Vga.Printf.{
  Arg, word, text, hex_digit, hex_loop, vga_print_hex, string_of, print_int, with_word, with_text,
  convert, and_then, vga_printf,
}

-- All characters of a text, a NUL as any other.
unfoldable pub put_all : Vga → List ℕ → Vga
put_all v [] = v
put_all v (c ∷ s) = put_all (vga_putc v c) s

put_all-append : (v : Vga) (s t : List ℕ) → put_all v (s ++ t) ≡ put_all (put_all v s) t
unfolding put_all
put_all-append v [] t = refl
put_all-append v (c ∷ s) t = put_all-append (vga_putc v c) s t

-- The characters of a C string up to its end.
unfoldable pub cstring : List ℕ → List ℕ
cstring [] = []
cstring (c ∷ s) = let rest = cstring s in if c == 0 then [] else c ∷ rest

vga_puts_lem : (v : Vga) (s : List ℕ) → vga_puts v s ≡ put_all v (cstring s)
unfolding vga_puts cstring put_all
vga_puts_lem v [] = refl
vga_puts_lem v (c ∷ s) = elim (Bool-cases (c == 0)) [
  | inl e ↦ rw e refl
  | inr e ↦ rw e (vga_puts_lem (vga_putc v c) s)
]

-- The texts of numbers.
abbrev hex_text : ℕ → ℕ → List ℕ
hex_text zero value = []
hex_text (suc n) value = hex_digit value n ∷ hex_text n value

abbrev pub int_text : ℕ → List ℕ
int_text n = if is_neg n then b'-' ∷ cstring (dec_text (neg32 n)) else cstring (dec_text n)

hex_loop_lem : (n value : ℕ) (v : Vga) → hex_loop n value v ≡ put_all v (hex_text n value)
unfolding hex_loop put_all
hex_loop_lem zero value v = refl
hex_loop_lem (suc n) value v = hex_loop_lem n value (vga_putc v (hex_digit value n))

print_int_lem : (v : Vga) (n : ℕ) → print_int v n ≡ put_all v (int_text n)
unfolding vga_print_dec put_all
print_int_lem v n = elim (Bool-cases (is_neg n)) [
  | inl e ↦ rw e (vga_puts_lem (vga_putc v b'-') (dec_text (neg32 n)))
  | inr e ↦ rw e (vga_puts_lem v (dec_text n))
]

-- The text of a conversion, with the arguments left.
abbrev Made : Type 0
Made = Option (List ℕ × List Arg)

abbrev word_text : (ℕ → List ℕ) → List Arg → Made
word_text f [] = none
word_text f (word n ∷ args) = some (f n, args)
word_text f (text s ∷ args) = none

abbrev string_text : List Arg → Made
string_text [] = none
string_text (word n ∷ args) = none
string_text (text s ∷ args) = some (cstring (string_of s), args)

unfoldable convert_text : ℕ → List Arg → Made
convert_text f args =
    if f == b'%'
    then some (b'%' ∷ [], args)
    else if f == b's'
    then string_text args
    else if f == b'c'
    then word_text (λ n. n % 256 ∷ []) args
    else if f == b'd'
    then word_text int_text args
    else if f == b'u'
    then word_text (λ n. cstring (dec_text n)) args
    else if f == b'x'
    then word_text (λ n. b'0' ∷ b'x' ∷ hex_text 8 n) args
    else some (b'%' ∷ f ∷ [], args)

-- The text is printed.
abbrev printed : Vga → Made → Option (Vga × List Arg)
printed v none = none
printed v (some (t, args)) = some (put_all v t, args)

with_word_lem :
    (v : Vga) (print : ℕ → Vga) (f : ℕ → List ℕ) (args : List Arg)
    → ((n : ℕ) → print n ≡ put_all v (f n))
    → with_word print args ≡ printed v (word_text f args)
with_word_lem v print f [] h = refl
with_word_lem v print f (word n ∷ args) h = ap (λ u. some (u, args)) (h n)
with_word_lem v print f (text s ∷ args) h = refl

with_text_lem :
    (v : Vga) (args : List Arg) → with_text (λ s. vga_puts v s) args ≡ printed v (string_text args)
with_text_lem v [] = refl
with_text_lem v (word n ∷ args) = refl
with_text_lem v (text s ∷ args) = ap (λ u. some (u, args)) (vga_puts_lem v (string_of s))

print_hex_lem : (v : Vga) (n : ℕ) → vga_print_hex v n ≡ put_all v (b'0' ∷ b'x' ∷ hex_text 8 n)
unfolding vga_print_hex vga_puts put_all
print_hex_lem v n = hex_loop_lem 8 n (vga_puts v (codes "0x"))

convert_lem :
    (v : Vga) (f : ℕ) (args : List Arg) → convert v f args ≡ printed v (convert_text f args)
unfolding convert convert_text put_all vga_print_dec
convert_lem v f args =
    let string = with_text_lem v args in
    let char = with_word_lem v (λ n. vga_putc v (n % 256)) (λ n. n % 256 ∷ []) args (λ n. refl) in
    let int = with_word_lem v (λ n. print_int v n) int_text args (λ n. print_int_lem v n) in
    let dec =
      with_word_lem v (λ n. vga_print_dec v n) (λ n. cstring (dec_text n)) args
        (λ n. vga_puts_lem v (dec_text n)) in
    let hex =
      with_word_lem v (λ n. vga_print_hex v n) (λ n. b'0' ∷ b'x' ∷ hex_text 8 n) args
        (λ n. print_hex_lem v n) in
    elim (Bool-cases (f == b'%')) [
      | inl e ↦ rw e refl
      | inr e ↦ elim (Bool-cases (f == b's')) [
        | inl e' ↦ rw (e, e') string
        | inr e' ↦ elim (Bool-cases (f == b'c')) [
          | inl e'' ↦ rw (e, e', e'') char
          | inr e'' ↦ elim (Bool-cases (f == b'd')) [
            | inl d ↦ rw (e, e', e'', d) int
            | inr d ↦ elim (Bool-cases (f == b'u')) [
              | inl d' ↦ rw (e, e', e'', d, d') dec
              | inr d' ↦ elim (Bool-cases (f == b'x')) [
                | inl d'' ↦ rw (e, e', e'', d, d', d'') hex
                | inr d'' ↦ rw (e, e', e'', d, d', d'') refl
              ]
            ]
          ]
        ]
      ]
    ]

-- The text that a format and its arguments make, if the arguments are there and no `%` ends it.
abbrev then_text : Made → (List Arg → Option (List ℕ)) → Option (List ℕ)
then_text none k = none
then_text (some (t, args)) k = elim (k args) [ none ↦ none | some rest ↦ some (t ++ rest) ]

abbrev after_char : ℕ → Option (List ℕ) → Option (List ℕ)
after_char c none = none
after_char c (some rest) = some (c ∷ rest)

unfoldable pub format_text : List ℕ → List Arg → Option (List ℕ)
unfolding convert_text
format_text [] args = some []
format_text (c ∷ []) args = if c == 0 then some [] else if c == b'%' then none else some (c ∷ [])
format_text (c ∷ f ∷ fmt) args =
    let plain = after_char c (format_text (f ∷ fmt) args) in
    let converted = then_text (convert_text f args) (λ args. format_text fmt args) in
    if c == 0 then some [] else if c == b'%' then (if f == 0 then none else converted) else plain

-- The text on the screen, if there is one.
abbrev pub shown : Vga → Option (List ℕ) → Option Vga
shown v none = none
shown v (some t) = some (put_all v t)

shown-then_text :
    (v : Vga) (m : Made) (k : Vga → List Arg → Option Vga) (t : List Arg → Option (List ℕ))
    → ((u : Vga) (args : List Arg) → k u args ≡ shown u (t args))
    → and_then (printed v m) k ≡ shown v (then_text m t)
shown-then_text v none k t h = refl
shown-then_text v (some (s, args)) k t h = h (put_all v s) args ∙ joined (t args)
  where
    joined :
        (o : Option (List ℕ))
        → shown (put_all v s) o ≡ shown v (elim o [ none ↦ none | some rest ↦ some (s ++ rest) ])
    joined none = refl
    joined (some rest) = ap some (sym (put_all-append v s rest))

shown-after_char :
    (v : Vga) (c : ℕ) (o : Option (List ℕ)) → shown (vga_putc v c) o ≡ shown v (after_char c o)
unfolding put_all
shown-after_char v c none = refl
shown-after_char v c (some rest) = refl

-- vga_printf puts on the screen the text that the format and the arguments make, character by character, and
-- fails exactly where there is no such text.
pub vga_printf_lem :
    (v : Vga) (fmt : List ℕ) (args : List Arg)
    → vga_printf v fmt args ≡ shown v (format_text fmt args)
unfolding vga_printf format_text put_all
vga_printf_lem v [] args = refl
vga_printf_lem v (c ∷ []) args = elim (Bool-cases (c == 0)) [
  | inl e ↦ rw e refl
  | inr e ↦ elim (Bool-cases (c == b'%')) [ inl d ↦ rw (e, d) refl | inr d ↦ rw (e, d) refl ]
]
vga_printf_lem v (c ∷ f ∷ fmt) args =
    let plain =
      vga_printf_lem (vga_putc v c) (f ∷ fmt) args
      ∙ shown-after_char v c (format_text (f ∷ fmt) args) in
    let converted =
      ap (λ m. and_then m (λ v args. vga_printf v fmt args)) (convert_lem v f args)
      ∙ shown-then_text v (convert_text f args) (λ v args. vga_printf v fmt args)
          (λ args. format_text fmt args) (λ u args. vga_printf_lem u fmt args) in
    elim (Bool-cases (c == 0)) [
      | inl e ↦ rw e refl
      | inr e ↦ elim (Bool-cases (c == b'%')) [
        | inl d ↦ elim (Bool-cases (f == 0)) [
          | inl z ↦ rw (e, d, z) refl
          | inr z ↦ rw (e, d, z) converted
        ]
        | inr d ↦ rw (e, d) plain
      ]
    ]
