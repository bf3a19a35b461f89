-- ===== src/Vga/Printf.antt =====
-- kernel/vga.c: hexadecimal numbers and vga_printf.
pub mod Laws
use os_u.Prelude.{
  ℕ, zero, suc, ◌+◌, ◌-◌, ◌*◌, ◌/◌, ◌%◌, ◌^◌, Bool, true, false, Option, none, some, List, [], ◌∷◌,
  is_neg, neg32, get_or, ltb, ◌==◌, if◌then◌else◌, codes,
}
use os_u.Vga.{Vga, vga_putc, vga_puts, vga_print_dec}

-- `hex[nibble]` for the nibble at the place `i`.
abbrev pub hex_digit : ℕ → ℕ → ℕ
hex_digit value i = get_or (codes "0123456789ABCDEF") (value / 2 ^ (i * 4) % 16) 0

-- The loop of vga_print_hex with `n` digits left.
unfoldable pub hex_loop : ℕ → ℕ → Vga → Vga
unfolding vga_putc
hex_loop zero value v = v
hex_loop (suc n) value v = hex_loop n value (vga_putc v (hex_digit value n))

-- `vga_print_hex`
unfoldable pub vga_print_hex : Vga → ℕ → Vga
unfolding hex_loop vga_puts
vga_print_hex v value = hex_loop 8 value (vga_puts v (codes "0x"))

-- An argument of vga_printf: 32 bits, or a string, `none` for a null pointer.
pub data Arg : Type 0 where
  word : ℕ → Arg
  text : Option (List ℕ) → Arg

-- The string that `%s` prints.
abbrev pub string_of : Option (List ℕ) → List ℕ
string_of none = codes "(null)"
string_of (some s) = s

abbrev pub print_int : Vga → ℕ → Vga
print_int v n = if is_neg n then vga_print_dec (vga_putc v b'-') (neg32 n) else vga_print_dec v n

-- A conversion that takes a word, or a string, from the arguments; `none` where there is no such argument.
abbrev pub with_word : (ℕ → Vga) → List Arg → Option (Vga × List Arg)
with_word print [] = none
with_word print (word n ∷ args) = some (print n, args)
with_word print (text s ∷ args) = none

abbrev pub with_text : (List ℕ → Vga) → List Arg → Option (Vga × List Arg)
with_text print [] = none
with_text print (word n ∷ args) = none
with_text print (text s ∷ args) = some (print (string_of s), args)

-- What follows a `%`: the conversion `f`.
unfoldable pub convert : Vga → ℕ → List Arg → Option (Vga × List Arg)
unfolding vga_print_hex
convert v f args =
    if f == b'%'
    then some (vga_putc v b'%', args)
    else if f == b's'
    then with_text (λ s. vga_puts v s) args
    else if f == b'c'
    then with_word (λ n. vga_putc v (n % 256)) args
    else if f == b'd'
    then with_word (λ n. print_int v n) args
    else if f == b'u'
    then with_word (λ n. vga_print_dec v n) args
    else if f == b'x'
    then with_word (λ n. vga_print_hex v n) args
    else some (vga_putc (vga_putc v b'%') f, args)

abbrev pub and_then : Option (Vga × List Arg) → (Vga → List Arg → Option Vga) → Option Vga
and_then none k = none
and_then (some (v, args)) k = k v args

-- `vga_printf`: `none` where an argument is missing or a `%` is the last character, when it reads on past the end
-- of the format.
unfoldable pub vga_printf : Vga → List ℕ → List Arg → Option Vga
unfolding convert
vga_printf v [] args = some v
vga_printf v (c ∷ []) args =
    if c == 0 then some v else if c == b'%' then none else some (vga_putc v c)
vga_printf v (c ∷ f ∷ fmt) args =
    let plain = vga_printf (vga_putc v c) (f ∷ fmt) args in
    let converted = and_then (convert v f args) (λ v args. vga_printf v fmt args) in
    if c == 0 then some v else if c == b'%' then (if f == 0 then none else converted) else plain
