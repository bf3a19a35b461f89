-- ===== src/Cstring.antt =====
-- kernel/string.c: the functions on strings. A C string is the list of its characters, each a byte;
-- it ends at the first NUL, or at the end of the list.
pub mod Compare
use os_u.Prelude.{
  ℕ, zero, suc, ◌+◌, ◌-◌, ◌*◌, ◌%◌, ◌^◌, Bool, true, false, ◌&&◌, ◌||◌, not, List, [], ◌∷◌, Bytes,
  get_or, leb, ◌==◌, if◌then◌else◌,
}

-- `strlen`
unfoldable pub strlen : List ℕ → ℕ
strlen [] = 0
strlen (c ∷ s) = if c == 0 then 0 else suc (strlen s)

-- A list laid out as an array, with zeros behind it.
abbrev pub of_list : List ℕ → Bytes
of_list l = λ i. get_or l i 0

-- `x - y` for two bytes, as the 32 bits of an int.
abbrev pub byte_diff : ℕ → ℕ → ℕ
byte_diff x y = (x + 2 ^ 32 - y) % 2 ^ 32

-- `strcmp`: 0 for equal strings.
unfoldable pub strcmp : List ℕ → List ℕ → ℕ
strcmp [] [] = 0
strcmp [] (b ∷ t) = byte_diff 0 b
strcmp (a ∷ s) [] = byte_diff a 0
strcmp (a ∷ s) (b ∷ t) =
    let rest = strcmp s t in if not (a == 0) && a == b then rest else byte_diff a b

-- `strncmp`
unfoldable pub strncmp : List ℕ → List ℕ → ℕ → ℕ
strncmp s t zero = 0
strncmp [] [] (suc n) = 0
strncmp [] (b ∷ t) (suc n) = byte_diff 0 b
strncmp (a ∷ s) [] (suc n) = byte_diff a 0
strncmp (a ∷ s) (b ∷ t) (suc n) =
    let rest = strncmp s t n in
    if a == 0 || b == 0 then byte_diff a b else if a == b then rest else byte_diff a b

-- `memcmp`: from the `i`-th byte on, with `n` bytes left.
unfoldable pub memcmp_from : Bytes → ℕ → Bytes → ℕ → ℕ → ℕ → ℕ
memcmp_from a p b q zero i = 0
memcmp_from a p b q (suc n) i =
    let rest = memcmp_from a p b q n (i + 1) in
    if a (p + i) == b (q + i) then rest else byte_diff (a (p + i)) (b (q + i))

-- `memcmp(a + p, b + q, n)`
unfoldable pub memcmp : Bytes → ℕ → Bytes → ℕ → ℕ → ℕ
unfolding memcmp_from
memcmp a p b q n = memcmp_from a p b q n 0

-- The digits of `atoi`: `value = value * 10 + (*s - '0')`, as the 32 bits of an int.
unfoldable pub atoi_digits : ℕ → List ℕ → ℕ
atoi_digits value [] = value
atoi_digits value (c ∷ s) =
    let rest = atoi_digits ((value * 10 + (c - b'0')) % 2 ^ 32) s in
    if leb b'0' c && leb c b'9' then rest else value

-- The optional sign: the bits of the value, or of its negation.
unfoldable pub atoi_signed : List ℕ → ℕ
unfolding atoi_digits
atoi_signed [] = 0
atoi_signed (c ∷ s) =
    if c == b'-'
    then (2 ^ 32 - atoi_digits 0 s) % 2 ^ 32
    else if c == b'+'
    then atoi_digits 0 s
    else atoi_digits 0 (c ∷ s)

-- `atoi`
unfoldable pub atoi : List ℕ → ℕ
unfolding atoi_signed
atoi [] = 0
atoi (c ∷ s) = let rest = atoi s in if c == b' ' || c == 9 then rest else atoi_signed (c ∷ s)
