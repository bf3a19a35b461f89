-- ===== src/Cosypy/Lexer.antt =====
-- kernel/cospy.c: the tokens, and next_token. The cursor is the text from its place on.
pub mod Progress
pub mod Spell
pub mod Print
use os_u.Prelude.{
  ℕ, zero, suc, ◌+◌, ◌-◌, ◌*◌, ◌%◌, ◌^◌, Bool, true, false, ◌&&◌, ◌||◌, List, [], ◌∷◌, leb, ◌==◌,
  if◌then◌else◌, neg32, codes,
}
use os_u.Cstring.{strcmp}

-- `token_type_t`, each with the value that belongs to it: token_number, token_string or token_ident.
pub data Token : Type 0 where
  eof : Token
  num : ℕ → Token
  str ident : List ℕ → Token
  plus minus star slash percent eq eqeq ne lt gt le ge lparen rparen colon comma and or not : Token

-- The value of the enum.
abbrev kind : Token → ℕ
kind eof = 0
kind (num n) = 1
kind (str s) = 2
kind (ident s) = 3
kind plus = 4
kind minus = 5
kind star = 6
kind slash = 7
kind percent = 8
kind eq = 9
kind eqeq = 10
kind ne = 11
kind lt = 12
kind gt = 13
kind le = 14
kind ge = 15
kind lparen = 16
kind rparen = 17
kind colon = 18
kind comma = 19
kind and = 20
kind or = 21
kind not = 22

abbrev pub is : Token → Token → Bool
is s t = kind s == kind t

-- The character under the cursor; a NUL stands at the end.
abbrev pub peek : List ℕ → ℕ
peek [] = 0
peek (c ∷ s) = c

-- `skip_whitespace`
unfoldable pub skip_whitespace : List ℕ → List ℕ
skip_whitespace [] = []
skip_whitespace (c ∷ s) =
    let rest = skip_whitespace s in if c == b' ' || c == 9 then rest else c ∷ s

abbrev pub is_digit : ℕ → Bool
is_digit c = leb b'0' c && leb c b'9'

abbrev pub is_alpha : ℕ → Bool
is_alpha c = leb b'a' c && leb c b'z' || (leb b'A' c && leb c b'Z' || c == b'_')

abbrev pub is_alnum : ℕ → Bool
is_alnum c = is_alpha c || is_digit c

-- The digits of a number: its value, which wraps, and the text behind it.
unfoldable pub digits : ℕ → List ℕ → ℕ × List ℕ
digits value [] = (value, [])
digits value (c ∷ s) =
    let rest = digits ((value * 10 + (c - b'0')) % 2 ^ 32) s in
    if is_digit c then rest else (value, c ∷ s)

-- The characters of a string up to its quote, at most `n` of them.
unfoldable pub string_chars : ℕ → ℕ → List ℕ → List ℕ × List ℕ
string_chars quote zero s = ([], s)
string_chars quote (suc n) [] = ([], [])
string_chars quote (suc n) (c ∷ s) =
    let (t, rest) = string_chars quote n s in
    if c == 0 || c == quote then ([], c ∷ s) else (c ∷ t, rest)

abbrev pub skip_quote : ℕ → List ℕ → List ℕ
skip_quote quote [] = []
skip_quote quote (c ∷ s) = if c == quote then s else c ∷ s

-- The characters of an identifier, at most `n` of them.
unfoldable pub ident_chars : ℕ → List ℕ → List ℕ × List ℕ
ident_chars zero s = ([], s)
ident_chars (suc n) [] = ([], [])
ident_chars (suc n) (c ∷ s) =
    let (t, rest) = ident_chars n s in if is_alnum c then (c ∷ t, rest) else ([], c ∷ s)

-- The keywords.
unfoldable pub keyword : List ℕ → Token
keyword name =
    if strcmp name (codes "and") == 0
    then and
    else if strcmp name (codes "or") == 0
    then or
    else if strcmp name (codes "not") == 0
    then not
    else ident name

-- An operator that becomes another one in front of `=`.
abbrev pub with_eq : Token → Token → List ℕ → Token × List ℕ
with_eq long short [] = (short, [])
with_eq long short (c ∷ s) = if c == b'=' then (long, s) else (short, c ∷ s)

-- The switch over the operators; any other character ends the expression.
unfoldable pub operator : ℕ → List ℕ → Token × List ℕ
operator c s =
    if c == b'+'
    then (plus, s)
    else if c == b'-'
    then (minus, s)
    else if c == b'*'
    then (star, s)
    else if c == b'/'
    then (slash, s)
    else if c == b'%'
    then (percent, s)
    else if c == b'('
    then (lparen, s)
    else if c == b')'
    then (rparen, s)
    else if c == b':'
    then (colon, s)
    else if c == b','
    then (comma, s)
    else if c == b'='
    then with_eq eqeq eq s
    else if c == b'!'
    then with_eq ne not s
    else if c == b'<'
    then with_eq le lt s
    else if c == b'>'
    then with_eq ge gt s
    else (eof, s)

unfoldable pub number_token : ℕ → List ℕ → Token × List ℕ
unfolding digits
number_token c s =
    if c == b'-'
    then (let (v, rest) = digits 0 s in (num (neg32 v), rest))
    else (let (v, rest) = digits 0 (c ∷ s) in (num v, rest))

unfoldable pub string_token : ℕ → List ℕ → Token × List ℕ
unfolding string_chars
string_token quote s = let (t, rest) = string_chars quote 63 s in (str t, skip_quote quote rest)

unfoldable pub ident_token : List ℕ → Token × List ℕ
unfolding ident_chars
ident_token s = let (t, rest) = ident_chars 31 s in (keyword t, rest)

-- The token at a character that is no blank.
unfoldable pub token_at : List ℕ → Token × List ℕ
token_at [] = (eof, [])
token_at (c ∷ s) =
    if c == 0 || c == b'#'
    then (eof, c ∷ s)
    else if is_digit c || c == b'-' && is_digit (peek s)
    then number_token c s
    else if c == 34 || c == 39
    then string_token c s
    else if is_alpha c
    then ident_token (c ∷ s)
    else operator c s

-- `next_token`: the token, and the cursor behind it.
unfoldable pub next_token : List ℕ → Token × List ℕ
next_token cursor = token_at (skip_whitespace cursor)
