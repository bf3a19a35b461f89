-- ===== src/Fs/Names.antt =====
-- kernel/fs.c: 8.3 names. A name in a directory entry is 11 bytes, padded with spaces.
use os_u.Prelude.{
  ℕ, zero, suc, ◌+◌, ◌-◌, Bool, true, false, ◌&&◌, ◌||◌, not, Option, none, some, List, [], ◌∷◌,
  ◌++◌, Bytes, update, memset, leb, ◌==◌, if◌then◌else◌,
}

-- `to_upper_char`
unfoldable pub to_upper_char : ℕ → ℕ
to_upper_char c = if leb b'a' c && leb c b'z' then c - 32 else c

-- `is_valid_file_char`
unfoldable pub is_valid_file_char : ℕ → Bool
is_valid_file_char c =
    (leb b'A' c && leb c b'Z')
    || ((leb b'0' c && leb c b'9') || (c == b'_' || (c == b'-' || c == b'$')))

-- The first loop of fat_name_from_input: what is left of the name, the length of the base, and the
-- bytes; `none` is the return of -1.
unfoldable pub base_loop : List ℕ → ℕ → Bytes → Option (List ℕ × ℕ × Bytes)
base_loop [] base_len out = some ([], base_len, out)
base_loop (c ∷ s) base_len out =
    let u = to_upper_char c in
    let rest = base_loop s (base_len + 1) (update out base_len u) in
    if c == 0 || c == b'.'
    then some (c ∷ s, base_len, out)
    else if not (is_valid_file_char u) || leb 8 base_len
    then none
    else rest

-- Its second loop.
unfoldable pub ext_loop : List ℕ → ℕ → Bytes → Option Bytes
ext_loop [] ext_len out = some out
ext_loop (c ∷ s) ext_len out =
    let u = to_upper_char c in
    let rest = ext_loop s (ext_len + 1) (update out (8 + ext_len) u) in
    if c == 0 then some out else if not (is_valid_file_char u) || leb 3 ext_len then none else rest

-- What follows the base: an extension if there is a dot.
unfoldable pub after_base : List ℕ → Bytes → Option Bytes
unfolding ext_loop
after_base [] out = some out
after_base (c ∷ s) out = let ext = ext_loop s 0 out in if c == b'.' then ext else some out

-- `fat_name_from_input`: the 11 bytes, or `none` for -1.
unfoldable pub fat_name_from_input : List ℕ → Option Bytes
unfolding base_loop after_base to_upper_char is_valid_file_char memset
fat_name_from_input name = elim (base_loop name 0 (memset (λ i. 0) 0 b' ' 11)) [
  | none ↦ none
  | some (rest, base_len, out) ↦ if base_len == 0 then none else after_base rest out
]

-- `valid_name`
unfoldable pub valid_name : List ℕ → Bool
unfolding fat_name_from_input
valid_name name = elim (fat_name_from_input name) [ none ↦ false | some f ↦ true ]

-- The loops of fat_name_to_printable: the bytes of a field of `n` up to its first space. The test
-- `p < FS_MAX_NAME` always passes, for at most 12 of 23 characters are written.
unfoldable pub field_text : Bytes → ℕ → ℕ → List ℕ
field_text e off zero = []
field_text e off (suc n) =
    let rest = field_text e (off + 1) n in if e off == b' ' then [] else e off ∷ rest

-- `fat_name_to_printable`, of the entry at offset `off`.
unfoldable pub fat_name_to_printable : Bytes → ℕ → List ℕ
unfolding field_text
fat_name_to_printable e off =
    field_text e off 8 ++ (if e (off + 8) == b' ' then [] else b'.' ∷ field_text e (off + 8) 3)
