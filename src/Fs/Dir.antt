-- ===== src/Fs/Dir.antt =====
-- kernel/fs.c: directory entries, 32 bytes each, and the search for a name among them.
pub mod Search
use os_u.Prelude.{
  ℕ, zero, suc, ◌+◌, ◌-◌, ◌*◌, ◌/◌, ◌%◌, ◌^◌, Bool, true, false, ◌&&◌, ◌||◌, not, Option, none,
  some, Bytes, update, memset, memcpy, leb, ltb, ◌==◌, if◌then◌else◌,
}
use os_u.Cstring.{memcmp}

-- The fields of entry `i`: `name[0]`, `attr`, `fst_clus_lo` and `file_size`, the last two with the low
-- byte first.
abbrev pub lead : Bytes → ℕ → ℕ
lead e i = e (i * 32)

abbrev pub attr : Bytes → ℕ → ℕ
attr e i = e (i * 32 + 11)

abbrev pub fst_clus_lo : Bytes → ℕ → ℕ
fst_clus_lo e i = e (i * 32 + 26) + e (i * 32 + 27) * 2 ^ 8

abbrev pub file_size : Bytes → ℕ → ℕ
file_size e i =
    e (i * 32 + 28) + e (i * 32 + 29) * 2 ^ 8 + e (i * 32 + 30) * 2 ^ 16 + e (i * 32 + 31) * 2 ^ 24

unfoldable pub set_lead : Bytes → ℕ → ℕ → Bytes
set_lead e i v = update e (i * 32) v

unfoldable pub set_clus : Bytes → ℕ → ℕ → Bytes
set_clus e i v = update (update e (i * 32 + 26) (v % 2 ^ 8)) (i * 32 + 27) (v / 2 ^ 8 % 2 ^ 8)

unfoldable pub set_size : Bytes → ℕ → ℕ → Bytes
set_size e i v =
    update
      (update (update (update e (i * 32 + 28) (v % 2 ^ 8)) (i * 32 + 29) (v / 2 ^ 8 % 2 ^ 8))
        (i * 32 + 30) (v / 2 ^ 16 % 2 ^ 8))
      (i * 32 + 31) (v / 2 ^ 24 % 2 ^ 8)

-- A new entry: cleared, then its name, its extension and its attributes.
unfoldable pub new_entry : Bytes → ℕ → Bytes → ℕ → Bytes
unfolding memset memcpy
new_entry e i f11 a =
    let e' = memset e (i * 32) 0 32 in
    let e' = memcpy e' (i * 32) f11 0 8 in
    let e' = memcpy e' (i * 32 + 8) f11 8 3 in update e' (i * 32 + 11) a

-- `ent[i].attr & FS_ATTR_DIRECTORY`
abbrev pub is_directory : ℕ → Bool
is_directory a = a / 0x10 % 2 == 1

-- The comparison of an entry's name and extension with 11 bytes.
unfoldable pub same_name : Bytes → ℕ → Bytes → Bool
unfolding memcmp
same_name e i f11 = memcmp e (i * 32) f11 0 8 == 0 && memcmp e (i * 32 + 8) f11 8 3 == 0

-- `first_free`, once an unused entry is met.
abbrev pub note_free : Option ℕ → ℕ → Option ℕ
note_free none i = some i
note_free (some k) i = some k

-- The loop of find_entry and of find_entry_in_current over `n` more entries, from `i` on: the index of
-- the entry, and the first free index.
unfoldable pub scan : Bytes → Bytes → ℕ → ℕ → Option ℕ → Option ℕ × Option ℕ
scan e f11 zero i first_free = (none, first_free)
scan e f11 (suc n) i first_free =
    let unused = lead e i == 0x00 || lead e i == 0xE5 in
    let rest = scan e f11 n (i + 1) (if unused then note_free first_free i else first_free) in
    if unused
    then (if lead e i == 0x00 then (none, note_free first_free i) else rest)
    else if attr e i == 0x0F
    then rest
    else if same_name e i f11
    then (some i, first_free)
    else rest
