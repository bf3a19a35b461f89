-- ===== src/Fs/Listing.antt =====
-- kernel/fs.c: fs_is_dir and the listings.
use os_u.Prelude.{
  ℕ, zero, suc, ◌+◌, ◌-◌, ◌*◌, Bool, false, ◌&&◌, ◌||◌, Option, none, some, List, Bytes, ◌==◌,
  if◌then◌else◌,
}
use os_u.Fs.Names.{fat_name_to_printable}
use os_u.Fs.Dir.{lead, attr, file_size, is_directory}
use os_u.Fs.State.{Fs, current_dir_entries, entries, max_entries, find_entry_in_current}

-- `fs_is_dir`
unfoldable pub fs_is_dir : Fs → List ℕ → Bool × Fs
fs_is_dir fs name =
    if fs.fs_ready
    then (let ((idx, free_idx), fs1) = find_entry_in_current fs name in
        elim idx [
          | none ↦ (false, fs1)
          | some i ↦
              let (found, fs2) = current_dir_entries fs1 in
              (if found then is_directory (attr (entries fs2) i) else false, fs2)
        ])
    else (false, fs)

-- What a listing gives for an entry: `*name`, `*len` and `*is_dir`.
pub record Listed : Type 0 where
  pub name : List ℕ
  pub len : ℕ
  pub is_dir : Bool

-- The loops of fs_list_entry and fs_list_dir_entry, over `n` more entries from `i` on, for the entry
-- that comes `index` behind; `hidden` is the test for "." and "..".
unfoldable pub list_from : (Bytes → ℕ → Bool) → Bytes → ℕ → ℕ → ℕ → Option Listed
list_from hidden e zero i index = none
list_from hidden e (suc n) i index =
    let skip = lead e i == 0xE5 || (attr e i == 0x0F || hidden e i) in
    let rest = list_from hidden e n (i + 1) (if skip then index else index - 1) in
    if lead e i == 0x00
    then none
    else if skip
    then rest
    else if index == 0
    then some (record {
      name = fat_name_to_printable e (i * 32);
      len = file_size e i;
      is_dir = is_directory (attr e i);
    })
    else rest

abbrev pub list_with : (Bytes → ℕ → Bool) → Fs → ℕ → Option Listed × Fs
list_with hidden fs index =
    let (found, fs1) = current_dir_entries fs in
    if fs.fs_ready
    then (if found then list_from hidden (entries fs1) (max_entries fs1) 0 index else none, fs1)
    else (none, fs)

-- `fs_list_entry` hides an entry with a dot before a space or a dot.
unfoldable pub fs_list_entry : Fs → ℕ → Option Listed × Fs
unfolding list_from
fs_list_entry =
    list_with (λ e i. lead e i == b'.' && (e (i * 32 + 1) == b' ' || e (i * 32 + 1) == b'.'))

-- `fs_list_dir_entry` hides every entry with a dot.
unfoldable pub fs_list_dir_entry : Fs → ℕ → Option Listed × Fs
unfolding list_from
fs_list_dir_entry = list_with (λ e i. lead e i == b'.')
