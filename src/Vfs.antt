-- ===== src/Vfs.antt =====
-- kernel/vfs.c: path names in front of the file system.
pub mod Laws
use os_u.Prelude.{
  ℕ, zero, suc, ◌+◌, Bool, true, false, ◌&&◌, ◌||◌, Option, none, some, List, [], ◌∷◌, Bytes, ltb,
  ◌==◌, if◌then◌else◌,
}
use os_u.Fs.State.{Fs, Status, ok, error}
use os_u.Fs.Format.{fs_init}
use os_u.Fs.Files.{fs_touch, fs_remove, fs_write, fs_append, fs_write_raw, fs_read_ptr}
use os_u.Fs.Dirs.{fs_mkdir, fs_rmdir}
use os_u.Fs.Chdir.{fs_chdir, fs_getcwd}
use os_u.Fs.Listing.{Listed, fs_is_dir, fs_list_entry, fs_list_dir_entry}

-- The character at the front of a C string, 0 at its end.
abbrev pub peek : List ℕ → ℕ
peek [] = 0
peek (c ∷ s) = c

abbrev pub rest_of : List ℕ → List ℕ
rest_of [] = []
rest_of (c ∷ s) = s

-- `while (*path == ' ') path++;`
unfoldable pub skip_spaces : List ℕ → List ℕ
skip_spaces [] = []
skip_spaces (c ∷ s) = let rest = skip_spaces s in if c == b' ' then rest else c ∷ s

-- `if (*path == '/') path++;`
abbrev pub skip_slash : List ℕ → List ℕ
skip_slash [] = []
skip_slash (c ∷ s) = if c == b'/' then s else c ∷ s

-- Two dots at the end of the path or before a slash.
abbrev pub is_parent : List ℕ → Bool
is_parent s =
    peek s == b'.'
    && (peek (rest_of s) == b'.'
        && (peek (rest_of (rest_of s)) == 0 || peek (rest_of (rest_of s)) == b'/'))

-- The loop of normalize with room for `n` more characters: what it puts into `name_buf`, or `none`
-- where it meets a separator.
unfoldable pub copy_name : ℕ → List ℕ → Option (List ℕ)
copy_name zero s = some []
copy_name (suc n) [] = some []
copy_name (suc n) (c ∷ s) =
    let rest : Option (List ℕ) = elim (copy_name n s) [ none ↦ none | some l ↦ some (c ∷ l) ] in
    if c == 0 || c == b' '
    then some []
    else if is_parent (c ∷ s)
    then rest
    else if c == b'/' || c == 0x5C
    then none
    else rest

-- A name, unless it is empty.
abbrev pub not_empty : Option (List ℕ) → Option (List ℕ)
not_empty none = none
not_empty (some []) = none
not_empty (some (c ∷ l)) = some (c ∷ l)

-- `normalize`: `none` is the null pointer. `FS_MAX_NAME` is 23.
unfoldable pub normalize : List ℕ → Option (List ℕ)
unfolding skip_spaces copy_name
normalize path =
    if peek path == 0 then none else not_empty (copy_name 23 (skip_slash (skip_spaces path)))

-- The loop of normalize_dir.
unfoldable pub copy_dir : ℕ → List ℕ → List ℕ
copy_dir zero s = []
copy_dir (suc n) [] = []
copy_dir (suc n) (c ∷ s) = let rest = copy_dir n s in if c == 0 || c == b' ' then [] else c ∷ rest

-- `normalize_dir`: an absolute path is passed on as it is.
unfoldable pub normalize_dir : List ℕ → Option (List ℕ)
unfolding skip_spaces copy_dir
normalize_dir path =
    let s = skip_spaces path in
    if peek path == 0
    then none
    else if peek s == b'/'
    then some s
    else not_empty (some (copy_dir 23 s))

-- An operation on the normalized name, with the error -1 if there is none.
abbrev pub on_name : (Fs → List ℕ → Status × Fs) → Option (List ℕ) → Fs → Status × Fs
on_name f none fs = (error 1, fs)
on_name f (some n) fs = f fs n

unfoldable pub vfs_init : Fs → Fs
vfs_init fs = fs_init fs

unfoldable pub vfs_touch : Fs → List ℕ → Status × Fs
unfolding normalize
vfs_touch fs path = on_name fs_touch (normalize path) fs

unfoldable pub vfs_remove : Fs → List ℕ → Status × Fs
unfolding normalize
vfs_remove fs path = on_name fs_remove (normalize path) fs

unfoldable pub vfs_write : Fs → List ℕ → List ℕ → Status × Fs
unfolding normalize
vfs_write fs path text = on_name (λ g n. fs_write g n text) (normalize path) fs

unfoldable pub vfs_append : Fs → List ℕ → List ℕ → Status × Fs
unfolding normalize
vfs_append fs path text = on_name (λ g n. fs_append g n text) (normalize path) fs

unfoldable pub vfs_write_raw : Fs → List ℕ → Bytes → ℕ → Status × Fs
unfolding normalize
vfs_write_raw fs path text len = on_name (λ g n. fs_write_raw g n text len) (normalize path) fs

unfoldable pub vfs_read_ptr : Fs → List ℕ → Option ℕ × Fs
unfolding normalize
vfs_read_ptr fs path = elim (normalize path) [ none ↦ (none, fs) | some n ↦ fs_read_ptr fs n ]

unfoldable pub vfs_list_entry : Fs → ℕ → Option Listed × Fs
vfs_list_entry fs index = fs_list_entry fs index

unfoldable pub vfs_mkdir : Fs → List ℕ → Status × Fs
unfolding normalize
vfs_mkdir fs path = on_name fs_mkdir (normalize path) fs

unfoldable pub vfs_rmdir : Fs → List ℕ → Status × Fs
unfolding normalize
vfs_rmdir fs path = on_name fs_rmdir (normalize path) fs

unfoldable pub vfs_chdir : Fs → List ℕ → Status × Fs
unfolding normalize_dir
vfs_chdir fs path = on_name fs_chdir (normalize_dir path) fs

unfoldable pub vfs_getcwd : Fs → Bytes × Fs
vfs_getcwd fs = fs_getcwd fs

unfoldable pub vfs_is_dir : Fs → List ℕ → Bool × Fs
unfolding normalize
vfs_is_dir fs path = elim (normalize path) [ none ↦ (false, fs) | some n ↦ fs_is_dir fs n ]

unfoldable pub vfs_list_dir_entry : Fs → ℕ → Option Listed × Fs
vfs_list_dir_entry fs index = fs_list_dir_entry fs index
