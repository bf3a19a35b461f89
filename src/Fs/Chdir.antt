-- ===== src/Fs/Chdir.antt =====
-- kernel/fs.c: the current directory and its path.
pub mod Laws
use os_u.Prelude.{
  ℕ, zero, suc, ◌+◌, ◌-◌, ◌*◌, ◌/◌, ◌%◌, Bool, true, false, ◌&&◌, ◌||◌, not, Option, none, some,
  List, [], ◌∷◌, ◌++◌, Bytes, update, memset, memcpy, find_from, leb, ltb, ◌==◌, if◌then◌else◌,
}
use os_u.Cstring.{strlen, strcmp, of_list}
use os_u.Disk.{Disk, disk_read_sectors, disk_write_sectors}
use os_u.Fs.Fat.{cluster_lba, alloc_cluster}
use os_u.Fs.Names.{valid_name, fat_name_to_printable}
use os_u.Fs.Dir.{
  lead, attr, fst_clus_lo, file_size, set_lead, set_clus, set_size, new_entry, is_directory,
}
use os_u.Fs.State.{
  Fs, Status, ok, error, free_clusters, current_dir_entries, entries, put_entries, max_entries,
  find_entry_in_current,
}
use os_u.Fs.Files.{name_bytes, flush_both}

-- `strlen(current_path)`, an array of 128 characters.
unfoldable pub path_len : Bytes → ℕ
path_len p = elim (find_from (λ i. p i == 0) 128 0) [ none ↦ 128 | some k ↦ k ]

-- The last slash before the index `n`, or index 0.
unfoldable pub last_slash : Bytes → ℕ → ℕ
last_slash p zero = 0
last_slash p (suc n) = let rest = last_slash p n in if p n == b'/' then n else rest

-- The path without its last component.
unfoldable pub path_up : Bytes → Bytes
unfolding path_len last_slash
path_up p = let k = last_slash p (path_len p) in if k == 0 then update p 1 0 else update p k 0

-- The path with one more component, as far as it fits.
unfoldable pub path_down : Bytes → List ℕ → Bytes
unfolding path_len
path_down p name =
    let plen = path_len p in
    let slash = ltb 1 plen && ltb plen 127 in
    let p' = if slash then update p plen b'/' else p in
    let plen' = if slash then plen + 1 else plen in
    let nlen = strlen name in
    if ltb (plen' + nlen) 128
    then update (memcpy p' plen' (of_list name) 0 nlen) (plen' + nlen) 0
    else p'

-- fs_chdir for a relative path, which names one component or "..".
unfoldable pub chdir_relative : Fs → List ℕ → Status × Fs
unfolding path_up path_down
chdir_relative fs path =
    if strcmp path (b'.' ∷ b'.' ∷ []) == 0
    then (let (found, fs1) = current_dir_entries fs in
        if fs.current_dir_cluster == 0
        then (ok, fs)
        else if found
        then (
          ok,
          record fs1 {
            current_dir_cluster = fst_clus_lo (entries fs1) 1;
            current_path = path_up fs1.current_path;
          },
        )
        else (error 2, fs1))
    else (let ((idx, free_idx), fs1) = find_entry_in_current fs path in
        elim idx [
          | none ↦ (error 3, fs1)
          | some i ↦
              let (found, fs2) = current_dir_entries fs1 in
              if found
              then (if is_directory (attr (entries fs2) i)
                  then (
                    ok,
                    record fs2 {
                      current_dir_cluster = fst_clus_lo (entries fs2) i;
                      current_path =
                          path_down fs2.current_path (fat_name_to_printable (entries fs2) (i * 32));
                    },
                  )
                  else (error 5, fs2))
              else (error 4, fs2)
        ])

-- The state at the root, as a leading slash makes it.
abbrev pub at_root : Fs → Fs
at_root fs = record fs {
  current_dir_cluster = 0;
  current_path = update (update fs.current_path 0 b'/') 1 0;
}

-- fs_chdir behind its first test: a leading slash goes to the root first.
unfoldable pub chdir_from : Fs → List ℕ → Status × Fs
unfolding chdir_relative
chdir_from fs [] = chdir_relative fs []
chdir_from fs (c ∷ path) =
    if c == b'/'
    then (if strlen path == 0 then (ok, at_root fs) else chdir_relative (at_root fs) path)
    else chdir_relative fs (c ∷ path)

-- `fs_chdir`, for a path that is no null pointer.
unfoldable pub fs_chdir : Fs → List ℕ → Status × Fs
unfolding chdir_from
fs_chdir fs path = if fs.fs_ready then chdir_from fs path else (error 1, fs)

-- `fs_getcwd`: an empty path becomes the root's.
unfoldable pub fs_getcwd : Fs → Bytes × Fs
fs_getcwd fs =
    let p = update (update fs.current_path 0 b'/') 1 0 in
    if fs.current_path 0 == 0 then (p, record fs { current_path = p }) else (fs.current_path, fs)
