-- ===== src/Fs/Dirs.antt =====
-- kernel/fs.c: fs_mkdir and fs_rmdir.
use os_u.Prelude.{
  ℕ, zero, suc, ◌+◌, Bool, true, false, ◌||◌, not, none, some, List, [], ◌∷◌, Bytes, update, ◌==◌,
  if◌then◌else◌,
}
use os_u.Cstring.{of_list}
use os_u.Disk.{disk_read_sectors, disk_write_sectors}
use os_u.Fs.Fat.{cluster_lba, alloc_cluster}
use os_u.Fs.Names.{valid_name}
use os_u.Fs.Dir.{lead, attr, fst_clus_lo, set_lead, set_clus, set_size, new_entry, is_directory}
use os_u.Fs.State.{
  Fs, Status, error, free_clusters, current_dir_entries, entries, put_entries,
  find_entry_in_current,
}
use os_u.Fs.Files.{name_bytes, flush_both}

-- The cluster of a new directory: "." with its own cluster, ".." with its parent's, and zeros.
unfoldable pub new_dir : ℕ → ℕ → Bytes
unfolding new_entry set_clus
new_dir self parent =
    let dot =
      of_list (b'.' ∷ b' ' ∷ b' ' ∷ b' ' ∷ b' ' ∷ b' ' ∷ b' ' ∷ b' ' ∷ b' ' ∷ b' ' ∷ b' ' ∷ []) in
    let e = set_clus (new_entry (λ i. 0) 0 dot 0x10) 0 self in
    set_clus (new_entry e 1 (update dot 1 b'.') 0x10) 1 parent

-- fs_mkdir from the point where a cluster is allocated.
unfoldable pub mkdir_at : Fs → List ℕ → ℕ → ℕ → Status × Fs
unfolding flush_both
mkdir_at fs name k c =
    let (done, d) =
      disk_write_sectors fs.disk (cluster_lba c) 1 (new_dir c fs.current_dir_cluster) in
    let fs1 = record fs { disk = d } in
    let (found, fs2) = current_dir_entries fs1 in
    let e = set_size (set_clus (new_entry (entries fs2) k (name_bytes name) 0x10) k c) k 0 in
    if done
    then (if found then flush_both (put_entries fs2 e) 6 else (error 5, fs2))
    else (error 4, free_clusters fs1 c)

-- `fs_mkdir`
unfoldable pub fs_mkdir : Fs → List ℕ → Status × Fs
unfolding mkdir_at
fs_mkdir fs name =
    if not fs.fs_ready || not (valid_name name)
    then (error 1, fs)
    else (let ((idx, free_idx), fs1) = find_entry_in_current fs name in
        elim idx [
          | some i ↦ (error 1, fs1)
          | none ↦ elim free_idx [
            | none ↦ (error 2, fs1)
            | some k ↦
                let (r, fat) = alloc_cluster fs1.fat_buf in
                elim r [
                  | none ↦ (error 3, fs1)
                  | some c ↦ mkdir_at (record fs1 { fat_buf = fat }) name k c
                ]
          ]
        ])

-- The loop of fs_rmdir over the entries behind "." and "..": whether there is none in use.
unfoldable pub is_empty_dir : Bytes → ℕ → ℕ → Bool
is_empty_dir e zero i = true
is_empty_dir e (suc n) i =
    let rest = is_empty_dir e n (i + 1) in
    if lead e i == 0x00 then true else if lead e i == 0xE5 then rest else false

-- `fs_rmdir`
unfoldable pub fs_rmdir : Fs → List ℕ → Status × Fs
unfolding flush_both is_empty_dir
fs_rmdir fs name =
    if fs.fs_ready
    then (let ((idx, free_idx), fs1) = find_entry_in_current fs name in
        elim idx [
          | none ↦ (error 1, fs1)
          | some i ↦
              let (found, fs2) = current_dir_entries fs1 in
              let c = fst_clus_lo (entries fs2) i in
              let (done, buf, d) = disk_read_sectors fs2.disk (cluster_lba c) 1 (λ j. 0) 0 in
              let fs3 = record fs2 { disk = d } in
              let fs4 = free_clusters fs3 c in
              let e = set_clus (set_lead (entries fs4) i 0xE5) i 0 in
              if found
              then (if is_directory (attr (entries fs2) i)
                  then (if done
                      then (if is_empty_dir buf 14 2
                          then flush_both (put_entries fs4 e) 5
                          else (error 4, fs3))
                      else (error 3, fs3))
                  else (error 2, fs2))
              else (error 1, fs2)
        ])
    else (error 1, fs)
