-- ===== src/Fs/Files.antt =====
-- kernel/fs.c: the operations on files of the current directory.
use os_u.Prelude.{
  ℕ, ◌+◌, Bool, ◌||◌, not, Option, none, some, List, Bytes, update, memcpy, leb, ltb, ◌==◌,
  if◌then◌else◌,
}
use os_u.Cstring.{strlen, of_list}
use os_u.Fs.Names.{fat_name_from_input, valid_name}
use os_u.Fs.Dir.{fst_clus_lo, file_size, set_lead, set_clus, set_size, new_entry}
use os_u.Fs.State.{
  Fs, Status, ok, error, flush_fat, flush_current_dir, free_clusters, current_dir_entries, entries,
  put_entries, find_entry_in_current,
}
use os_u.Fs.Chain.{write_cluster_chain, load_cluster_chain}

-- The 11 bytes of a name that valid_name has accepted.
abbrev pub name_bytes : List ℕ → Bytes
name_bytes name = elim (fat_name_from_input name) [ none ↦ (λ i. 0) | some f ↦ f ]

abbrev pub status_of : Bool → ℕ → Status
status_of done n = if done then ok else error n

-- `fs_touch`
unfoldable pub fs_touch : Fs → List ℕ → Status × Fs
fs_touch fs name =
    if not fs.fs_ready || not (valid_name name)
    then (error 1, fs)
    else (let ((idx, free_idx), fs1) = find_entry_in_current fs name in
        elim idx [
          | some i ↦ (ok, fs1)
          | none ↦ elim free_idx [
            | none ↦ (error 2, fs1)
            | some k ↦
                let (found, fs2) = current_dir_entries fs1 in
                let (done, fs3) =
                  flush_current_dir
                    (put_entries fs2 (new_entry (entries fs2) k (name_bytes name) 0x20)) in
                if found then (status_of done 1, fs3) else (error 1, fs2)
          ]
        ])

-- The flushes at the end of an operation, which answers -n if one of them fails.
unfoldable pub flush_both : Fs → ℕ → Status × Fs
flush_both fs n =
    let (fat_done, fs1) = flush_fat fs in
    let (dir_done, fs2) = flush_current_dir fs1 in
    if fat_done then (status_of dir_done n, fs2) else (error n, fs1)

-- `fs_remove`
unfoldable pub fs_remove : Fs → List ℕ → Status × Fs
unfolding flush_both
fs_remove fs name =
    if fs.fs_ready
    then (let ((idx, free_idx), fs1) = find_entry_in_current fs name in
        elim idx [
          | none ↦ (error 1, fs1)
          | some i ↦
              let (found, fs2) = current_dir_entries fs1 in
              let first = fst_clus_lo (entries fs2) i in
              let fs3 = if leb 2 first then free_clusters fs2 first else fs2 in
              let e = set_clus (set_size (set_lead (entries fs3) i 0xE5) i 0) i 0 in
              if found then flush_both (put_entries fs3 e) 2 else (error 1, fs2)
        ])
    else (error 1, fs)

-- fs_write_raw from the point where the entry is there: the old chain goes, the new one comes.
unfoldable pub replace_contents : Fs → ℕ → Bytes → ℕ → Status × Fs
unfolding flush_both
replace_contents fs i text len =
    let first = fst_clus_lo (entries fs) i in
    let fs1 = free_clusters fs first in
    let fs2 = if leb 2 first then put_entries fs1 (set_clus (entries fs1) i 0) else fs in
    let (status, new_first, fs3) = write_cluster_chain fs2 text len in
    elim status [
      | error n ↦ (error 3, fs3)
      | ok ↦ flush_both (put_entries fs3 (set_size (set_clus (entries fs3) i new_first) i len)) 4
    ]

-- `fs_write_raw`
unfoldable pub fs_write_raw : Fs → List ℕ → Bytes → ℕ → Status × Fs
unfolding replace_contents
fs_write_raw fs name text len =
    if not fs.fs_ready || (not (valid_name name) || ltb 4096 len)
    then (error 1, fs)
    else (let ((idx, free_idx), fs1) = find_entry_in_current fs name in
        let (found, fs2) = current_dir_entries fs1 in
        if found
        then elim idx [
          | some i ↦ replace_contents fs2 i text len
          | none ↦ elim free_idx [
            | none ↦ (error 2, fs2)
            | some k ↦
                replace_contents
                  (put_entries fs2 (new_entry (entries fs2) k (name_bytes name) 0x20)) k text len
          ]
        ]
        else (error 1, fs2))

-- `fs_write`
unfoldable pub fs_write : Fs → List ℕ → List ℕ → Status × Fs
unfolding fs_write_raw
fs_write fs name text = fs_write_raw fs name (of_list text) (strlen text)

-- `fs_read_ptr`: the length, or `none` for a null pointer; the bytes are in `read_cache`.
unfoldable pub fs_read_ptr : Fs → List ℕ → Option ℕ × Fs
fs_read_ptr fs name =
    if fs.fs_ready
    then (let ((idx, free_idx), fs1) = find_entry_in_current fs name in
        elim idx [
          | none ↦ (none, fs1)
          | some i ↦
              let (found, fs2) = current_dir_entries fs1 in
              let size = file_size (entries fs2) i in
              let first = fst_clus_lo (entries fs2) i in
              if found
              then (if size == 0 || ltb first 2
                  then (some 0, record fs2 { read_cache = update fs2.read_cache 0 0 })
                  else load_cluster_chain fs2 first size)
              else (none, fs2)
        ])
    else (none, fs)

-- `fs_append`: the old contents stand in `read_cache` already, and the text is put behind them.
unfoldable pub fs_append : Fs → List ℕ → List ℕ → Status × Fs
unfolding fs_read_ptr fs_write_raw
fs_append fs name text =
    if fs.fs_ready
    then (let (old, fs1) = fs_read_ptr fs name in
        let old_len : ℕ = elim old [ none ↦ 0 | some n ↦ n ] in
        let add = strlen text in
        let cache = update (memcpy fs1.read_cache old_len (of_list text) 0 add) (old_len + add) 0 in
        let fs2 = record fs1 { read_cache = cache } in
        if ltb 4096 (old_len + add)
        then (error 1, fs1)
        else fs_write_raw fs2 name fs2.read_cache (old_len + add))
    else (error 1, fs)
