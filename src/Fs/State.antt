-- ===== src/Fs/State.antt =====
-- kernel/fs.c: the static variables of the file system, and the current directory.
use os_u.Prelude.{ℕ, ◌+◌, Bool, true, Option, none, some, List, Bytes, ◌==◌, if◌then◌else◌}
use os_u.Disk.{Disk, disk_read_sectors, disk_write_sectors}
use os_u.Fs.Fat.{free_chain, fat_lba_start, root_lba, cluster_lba}
use os_u.Fs.Names.{fat_name_from_input}
use os_u.Fs.Dir.{scan}

-- The result of an operation: 0, or the error -n.
pub data Status : Type 0 where
  ok : Status
  error : ℕ → Status

pub record Fs : Type 0 where
  pub disk : Disk
  pub fat_buf : Bytes
  pub root_buf : Bytes
  pub dir_buf : Bytes
  pub read_cache : Bytes
  pub fs_ready : Bool
  pub current_dir_cluster : ℕ
  pub current_path : Bytes

-- `flush_fat` and `flush_root`
unfoldable pub flush_fat : Fs → Bool × Fs
flush_fat fs =
    let (done, d) = disk_write_sectors fs.disk (fat_lba_start + 1) 32 fs.fat_buf in
    (done, record fs { disk = d })

unfoldable pub flush_root : Fs → Bool × Fs
flush_root fs =
    let (done, d) = disk_write_sectors fs.disk root_lba 8 fs.root_buf in
    (done, record fs { disk = d })

-- `free_chain` on the table in memory, with fuel that always suffices.
unfoldable pub free_clusters : Fs → ℕ → Fs
free_clusters fs c = elim (free_chain 8154 fs.fat_buf c) [
  | none ↦ fs
  | some fat ↦ record fs { fat_buf = fat }
]

-- `current_dir_entries`: whether there are entries; those of a subdirectory are read into `dir_buf`.
unfoldable pub current_dir_entries : Fs → Bool × Fs
current_dir_entries fs =
    if fs.current_dir_cluster == 0
    then (true, fs)
    else (let (done, buf, d) =
          disk_read_sectors fs.disk (cluster_lba fs.current_dir_cluster) 1 fs.dir_buf 0 in
        (done, record fs { disk = d; dir_buf = buf }))

-- The buffer that current_dir_entries points to, and a write to it.
abbrev pub entries : Fs → Bytes
entries fs = if fs.current_dir_cluster == 0 then fs.root_buf else fs.dir_buf

abbrev pub put_entries : Fs → Bytes → Fs
put_entries fs e =
    if fs.current_dir_cluster == 0 then record fs { root_buf = e } else record fs { dir_buf = e }

-- `max_entries`: 32 entries of the root directory are used, and a cluster holds 16.
abbrev pub max_entries : Fs → ℕ
max_entries fs = if fs.current_dir_cluster == 0 then 32 else 16

-- `find_entry_in_current`: the index of the entry, and the first free index.
unfoldable pub find_entry_in_current : Fs → List ℕ → (Option ℕ × Option ℕ) × Fs
find_entry_in_current fs name = elim (fat_name_from_input name) [
  | none ↦ ((none, none), fs)
  | some f11 ↦
      let (found, fs') = current_dir_entries fs in
      if found then (scan (entries fs') f11 (max_entries fs') 0 none, fs') else ((none, none), fs')
]

-- `flush_current_dir`
unfoldable pub flush_current_dir : Fs → Bool × Fs
unfolding flush_root
flush_current_dir fs =
    if fs.current_dir_cluster == 0
    then flush_root fs
    else (let (done, d) =
          disk_write_sectors fs.disk (cluster_lba fs.current_dir_cluster) 1 fs.dir_buf in
        (done, record fs { disk = d }))
