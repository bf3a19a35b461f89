-- ===== src/Fs/Chain.antt =====
-- kernel/fs.c: files as chains of clusters.
pub mod Stored
pub mod Space
pub mod RoundTrip
pub mod Write
pub mod Total
use os_u.Prelude.{
  ℕ, zero, suc, ◌+◌, ◌-◌, Bool, true, false, ◌&&◌, Option, none, some, Bytes, update, memset,
  memcpy, ltb, ◌==◌, if◌then◌else◌,
}
use os_u.Disk.{Disk, disk_read_sectors, disk_write_sectors}
use os_u.Fs.Fat.{is_cluster, ends_chain, fat16_eoc, cluster_lba, fat_get, fat_set, alloc_cluster}
use os_u.Fs.State.{Fs, Status, ok, error, free_clusters}

-- The bytes that one round moves: at most a cluster.
abbrev pub take_of : ℕ → ℕ → ℕ
take_of size pos = if ltb 512 (size - pos) then 512 else size - pos

-- `free_chain(first)`, where 0 stands for no chain.
abbrev pub give_up : Fs → ℕ → Fs
give_up fs first = if first == 0 then fs else free_clusters fs first

-- A new cluster is linked behind the previous one, if there is one, and ends the chain.
abbrev pub link : Bytes → ℕ → ℕ → Bytes
link fat prev c = fat_set (if prev == 0 then fat else fat_set fat prev c) c fat16_eoc

-- The array `sec` of a round.
abbrev pub sector_of : Bytes → ℕ → ℕ → Bytes
sector_of text pos n = memcpy (memset (λ i. 0) 0 0 512) 0 text pos n

-- The end of a round of write_cluster_chain: the links in the table, and the write to the disk.
unfoldable pub write_cluster : Fs → Bytes → ℕ → ℕ → ℕ → ℕ → Bytes → Bool × Fs
write_cluster fs text written take prev c fat =
    let (done, d) = disk_write_sectors fs.disk (cluster_lba c) 1 (sector_of text written take) in
    (done, record fs { fat_buf = link fat prev c; disk = d })

-- The loop of write_cluster_chain, with fuel: the status, `*first_out`, the state. Without fuel it
-- returns as if the loop had ended.
unfoldable pub write_rounds : ℕ → Fs → Bytes → ℕ → ℕ → ℕ → ℕ → Status × ℕ × Fs
write_rounds zero fs text size first prev written = (ok, first, fs)
write_rounds (suc n) fs text size first prev written =
    let (r, fat) = alloc_cluster fs.fat_buf in
    if ltb written size
    then elim r [
      | none ↦ (error 1, 0, give_up fs first)
      | some c ↦
          let first' = if first == 0 then c else first in
          let take = take_of size written in
          let (done, fs') = write_cluster fs text written take prev c fat in
          let rest = write_rounds n fs' text size first' c (written + take) in
          if done then rest else (error 1, 0, free_clusters fs' first')
    ]
    else (ok, first, fs)

-- `write_cluster_chain`: at least a byte is written in each round.
unfoldable pub write_cluster_chain : Fs → Bytes → ℕ → Status × ℕ × Fs
write_cluster_chain fs text size =
    let run = write_rounds size fs text size 0 0 0 in if size == 0 then (ok, 0, fs) else run

-- The read of a round of load_cluster_chain, and the copy to the cache; a failed read copies nothing.
unfoldable pub load_cluster : Fs → ℕ → ℕ → ℕ → Bool × Fs
load_cluster fs copied take c =
    let (done, sec, d) = disk_read_sectors fs.disk (cluster_lba c) 1 (λ i. 0) 0 in
    let fs' = record fs { disk = d } in
    (done, if done then record fs' { read_cache = memcpy fs.read_cache copied sec 0 take } else fs')

-- The loop of load_cluster_chain, with fuel: whether the reads succeeded, `copied`, the state.
unfoldable pub load_rounds : ℕ → Fs → ℕ → ℕ → ℕ → Bool × ℕ × Fs
load_rounds zero fs size copied c = (true, copied, fs)
load_rounds (suc n) fs size copied c =
    let take = take_of size copied in
    let (done, fs') = load_cluster fs copied take c in
    let next = fat_get fs.fat_buf c in
    let rest = load_rounds n fs' size (copied + take) next in
    if is_cluster c && ltb copied size
    then (if done
        then (if ends_chain next then (true, copied + take, fs') else rest)
        else (false, copied, fs'))
    else (true, copied, fs)

-- `load_cluster_chain`: the size is cut to 4096; `none` is the result -1.
unfoldable pub load_cluster_chain : Fs → ℕ → ℕ → Option ℕ × Fs
load_cluster_chain fs first size =
    let size' = if ltb 4096 size then 4096 else size in
    let (done, copied, fs') = load_rounds size' fs size' 0 first in
    if done
    then (some copied, record fs' { read_cache = update fs'.read_cache copied 0 })
    else (none, fs')
