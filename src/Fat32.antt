-- ===== src/Fat32.antt =====
-- kernel/fat32.c: the FAT32 file system, for reading, on top of Disk.
pub mod Clusters
pub mod Counts
pub mod Read
use os_u.Prelude.{
  ℕ, zero, suc, ◌+◌, ◌-◌, ◌*◌, ◌/◌, ◌%◌, ◌^◌, Bool, true, false, ◌&&◌, ◌||◌, Option, none, some,
  List, [], ◌∷◌, ◌++◌, Bytes, update, memcpy, add32, sub32, mul32, ltb, leb, ◌==◌, not,
  if◌then◌else◌,
}
use os_u.Cstring.{strcmp}
use os_u.Disk.{Disk, disk_read_sectors}

-- `fs`, the two buffers, and the drive.
pub record Fat32 : Type 0 where
  pub valid : Bool
  pub fat_start_lba : ℕ
  pub cluster_start_lba : ℕ
  pub root_cluster : ℕ
  pub sectors_per_cluster : ℕ
  pub bytes_per_sector : ℕ
  pub fat_size : ℕ
  pub sector_buffer : Bytes
  pub cluster_buffer : Bytes
  pub disk : Disk

-- Numbers of two and of four bytes in a buffer.
abbrev word16 : Bytes → ℕ → ℕ
word16 b i = b i + b (i + 1) * 2 ^ 8

abbrev pub word32 : Bytes → ℕ → ℕ
word32 b i = word16 b i + word16 b (i + 2) * 2 ^ 16

-- What fat32_init takes from the boot sector, the bytes of `fat32_bpb_t`.
abbrev configured : Fat32 → ℕ → Bytes → Fat32
configured f partition_lba bpb =
    let fat_start = add32 partition_lba (word16 bpb 14) in
    record f {
      bytes_per_sector = word16 bpb 11;
      sectors_per_cluster = bpb 13;
      fat_size = word32 bpb 36;
      root_cluster = word32 bpb 44;
      fat_start_lba = fat_start;
      cluster_start_lba = add32 fat_start (mul32 (bpb 16) (word32 bpb 36));
      valid = true;
    }

-- `fat32_init`: whether it succeeds.
unfoldable fat32_init : Fat32 → ℕ → Bool × Fat32
unfolding disk_read_sectors
fat32_init f partition_lba =
    let (done, bpb, disk) = disk_read_sectors f.disk partition_lba 1 f.sector_buffer 0 in
    let f' = record f { sector_buffer = bpb; disk = disk } in
    if not done
    then (false, f')
    else if not (word16 bpb 11 == 512)
    then (false, f')
    else if bpb 16 == 0 || word32 bpb 36 == 0
    then (false, f')
    else (true, configured f' partition_lba bpb)

-- `cluster_to_lba`
abbrev pub cluster_to_lba : Fat32 → ℕ → ℕ
cluster_to_lba f cluster = add32 f.cluster_start_lba (mul32 (sub32 cluster 2) f.sectors_per_cluster)

abbrev pub fat32_eoc : ℕ
fat32_eoc = 0x0FFFFFF8

abbrev pub fat32_bad : ℕ
fat32_bad = 0x0FFFFFF7

-- The sector of the table with a cluster's entry, and the place in it.
abbrev pub entry_sector : Fat32 → ℕ → ℕ
entry_sector f cluster = add32 f.fat_start_lba (mul32 cluster 4 / 512)

abbrev pub entry_offset : ℕ → ℕ
entry_offset cluster = mul32 cluster 4 % 512

-- `fat_read_entry`
unfoldable pub fat_read_entry : Fat32 → ℕ → ℕ × Fat32
unfolding disk_read_sectors
fat_read_entry f cluster =
    let (done, buf, disk) = disk_read_sectors f.disk (entry_sector f cluster) 1 f.sector_buffer 0 in
    let f' = record f { sector_buffer = buf; disk = disk } in
    if not done then (fat32_bad, f') else (word32 buf (entry_offset cluster) % 2 ^ 28, f')

-- `read_cluster` into cluster_buffer: whether it succeeds.
unfoldable pub read_cluster : Fat32 → ℕ → Bool × Fat32
unfolding disk_read_sectors
read_cluster f cluster =
    let (done, buf, disk) =
      disk_read_sectors f.disk (cluster_to_lba f cluster) f.sectors_per_cluster f.cluster_buffer
        0 in
    (done, record f { cluster_buffer = buf; disk = disk })

-- At most `n` characters up to a space.
unfoldable name_part : ℕ → Bytes → ℕ → List ℕ
name_part zero b i = []
name_part (suc n) b i = let rest = name_part n b (i + 1) in if b i == b' ' then [] else b i ∷ rest

-- The loop that turns a C string into lower case; a byte of 0 ends it.
unfoldable pub lower : List ℕ → List ℕ
lower [] = []
lower (c ∷ s) =
    let rest = lower s in
    if c == 0 then [] else (if leb b'A' c && leb c b'Z' then c + 32 else c) ∷ rest

-- `fat_name_to_str`, for the 11 bytes from `i` on: the C string.
unfoldable pub fat_name_to_str : Bytes → ℕ → List ℕ
unfolding name_part lower
fat_name_to_str b i =
    let extension = if b (i + 8) == b' ' then [] else b'.' ∷ name_part 3 b (i + 8) in
    lower (name_part 8 b i ++ extension)

-- A call of the callback of fat32_list_dir: the name, whether it is a directory, and the size.
pub record Listed : Type 0 where
  pub name : List ℕ
  pub is_dir : Bool
  pub size : ℕ

abbrev pub listed : Bytes → ℕ → Listed
listed b i = record {
  name = fat_name_to_str b i;
  is_dir = not (b (i + 11) / 16 % 2 == 0);
  size = word32 b (i + 28);
}

-- The entries that fat32_list_dir passes over: deleted, parts of long names, labels, and dots.
abbrev is_skipped : Bytes → ℕ → Bool
is_skipped b i =
    b i == 0xE5 || (b (i + 11) % 16 == 15 || (not (b (i + 11) / 8 % 2 == 0) || b i == b'.'))

-- The inner loop over `n` more entries, from the one at `i` on: whether the directory ends, and the calls.
unfoldable list_entries : ℕ → Bytes → ℕ → Bool × List Listed
list_entries zero b i = (false, [])
list_entries (suc n) b i =
    let (end, calls) = list_entries n b (i + 32) in
    if b i == 0
    then (true, [])
    else if is_skipped b i
    then (end, calls)
    else (end, listed b i ∷ calls)

abbrev pub entries_per_cluster : Fat32 → ℕ
entries_per_cluster f = f.sectors_per_cluster * 512 / 32

-- The outer loop, with fuel: success, the calls and the state, or `none` where it goes on.
unfoldable list_loop : ℕ → Fat32 → ℕ → List Listed → Option (Bool × List Listed × Fat32)
unfolding read_cluster fat_read_entry list_entries
list_loop zero f cluster calls = none
list_loop (suc n) f cluster calls =
    let (done, f1) = read_cluster f cluster in
    let (end, more) = list_entries (entries_per_cluster f1) f1.cluster_buffer 0 in
    let (next, f2) = fat_read_entry f1 cluster in
    let rest = list_loop n f2 next (calls ++ more) in
    if not (ltb cluster fat32_eoc)
    then some (true, calls, f)
    else if not done
    then some (false, calls, f1)
    else if end
    then some (true, calls ++ more, f1)
    else rest

-- `fat32_list_dir`
unfoldable fat32_list_dir : ℕ → Fat32 → ℕ → Option (Bool × List Listed × Fat32)
unfolding list_loop
fat32_list_dir fuel f cluster =
    if not f.valid then some (false, [], f) else list_loop fuel f cluster []

-- The bytes that a round of fat32_read_file copies.
abbrev pub to_copy : Fat32 → ℕ → ℕ → ℕ
to_copy f max_size bytes_read =
    let size = f.sectors_per_cluster * 512 in
    if ltb max_size (add32 bytes_read size) then max_size - bytes_read else size

-- The loop of fat32_read_file, with fuel: the result (`none` for -1), the buffer and the state.
unfoldable pub read_rounds : ℕ → Fat32 → Bytes → ℕ → ℕ → ℕ → Option (Option ℕ × Bytes × Fat32)
unfolding read_cluster fat_read_entry memcpy
read_rounds zero f buffer max_size bytes_read cluster = none
read_rounds (suc n) f buffer max_size bytes_read cluster =
    let (done, f1) = read_cluster f cluster in
    let count = to_copy f1 max_size bytes_read in
    let buffer' = memcpy buffer bytes_read f1.cluster_buffer 0 count in
    let (next, f2) = fat_read_entry f1 cluster in
    let rest = read_rounds n f2 buffer' max_size (add32 bytes_read count) next in
    if not (ltb cluster fat32_eoc && ltb bytes_read max_size)
    then some (some bytes_read, buffer, f)
    else if not done
    then some (none, buffer, f1)
    else rest

-- `fat32_read_file`
unfoldable pub fat32_read_file : ℕ → Fat32 → ℕ → Bytes → ℕ → Option (Option ℕ × Bytes × Fat32)
unfolding read_rounds
fat32_read_file fuel f cluster buffer max_size =
    if not f.valid then some (none, buffer, f) else read_rounds fuel f buffer max_size 0 cluster

-- What the inner loop of fat32_find_entry finds: the end of the directory, an entry's place, or neither.
pub data Found : Type 0 where
  ended : Found
  at : ℕ → Found
  nothing : Found

unfoldable pub find_name : ℕ → Bytes → ℕ → List ℕ → Found
unfolding fat_name_to_str strcmp
find_name zero b i name = nothing
find_name (suc n) b i name =
    let rest = find_name n b (i + 32) name in
    if b i == 0
    then ended
    else if b i == 0xE5 || b (i + 11) % 16 == 15
    then rest
    else if strcmp (fat_name_to_str b i) name == 0
    then at i
    else rest

-- The outer loop, with fuel: the 32 bytes of the entry, `none` for -1.
unfoldable find_loop : ℕ → Fat32 → ℕ → List ℕ → Option (Option Bytes × Fat32)
unfolding read_cluster fat_read_entry find_name
find_loop zero f cluster name = none
find_loop (suc n) f cluster name =
    let (done, f1) = read_cluster f cluster in
    let found = find_name (entries_per_cluster f1) f1.cluster_buffer 0 name in
    let (next, f2) = fat_read_entry f1 cluster in
    let rest = find_loop n f2 next name in
    if not (ltb cluster fat32_eoc)
    then some (none, f)
    else if not done
    then some (none, f1)
    else elim found [
      | ended ↦ some (none, f1)
      | at i ↦ some (some (λ j. f1.cluster_buffer (i + j)), f1)
      | nothing ↦ rest
    ]

-- `fat32_find_entry`
unfoldable fat32_find_entry : ℕ → Fat32 → ℕ → List ℕ → Option (Option Bytes × Fat32)
unfolding find_loop
fat32_find_entry fuel f cluster name =
    if not f.valid then some (none, f) else find_loop fuel f cluster name
