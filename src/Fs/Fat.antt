-- ===== src/Fs/Fat.antt =====
-- kernel/fs.c: the file allocation table in memory, and the clusters it hands out.
pub mod Laws
pub mod Free
use os_u.Prelude.{
  ℕ, zero, suc, ◌+◌, ◌-◌, ◌*◌, ◌/◌, ◌%◌, ◌^◌, Bool, true, false, ◌&&◌, ◌||◌, Option, none, some,
  Bytes, update, find_from, add32, sub32, mul32, leb, ◌==◌, if◌then◌else◌,
}

-- `FAT_CLUSTER_MIN` and `FAT_CLUSTER_MAX`: of 8192 sectors the boot sector, 32 sectors of table and 8
-- of root directory are not for data, and a cluster is a sector.
abbrev pub cluster_min : ℕ
cluster_min = 2

abbrev pub cluster_max : ℕ
cluster_max = 8152

-- `FAT16_EOC`
abbrev pub fat16_eoc : ℕ
fat16_eoc = 0xFFFF

-- `c >= FAT_CLUSTER_MIN && c <= FAT_CLUSTER_MAX`
abbrev pub is_cluster : ℕ → Bool
is_cluster c = leb cluster_min c && leb c cluster_max

-- `next >= 0xFFF8 || next == 0x0000`
abbrev pub ends_chain : ℕ → Bool
ends_chain next = leb 0xFFF8 next || next == 0

-- `root_lba`, `data_lba` and `cluster_lba`, which wraps at 32 bits for the clusters 0 and 1.
abbrev pub fat_lba_start : ℕ
fat_lba_start = 4096

abbrev pub root_lba : ℕ
root_lba = fat_lba_start + 1 + 1 * 32

abbrev pub data_lba : ℕ
data_lba = fat_lba_start + (1 + 1 * 32 + 8)

abbrev pub cluster_lba : ℕ → ℕ
cluster_lba c = add32 data_lba (mul32 (sub32 c cluster_min) 1)

-- `fat_get`: an entry is two bytes, the low one first.
unfoldable pub fat_get : Bytes → ℕ → ℕ
fat_get fat c = fat (c * 2) + fat (c * 2 + 1) * 2 ^ 8

-- `fat_set`
unfoldable pub fat_set : Bytes → ℕ → ℕ → Bytes
fat_set fat c v = update (update fat (c * 2) (v % 2 ^ 8)) (c * 2 + 1) (v / 2 ^ 8 % 2 ^ 8)

-- `alloc_cluster`: the first free cluster, which becomes the end of a chain; `none` is the result 0.
unfoldable pub alloc_cluster : Bytes → Option ℕ × Bytes
alloc_cluster fat =
    elim (find_from (λ c. fat_get fat c == 0) (cluster_max + 1 - cluster_min) cluster_min) [
      | none ↦ (none, fat)
      | some c ↦ (some c, fat_set fat c fat16_eoc)
    ]

-- `free_chain`: the loop, with fuel. `none` means that the fuel ran out.
unfoldable pub free_chain : ℕ → Bytes → ℕ → Option Bytes
free_chain zero fat c = if is_cluster c then none else some fat
free_chain (suc n) fat c =
    let next = fat_get fat c in
    let fat' = fat_set fat c 0 in
    let rest = free_chain n fat' next in
    if is_cluster c then (if ends_chain next then some fat' else rest) else some fat
