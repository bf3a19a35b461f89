-- ===== src/Fat32/Clusters.antt =====
-- kernel/fat32.c: a round of fat32_read_file on a drive that works.
use os_u.Prelude.{
  ℕ, suc, ◌+◌, ◌-◌, ◌*◌, ◌/◌, ◌%◌, ◌^◌, ◌≤◌, ◌<◌, ◌≡◌, refl, ◌∙◌, ap, ap₂, sub32, mul32, Bool, true,
  ◌&&◌, Option, none, some, List, [], ◌∷◌, Bytes, memcpy, in_range, add32, ltb, not, if◌then◌else◌,
  arith,
}
use os_u.Disk.{disk_read_sectors}
use os_u.Disk.Laws.{Works, disk_read_lem}
use os_u.Fat32.{
  Fat32, word32, fat32_eoc, cluster_to_lba, entry_sector, entry_offset, fat_read_entry,
  read_cluster, to_copy, read_rounds,
}

-- The table on the drive: an array of bytes, with four for each cluster, of which the upper four bits do
-- not count.
abbrev pub table_byte : Fat32 → ℕ → ℕ
table_byte f k = f.disk.sector (f.fat_start_lba + k / 512) (k % 512)

abbrev pub next_cluster : Fat32 → ℕ → ℕ
next_cluster f c =
    (table_byte f (c * 4)
      + table_byte f (c * 4 + 1) * 2 ^ 8
      + table_byte f (c * 4 + 2) * 2 ^ 16
      + table_byte f (c * 4 + 3) * 2 ^ 24)
    % 2 ^ 28

-- A cluster of the drive: the clusters are counted from 2, and its sectors and its entry have numbers of
-- 32 bits.
pub record IsCluster (f : Fat32) (c : ℕ) : Type 0 where
  pub from : 2 ≤ c
  pub below : c < fat32_eoc
  pub some_sectors : 0 < f.sectors_per_cluster
  pub data_fits :
      f.cluster_start_lba + (c - 2) * f.sectors_per_cluster + f.sectors_per_cluster ≤ 2 ^ 32
  pub table_fits : f.fat_start_lba + c * 4 / 512 < 2 ^ 32

-- The chain of clusters that begins with `c`, in the table on the drive.
pub data Chain (f : Fat32) : ℕ → List ℕ → Type 0 where
  end : {c : ℕ} → fat32_eoc ≤ c → Chain f c []
  link : {c : ℕ} {cs : List ℕ} → IsCluster f c → Chain f (next_cluster f c) cs → Chain f c (c ∷ cs)

-- The bytes of a cluster, which lie in a row behind those of the cluster before it, and the `k`-th byte
-- of a list of clusters.
abbrev pub cluster_size : Fat32 → ℕ
cluster_size f = f.sectors_per_cluster * 512

abbrev pub cluster_byte : Fat32 → ℕ → ℕ → ℕ
cluster_byte f c k =
    f.disk.sector (f.cluster_start_lba + (c - 2) * f.sectors_per_cluster + k / 512) (k % 512)

unfoldable pub file_byte : Fat32 → List ℕ → ℕ → ℕ
file_byte f [] k = 0
file_byte f (c ∷ cs) k =
    let rest = file_byte f cs (k - cluster_size f) in
    if ltb k (cluster_size f) then cluster_byte f c k else rest

-- The same file system with other contents of the buffers.
abbrev pub with_buffers : Fat32 → Bytes → Bytes → Fat32
with_buffers f sector cluster = record f { sector_buffer = sector; cluster_buffer = cluster }

cluster_to_lba_lem :
    (f : Fat32) (c : ℕ)
    → IsCluster f c
    → cluster_to_lba f c ≡ f.cluster_start_lba + (c - 2) * f.sectors_per_cluster
cluster_to_lba_lem f c h =
    let at : sub32 c 2 ≡ c - 2 = omega (arith, h.from, h.below) in
    ap (λ n. add32 f.cluster_start_lba (mul32 n f.sectors_per_cluster)) at
    ∙ omega (arith, h.data_fits, h.some_sectors)

entry_sector_lem :
    (f : Fat32) (c : ℕ) → IsCluster f c → entry_sector f c ≡ f.fat_start_lba + c * 4 / 512
entry_sector_lem f c h = omega (arith, h.below, h.table_fits)

-- The four bytes of an entry lie in one sector.
table_byte_lem :
    (f : Fat32) (c j : ℕ)
    → IsCluster f c
    → j < 4
    → f.disk.sector (entry_sector f c) (entry_offset c + j) ≡ table_byte f (c * 4 + j)
table_byte_lem f c j h l =
    let sector : entry_sector f c ≡ f.fat_start_lba + (c * 4 + j) / 512 =
      entry_sector_lem f c h ∙ omega arith in
    let offset : entry_offset c + j ≡ (c * 4 + j) % 512 = omega (arith, h.below) in
    ap₂ f.disk.sector sector offset

read_cluster_lem :
    (f : Fat32) (c : ℕ)
    → Works f.disk
    → IsCluster f c
    → (buf : Bytes) × (read_cluster f c ≡ (true, with_buffers f f.sector_buffer buf))
      × ((k : ℕ) → k < cluster_size f → buf k ≡ cluster_byte f c k)
unfolding read_cluster
read_cluster_lem f c w is =
    let (done, same, bytes) =
      disk_read_lem f.disk (cluster_to_lba f c) f.sectors_per_cluster f.cluster_buffer 0 w in
    let buf =
      (disk_read_sectors f.disk (cluster_to_lba f c) f.sectors_per_cluster f.cluster_buffer 0).1 in
    let at : (k : ℕ) → f.disk.sector (cluster_to_lba f c + k / 512) (k % 512) ≡ cluster_byte f c k =
      λ k. ap (λ l. f.disk.sector (l + k / 512) (k % 512)) (cluster_to_lba_lem f c is) in
    (buf, rw (done, same) refl, λ k h. ground (arith, bytes k, h) ∙ at k)

-- A byte in the middle of a sector that was read.
in_sector :
    (sector : ℕ → Bytes) (lba j old : ℕ)
    → j < 512
    → (if in_range 0 (1 * 512) j then sector (lba + (j - 0) / 512) ((j - 0) % 512) else old)
      ≡ sector lba j
in_sector sector lba j old h =
    let t : in_range 0 (1 * 512) j ≡ true = ground arith in
    let q : lba + (j - 0) / 512 ≡ lba = omega arith in
    let r : (j - 0) % 512 ≡ j = omega arith in rw (t, q, r) refl

word32-bytes :
    (a b : Bytes) (o p : ℕ)
    → ((j : ℕ) → j < 4 → a (o + j) ≡ b (p + j))
    → word32 a o % 2 ^ 28
      ≡ (b p + b (p + 1) * 2 ^ 8 + b (p + 2) * 2 ^ 16 + b (p + 3) * 2 ^ 24) % 2 ^ 28
word32-bytes a b o p h =
    let to : o ≡ o + 0 = omega arith in
    let from : p + 0 ≡ p = omega arith in
    let at0 = ap a to ∙ h 0 (omega arith) ∙ ap b from in
    let at1 = h 1 (omega arith) in
    let at2 = h 2 (omega arith) in
    let at3 = ap a (assoc o) ∙ h 3 (omega arith) in omega (arith, at0, at1, at2, at3)
  where
    assoc : (o : ℕ) → o + 2 + 1 ≡ o + 3
    assoc o = omega arith

fat_read_entry_lem :
    (f : Fat32) (c : ℕ)
    → Works f.disk
    → IsCluster f c
    → (buf : Bytes) × (fat_read_entry f c ≡ (next_cluster f c, with_buffers f buf f.cluster_buffer))
unfolding fat_read_entry
fat_read_entry_lem f c w is =
    let (done, same, bytes) = disk_read_lem f.disk (entry_sector f c) 1 f.sector_buffer 0 w in
    let buf : Bytes = (disk_read_sectors f.disk (entry_sector f c) 1 f.sector_buffer 0).1 in
    let o = entry_offset c in
    let here : (j : ℕ) → j < 4 → buf (o + j) ≡ table_byte f (c * 4 + j) = λ j l.
      bytes (o + j)
      ∙ in_sector f.disk.sector (entry_sector f c) (o + j) (f.sector_buffer (o + j)) (omega arith)
      ∙ table_byte_lem f c j is l in
    let word : word32 buf o % 2 ^ 28 ≡ next_cluster f c =
      word32-bytes buf (table_byte f) o (c * 4) here in
    (buf, rw (done, same) (ap (λ t. (t, with_buffers f buf f.cluster_buffer)) word))

pub goes_on :
    (c read max_size : ℕ)
    → c < fat32_eoc
    → read < max_size
    → (ltb c fat32_eoc && ltb read max_size) ≡ true
goes_on c read max_size h k = ground arith

pub same_drive :
    (f : Fat32) (sector cluster : Bytes) (c : ℕ)
    → IsCluster f c
    → IsCluster (with_buffers f sector cluster) c
same_drive f sector cluster c h = record {
  from = h.from;
  below = h.below;
  some_sectors = h.some_sectors;
  data_fits = h.data_fits;
  table_fits = h.table_fits;
}

-- A round on a cluster that is not the end: its bytes are copied, as many as are asked for, and the next
-- cluster follows.
pub read_rounds_step :
    (n : ℕ) (f : Fat32) (buffer : Bytes) (max_size read c : ℕ)
    → Works f.disk
    → IsCluster f c
    → read < max_size
    → let count = to_copy f max_size read in
      (sector cluster : Bytes) × (read_rounds (suc n) f buffer max_size read c
        ≡ read_rounds n
            (with_buffers f sector cluster)
            (memcpy buffer read cluster 0 count)
            max_size
            (add32 read count)
            (next_cluster f c))
      × ((k : ℕ) → k < cluster_size f → cluster k ≡ cluster_byte f c k)
unfolding read_rounds
read_rounds_step n f buffer max_size read c w h k =
    let (cluster, loaded, bytes) = read_cluster_lem f c w h in
    let f1 = with_buffers f f.sector_buffer cluster in
    let (sector, entry) = fat_read_entry_lem f1 c w (same_drive f f.sector_buffer cluster c h) in
    let rounds : Bool → Fat32 → ℕ × Fat32 → Option (Option ℕ × Bytes × Fat32) = λ done f1 e.
      let count = to_copy f1 max_size read in
      if not (ltb c fat32_eoc && ltb read max_size)
      then some (some read, buffer, f)
      else if not done
      then some (none, buffer, f1)
      else read_rounds n e.1 (memcpy buffer read f1.cluster_buffer 0 count) max_size
          (add32 read count) e.0 in
    (
      sector,
      cluster,
      ap (λ r. rounds r.0 r.1 (fat_read_entry r.1 c)) loaded
          ∙ ap (rounds true f1) entry
          ∙ rw (goes_on c read max_size h.below k) refl,
      bytes,
    )
