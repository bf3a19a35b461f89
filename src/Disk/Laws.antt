-- ===== src/Disk/Laws.antt =====
-- kernel/disk.c: what a read delivers and what a write stores.
use os_u.Prelude.{
  ℕ, zero, suc, ◌+◌, ◌-◌, ◌*◌, ◌/◌, ◌%◌, ◌^◌, ◌≤◌, ◌<◌, ◌≡◌, ◌⊎◌, refl, true, false, [], ◌∷◌, arith,
  Bytes, memcpy, memcpy-at, in_range, if◌then◌else◌,
}
use os_u.Disk.{
  Disk, next_poll, ata_select_lba, read_loop, disk_read_sectors, put_sector, write_loop,
  disk_write_sectors,
}

-- A drive of which no transfer fails.
abbrev pub Works : Disk → Type 0
Works d = d.polls ≡ []

-- For a sector number below 2^28, the five registers that ata_select_lba writes give the drive back
-- the number and the count.
pub ata_select_lba_lem :
    (lba count d c l0 l1 l2 : ℕ)
    → lba < 2 ^ 28
    → ata_select_lba lba count
      ≡ (0x1F6, d) ∷ (0x1F2, c) ∷ (0x1F3, l0) ∷ (0x1F4, l1) ∷ (0x1F5, l2) ∷ []
    → (d % 16 * 2 ^ 24 + l2 * 2 ^ 16 + l1 * 2 ^ 8 + l0 ≡ lba) × (d / 16 ≡ 14) × (c ≡ count)
unfolding ata_select_lba
ata_select_lba_lem lba count d c l0 l1 l2 h e = ground arith

write_loop_lem :
    (d : Disk) (lba n s : ℕ) (buf : Bytes)
    → Works d
    → let (done, d') = write_loop d lba n s buf in
      (done ≡ true)
      × Works d'
      × ((l j : ℕ)
          → d'.sector l j
            ≡ (if in_range (lba + s) n l then buf ((l - lba) * 512 + j) else d.sector l j))
unfolding write_loop next_poll
write_loop_lem d lba zero s buf w = (refl, w, λ l j. ground arith)
write_loop_lem d lba (suc n) s buf w =
    let d' : Disk = record d { sector = put_sector d.sector (lba + s) buf (s * 512) } in
    let ih = write_loop_lem d' lba n (s + 1) buf w in
    (ground (arith, ih.0), ground (arith, ih.1), λ l j. ground (arith, ih.2 l j))

read_loop_lem :
    (d : Disk) (lba n s : ℕ) (buf : Bytes) (off : ℕ)
    → Works d
    → let (done, buf', d') = read_loop d lba n s buf off in
      (done ≡ true)
      × (d' ≡ d)
      × ((j : ℕ)
          → buf' j ≡ (
              if in_range (off + s * 512) (n * 512) j
              then d.sector (lba + (j - off) / 512) ((j - off) % 512)
              else buf j))
unfolding read_loop next_poll
read_loop_lem d lba zero s buf off w = (refl, refl, λ j. ground arith)
read_loop_lem d lba (suc n) s buf off w =
    let buf' = memcpy buf (off + s * 512) (d.sector (lba + s)) 0 512 in
    let ih = read_loop_lem d lba n (s + 1) buf' off w in
    (
      ground (arith, ih.0),
      ground (arith, ih.1),
      λ j. ground (arith, ih.2 j, memcpy-at buf (off + s * 512) (d.sector (lba + s)) 0 512 j),
    )

pub disk_write_lem :
    (d : Disk) (lba count : ℕ) (buf : Bytes)
    → Works d
    → let (done, d') = disk_write_sectors d lba count buf in
      (done ≡ true)
      × Works d'
      × ((l j : ℕ)
          → d'.sector l j
            ≡ (if in_range lba count l then buf ((l - lba) * 512 + j) else d.sector l j))
unfolding disk_write_sectors
disk_write_lem d lba count buf w =
    let e = write_loop_lem d lba count 0 buf w in (e.0, e.1, λ l j. ground (arith, e.2 l j))

pub disk_read_lem :
    (d : Disk) (lba count : ℕ) (buf : Bytes) (off : ℕ)
    → Works d
    → let (done, buf', d') = disk_read_sectors d lba count buf off in
      (done ≡ true)
      × (d' ≡ d)
      × ((j : ℕ)
          → buf' j ≡ (
              if in_range off (count * 512) j
              then d.sector (lba + (j - off) / 512) ((j - off) % 512)
              else buf j))
unfolding disk_read_sectors
disk_read_lem d lba count buf off w =
    let e = read_loop_lem d lba count 0 buf off w in (e.0, e.1, λ j. ground (arith, e.2 j))

-- On a drive of which no transfer fails, sectors that are written and read again come back byte for
-- byte in the reader's buffer, of which nothing else changes.
pub disk_read-write :
    (d : Disk) (lba count : ℕ) (src buf : Bytes) (off : ℕ)
    → Works d
    → let (written, d') = disk_write_sectors d lba count src in
      let (done, buf', d'') = disk_read_sectors d' lba count buf off in
      (written ≡ true)
      × (done ≡ true)
      × ((j : ℕ) → buf' j ≡ (if in_range off (count * 512) j then src (j - off) else buf j))
disk_read-write d lba count src buf off w =
    let e = disk_write_lem d lba count src w in
    let d' = (disk_write_sectors d lba count src).1 in
    let r = disk_read_lem d' lba count buf off e.1 in
    (e.0, r.0, λ j. ground (arith, r.2 j, e.2 (lba + (j - off) / 512) ((j - off) % 512)))

write_loop-outside :
    (d : Disk) (lba n s : ℕ) (buf : Bytes) (l : ℕ)
    → in_range (lba + s) n l ≡ false
    → (write_loop d lba n s buf).1.sector l ≡ d.sector l
unfolding write_loop next_poll
write_loop-outside d lba zero s buf l h = refl
write_loop-outside d lba (suc n) s buf l h =
    let polls = (next_poll d.polls).1 in
    let d' : Disk = record {
      sector = put_sector d.sector (lba + s) buf (s * 512);
      polls = polls;
    } in
    ground (arith, write_loop-outside d' lba n (s + 1) buf l)

-- A write, also one that fails on the way, changes no sector but the `count` that it names.
pub disk_write-outside :
    (d : Disk) (lba count : ℕ) (buf : Bytes) (l : ℕ)
    → (l < lba) ⊎ (lba + count ≤ l)
    → (disk_write_sectors d lba count buf).1.sector l ≡ d.sector l
unfolding disk_write_sectors
disk_write-outside d lba count buf l h = write_loop-outside d lba count 0 buf l (ground arith)
