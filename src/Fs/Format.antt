-- ===== src/Fs/Format.antt =====
-- kernel/fs.c: formatting, and fs_init.
use os_u.Prelude.{
  ℕ, ◌+◌, ◌*◌, ◌^◌, Bool, true, false, ◌&&◌, List, [], ◌∷◌, Bytes, memset, ◌==◌, if◌then◌else◌,
  get_or,
}
use os_u.Disk.{disk_read_sectors, disk_write_sectors}
use os_u.Fs.Fat.{fat_set, fat16_eoc, fat_lba_start, root_lba}
use os_u.Fs.State.{Fs, flush_fat, flush_root}

-- `fat16_boot_sector_t` as write_boot_sector fills it: the 62 bytes before the boot code, each field
-- with its low byte first.
abbrev pub boot_fields : List ℕ
boot_fields =
    0xEB ∷ 0x3C ∷ 0x90 ∷ b'M' ∷ b'I' ∷ b'N' ∷ b'I' ∷ b'O' ∷ b'S' ∷ b' ' ∷ b' ' ∷ 0 ∷ 2 ∷ 1 ∷ 1 ∷ 0
    ∷ 1 ∷ 128 ∷ 0 ∷ 0 ∷ 32 ∷ 0xF8 ∷ 32 ∷ 0 ∷ 63 ∷ 0 ∷ 16 ∷ 0 ∷ 0 ∷ 16 ∷ 0 ∷ 0 ∷ 0 ∷ 0 ∷ 0 ∷ 0 ∷ 0x80
    ∷ 0 ∷ 0x29 ∷ 0x06 ∷ 0x02 ∷ 0x26 ∷ 0x20 ∷ b'O' ∷ b'S' ∷ b'U' ∷ b'V' ∷ b'O' ∷ b'L' ∷ b'U' ∷ b'M'
    ∷ b'E' ∷ b' ' ∷ b' ' ∷ b'F' ∷ b'A' ∷ b'T' ∷ b'1' ∷ b'6' ∷ b' ' ∷ b' ' ∷ b' ' ∷ []

-- The whole sector: the boot code is zero, and the signature 0xAA55 stands at its end.
unfoldable pub boot_sector : Bytes
boot_sector = λ i. if i == 510 then 0x55 else if i == 511 then 0xAA else get_or boot_fields i 0

unfoldable pub write_boot_sector : Fs → Bool × Fs
unfolding boot_sector
write_boot_sector fs =
    let (done, d) = disk_write_sectors fs.disk fat_lba_start 1 boot_sector in
    (done, record fs { disk = d })

-- A 16-bit field of a sector.
abbrev pub word_at : Bytes → ℕ → ℕ
word_at b i = b i + b (i + 1) * 2 ^ 8

-- `valid_boot`
unfoldable pub valid_boot : Bytes → Bool
valid_boot bs =
    word_at bs 510 == 0xAA55
    && (word_at bs 11 == 512
        && (bs 13 == 1
            && (word_at bs 14 == 1
                && (bs 16 == 1
                    && (word_at bs 17 == 128 && (word_at bs 19 == 8192 && word_at bs 22 == 32))))))

-- The table of an empty volume.
unfoldable pub empty_fat : Bytes → Bytes
empty_fat fat = fat_set (fat_set (memset fat 0 0 16384) 0 0xFFF8) 1 fat16_eoc

-- `fat_format`
unfoldable pub fat_format : Fs → Bool × Fs
unfolding write_boot_sector flush_fat flush_root empty_fat
fat_format fs =
    let (booted, fs1) = write_boot_sector fs in
    let (fat_done, fs2) = flush_fat (record fs1 { fat_buf = empty_fat fs1.fat_buf }) in
    let (root_done, fs3) = flush_root (record fs2 { root_buf = memset fs2.root_buf 0 0 4096 }) in
    if booted then (if fat_done then (root_done, fs3) else (false, fs2)) else (false, fs1)

-- The reads at the end of fs_init.
unfoldable pub load_tables : Fs → Fs
load_tables fs =
    let (fat_done, fat, d) = disk_read_sectors fs.disk (fat_lba_start + 1) 32 fs.fat_buf 0 in
    let fs1 = record fs { disk = d; fat_buf = fat } in
    let (root_done, root, d') = disk_read_sectors fs1.disk root_lba 8 fs1.root_buf 0 in
    let fs2 = record fs1 { disk = d'; root_buf = root } in
    if fat_done then (if root_done then record fs2 { fs_ready = true } else fs2) else fs1

-- `fs_init`: a disk that cannot be read, or holds no such volume, is formatted.
unfoldable pub fs_init : Fs → Fs
unfolding fat_format load_tables valid_boot
fs_init fs0 =
    let fs = record fs0 { fs_ready = false } in
    let (done, bs, d) = disk_read_sectors fs.disk fat_lba_start 1 (λ i. 0) 0 in
    let fs1 = record fs { disk = d } in
    let (formatted, fs2) = fat_format fs1 in
    if done && valid_boot bs then load_tables fs1 else if formatted then load_tables fs2 else fs2
