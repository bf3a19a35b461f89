-- ===== src/Disk.antt =====
-- kernel/disk.c: the ATA driver. The drive is outside: it is a record of its sectors and of how its
-- next transfers end.
pub mod Laws
pub mod Poll
use os_u.Prelude.{
  ℕ, zero, suc, ◌+◌, ◌-◌, ◌*◌, ◌/◌, ◌%◌, ◌^◌, Bool, true, false, List, [], ◌∷◌, Bytes, update,
  memcpy, ◌==◌, if◌then◌else◌,
}

-- `sector lba` is the 512 bytes of a sector. `polls` says whether each coming ata_poll succeeds; a
-- drive for which nothing more is said succeeds.
pub record Disk : Type 0 where
  pub sector : ℕ → Bytes
  pub polls : List Bool

-- The result of one ata_poll, and the drive after it.
unfoldable pub next_poll : List Bool → Bool × List Bool
next_poll [] = (true, [])
next_poll (r ∷ rs) = (r, rs)

-- The registers that ata_select_lba writes, as (port, byte) pairs in order.
unfoldable pub ata_select_lba : ℕ → ℕ → List (ℕ × ℕ)
ata_select_lba lba count =
    (0x1F6, 0xE0 + lba / 2 ^ 24 % 16)
    ∷ (0x1F2, count)
    ∷ (0x1F3, lba % 256)
    ∷ (0x1F4, lba / 2 ^ 8 % 256)
    ∷ (0x1F5, lba / 2 ^ 16 % 256)
    ∷ []

-- The loop of disk_read_sectors with `n` sectors left, from the `s`-th on: success, the buffer, the
-- drive. The words come in the order of the sector's bytes.
read_loop : Disk → ℕ → ℕ → ℕ → Bytes → ℕ → Bool × Bytes × Disk
read_loop d lba zero s buf off = (true, buf, d)
read_loop d lba (suc n) s buf off =
    let (done, polls) = next_poll d.polls in
    let d' = record d { polls = polls } in
    let rest =
      read_loop d' lba n (s + 1) (memcpy buf (off + s * 512) (d.sector (lba + s)) 0 512) off in
    if done then rest else (false, buf, d')

-- `disk_read_sectors(lba, count, buf + off)`; a count of 0 asks nothing of the drive.
unfoldable pub disk_read_sectors : Disk → ℕ → ℕ → Bytes → ℕ → Bool × Bytes × Disk
unfolding read_loop next_poll
disk_read_sectors d lba count buf off = read_loop d lba count 0 buf off

-- The 512 bytes of a buffer from an index on go to a sector.
abbrev pub put_sector : (ℕ → Bytes) → ℕ → Bytes → ℕ → ℕ → Bytes
put_sector sectors k b from = λ l. if l == k then (λ j. b (from + j)) else sectors l

-- The loop of disk_write_sectors with `n` sectors left, from the `s`-th on.
write_loop : Disk → ℕ → ℕ → ℕ → Bytes → Bool × Disk
write_loop d lba zero s buf = (true, d)
write_loop d lba (suc n) s buf =
    let (done, polls) = next_poll d.polls in
    let d' = record d { polls = polls } in
    let rest =
      write_loop (record d' { sector = put_sector d.sector (lba + s) buf (s * 512) }) lba n (s + 1)
        buf in
    if done then rest else (false, d')

-- `disk_write_sectors(lba, count, buf)`
unfoldable pub disk_write_sectors : Disk → ℕ → ℕ → Bytes → Bool × Disk
unfolding write_loop next_poll
disk_write_sectors d lba count buf = write_loop d lba count 0 buf
