-- ===== src/Tests/Fat32s.antt =====
-- kernel/fat32.c on a concrete drive.
use os_u.Prelude.{true, [], Bytes, ◌==◌, if◌then◌else◌}
use os_u.Fat32.{Fat32}

-- The table is sector 10: cluster 3 leads to 5, and 5 is the last. The clusters begin at sector 20.
abbrev table : Bytes
table i =
    if i == 12
    then 5
    else if i == 20
    then 0xFF
    else if i == 21
    then 0xFF
    else if i == 22
    then 0xFF
    else if i == 23
    then 0x0F
    else 0

abbrev drive : Fat32
drive = record {
  valid = true;
  fat_start_lba = 10;
  cluster_start_lba = 20;
  root_cluster = 2;
  sectors_per_cluster = 1;
  bytes_per_sector = 512;
  fat_size = 1;
  sector_buffer = λ i. 0;
  cluster_buffer = λ i. 0;
  disk = record { sector = λ l. if l == 10 then table else (λ i. l); polls = [] };
}
