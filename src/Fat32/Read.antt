-- ===== src/Fat32/Read.antt =====
-- kernel/fat32.c: what fat32_read_file reads.
use os_u.Prelude.{ℕ, ◌≤◌, ◌<◌, ◌≡◌, true, Option, some, List, Bytes}
use os_u.Disk.Laws.{Works}
use os_u.Fat32.{Fat32}
use os_u.Fat32.Clusters.{with_buffers}
use os_u.Fat32.Counts.{total, Holds}

-- What the rounds give from any contents of the buffers.
abbrev pub Reads : Fat32 → List ℕ → Bytes → ℕ → ℕ → Option (Option ℕ × Bytes × Fat32) → Type 0
Reads f cs buffer max_size read o =
    (sector cluster after : Bytes) × (o
      ≡ some (some (total f cs max_size read), after, with_buffers f sector cluster))
    × Holds f cs buffer after read (total f cs max_size read)

-- A file system on a drive of which no transfer fails, with clusters that fit into cluster_buffer.
pub record IsMounted (f : Fat32) : Type 0 where
  pub valid : f.valid ≡ true
  pub works : Works f.disk
  pub some_sectors : 0 < f.sectors_per_cluster
  pub fits : f.sectors_per_cluster ≤ 8
