-- ===== src/Tests/Files.antt =====
-- Inputs of kernel/fs.c and kernel/vfs.c.
use os_u.Prelude.{
  ℕ, zero, suc, ◌+◌, ◌/◌, ◌%◌, ◌≤◌, ◌<◌, ◌≡◌, ◌≢◌, ◌⊎◌, refl, true, ◌&&◌, none, some, List, [], ◌∷◌,
  arith, Bytes, length, ltb, leb, ◌==◌, if◌then◌else◌,
}
use os_u.Cstring.{memcmp_from, memcmp}
use os_u.Fs.Fat.{fat_get, is_cluster, ends_chain, alloc_cluster, free_chain}
use os_u.Fs.Fat.Laws.{alloc_cluster_total}
use os_u.Fs.Fat.Free.{used_below, Freed, free_chain_total}
use os_u.Fs.State.{Fs, ok}
use os_u.Fs.Chain.{write_cluster_chain, load_cluster_chain}
use os_u.Fs.Chain.Stored.{Stored, last}
use os_u.Fs.Chain.Space.{Reserved, free_count}
use os_u.Fs.Chain.Total.{load-write_cluster_chain}
use os_u.Fs.Dir.{scan, same_name}
use os_u.Cstring.Compare.{AllBytes}
use os_u.Fs.Dir.Search.{IsFound, scan-IsFound}
use os_u.Vfs.{normalize, skip_spaces, copy_name}
use os_u.Vfs.Laws.{IsPlain, normalize_lem}

-- A table with the two reserved entries, and all clusters free.
abbrev formatted : Bytes
formatted = λ i. if ltb i 4 then 255 else 0

abbrev pattern : Bytes
pattern = λ i. i % 251

abbrev filesystem : Fs
filesystem = record {
  disk = record { sector = λ l j. 0; polls = [] };
  fat_buf = formatted;
  root_buf = λ i. 0;
  dir_buf = λ i. 0;
  read_cache = λ i. 0;
  fs_ready = true;
  current_dir_cluster = 0;
  current_path = λ i. 0;
}

reserved_count : (n : ℕ) → (used_below formatted n ≤ 2)
unfolding used_below fat_get
reserved_count zero = omega arith
reserved_count (suc zero) = omega arith
reserved_count (suc (suc n)) = ground (arith, reserved_count (suc n))

enough_room : (600 + 511) / 512 ≤ free_count formatted
enough_room = omega (arith, reserved_count 8153)

formatted-Reserved : Reserved formatted
unfolding fat_get
formatted-Reserved = ((λ h. omega arith), (λ h. omega arith))

-- Cluster 2 is the last of a chain, which holds a text of 3 bytes.
abbrev with_file : Fs
with_file = record filesystem {
  disk = record { sector = λ l j. 7; polls = [] };
  fat_buf = λ i. 255;
}

with_file_end : ends_chain (fat_get with_file.fat_buf 2) ≡ true
unfolding fat_get
with_file_end = refl

with_file-Stored : Stored with_file.fat_buf with_file.disk.sector (λ i. 7) 3 2 0
with_file-Stored = last refl (omega arith) (omega arith) (λ k h. refl) with_file_end

abbrev letter : List ℕ
letter = b'a' ∷ []

-- Entry 0 is deleted, and entry 1 has a name of 11 spaces.
abbrev directory : Bytes
directory = λ i. if i == 0 then 0xE5 else if leb 32 i && ltb i 43 then b' ' else 0

abbrev spaces : Bytes
spaces = λ i. b' '

directory-AllBytes : AllBytes directory
directory-AllBytes i = ground arith

directory-scan : (scan directory spaces 4 0 none).0 ≡ some 1
unfolding scan same_name memcmp memcmp_from
directory-scan = refl

normalize-a : normalize (b' ' ∷ b'/' ∷ b'a' ∷ []) ≡ some (b'a' ∷ [])
unfolding normalize skip_spaces copy_name
normalize-a = refl

load-write_cluster_chain_example :
    let (status, first, fs') = write_cluster_chain filesystem pattern 600 in
    let (got, fs'') = load_cluster_chain fs' first 600 in
    (status ≡ ok)
    × (2 ≤ first)
    × (got ≡ some 600)
    × ((j : ℕ) → j < 600 → fs''.read_cache j ≡ pattern j)
    × (fs''.read_cache 600 ≡ 0)
    × ((d : ℕ)
        → d ≢ 0
        → fat_get filesystem.fat_buf d ≢ 0
        → fat_get fs'.fat_buf d ≡ fat_get filesystem.fat_buf d)
load-write_cluster_chain_example =
    load-write_cluster_chain filesystem pattern 600 (omega arith) (omega arith) refl
      formatted-Reserved enough_room

free_chain_total_example :
    (fat' : Bytes) × (free_chain 8154 formatted 2 ≡ some fat')
    × Freed formatted fat' 2
    × (is_cluster 2 ≡ true → fat_get fat' 2 ≡ 0)
free_chain_total_example = free_chain_total formatted 2

alloc_cluster_total_example :
    let (r, fat') = alloc_cluster formatted in
    ((r ≡ none) × (fat' ≡ formatted) × ((c : ℕ) → 2 ≤ c → c ≤ 8152 → fat_get formatted c ≢ 0))
    ⊎ ((c : ℕ) × (r ≡ some c)
        × (2 ≤ c)
        × (c ≤ 8152)
        × (fat_get formatted c ≡ 0)
        × ((d : ℕ) → 2 ≤ d → d < c → fat_get formatted d ≢ 0)
        × ((d : ℕ) → fat_get fat' d ≡ (if d == c then 0xFFFF else fat_get formatted d)))
alloc_cluster_total_example = alloc_cluster_total formatted

scan-IsFound_example : IsFound directory spaces 4 0 1
scan-IsFound_example =
    scan-IsFound directory spaces 4 0 none 1 directory-AllBytes (λ i. omega arith) directory-scan

normalize_lem_example : (0 < length letter) × (length letter ≤ 23) × IsPlain letter
normalize_lem_example = normalize_lem (b' ' ∷ b'/' ∷ b'a' ∷ []) letter normalize-a
