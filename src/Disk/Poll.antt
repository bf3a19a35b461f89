-- ===== src/Disk/Poll.antt =====
-- kernel/disk.c: ata_poll, over the bytes that the status port gives on successive reads.
use os_u.Prelude.{
  ℕ, ◌/◌, ◌%◌, ◌≡◌, Bool, true, false, ◌||◌, not, Option, none, some, List, [], ◌∷◌, ◌++◌, arith,
  ◌==◌, if◌then◌else◌,
}

-- `status & ATA_SR_BSY`, `status & (ATA_SR_ERR | ATA_SR_DF)` and `status & ATA_SR_DRQ`.
abbrev pub is_busy : ℕ → Bool
is_busy s = s / 0x80 % 2 == 1

abbrev pub is_error : ℕ → Bool
is_error s = s % 2 == 1 || s / 0x20 % 2 == 1

abbrev pub is_data_ready : ℕ → Bool
is_data_ready s = s / 8 % 2 == 1

-- The second loop, entered with a status that is no error. `none`: it still polls.
unfoldable pub wait_data : ℕ → List ℕ → Option Bool
wait_data s [] = if is_data_ready s then some true else none
wait_data s (s' ∷ rest) =
    let next = wait_data s' rest in
    if is_data_ready s then some true else if is_error s' then some false else next

-- `ata_poll`: `some true` is the result 0, `some false` the result -1.
unfoldable pub ata_poll : List ℕ → Option Bool
unfolding wait_data
ata_poll [] = none
ata_poll (s ∷ rest) =
    let again = ata_poll rest in
    if is_busy s then again else if is_error s then some false else wait_data s rest

-- All statuses of the list are busy.
abbrev pub AllBusy : List ℕ → Type 0
AllBusy [] = Unit
AllBusy (s ∷ rest) = (is_busy s ≡ true) × AllBusy rest

-- All statuses of the list are not busy and report neither data nor an error.
abbrev pub AllIdle : List ℕ → Type 0
AllIdle [] = Unit
AllIdle (s ∷ rest) =
    (is_busy s ≡ false) × (is_data_ready s ≡ false) × (is_error s ≡ false) × AllIdle rest

wait_data-ready : (s : ℕ) (rest : List ℕ) → is_data_ready s ≡ true → wait_data s rest ≡ some true
unfolding wait_data
wait_data-ready s [] h = ground arith
wait_data-ready s (x ∷ rest) h = ground arith

wait_data-idle :
    (s : ℕ) (idle rest : List ℕ) (last : ℕ)
    → is_data_ready s ≡ false
    → AllIdle idle
    → (is_error last || is_data_ready last) ≡ true
    → wait_data s (idle ++ last ∷ rest) ≡ some (not (is_error last))
unfolding wait_data
wait_data-idle s [] rest last e i h = ground (arith, wait_data-ready last rest)
wait_data-idle s (x ∷ idle) rest last e i h = ground (arith, wait_data-idle x idle rest last)

-- ata_poll waits while the drive is busy and then while it reports nothing, and it succeeds or
-- fails by the first status after these that reports data or an error; an error wins.
pub ata_poll_lem :
    (busy idle rest : List ℕ) (last : ℕ)
    → AllBusy busy
    → AllIdle idle
    → is_busy last ≡ false
    → (is_error last || is_data_ready last) ≡ true
    → ata_poll (busy ++ (idle ++ last ∷ rest)) ≡ some (not (is_error last))
unfolding ata_poll
ata_poll_lem [] [] rest last b i n h = ground (arith, wait_data-ready last rest)
ata_poll_lem [] (x ∷ idle) rest last b i n h =
    ground (arith, wait_data-idle x idle rest last i.1 i.3 h)
ata_poll_lem (x ∷ busy) idle rest last b i n h =
    ground (arith, ata_poll_lem busy idle rest last b.1 i n h)
