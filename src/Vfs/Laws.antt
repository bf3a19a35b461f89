-- ===== src/Vfs/Laws.antt =====
-- kernel/vfs.c: what names normalize lets through.
use os_u.Prelude.{
  ℕ, zero, suc, ◌≤◌, ◌<◌, ◌≡◌, ◌≢◌, Option, none, some, List, [], ◌∷◌, arith, length,
}
use os_u.Vfs.{copy_name, not_empty, normalize, skip_spaces, skip_slash}

-- No character of the list is a NUL, a space, a slash or a backslash.
abbrev pub IsPlain : List ℕ → Type 0
IsPlain [] = Unit
IsPlain (c ∷ l) = (c ≢ 0) × (c ≢ b' ') × (c ≢ b'/') × (c ≢ 0x5C) × IsPlain l

not_empty_lem :
    (o : Option (List ℕ)) (l : List ℕ) → not_empty o ≡ some l → (o ≡ some l) × (0 < length l)
not_empty_lem none l h = cc
not_empty_lem (some []) l h = cc
not_empty_lem (some (c ∷ m)) [] h = cc
not_empty_lem (some (c ∷ m)) (d ∷ l) h = (h, omega arith)

copy_name_lem : (n : ℕ) (s l : List ℕ) → copy_name n s ≡ some l → (length l ≤ n) × IsPlain l
unfolding copy_name
copy_name_lem n s [] h = (omega arith, tt)
copy_name_lem zero s (d ∷ l) h = cc
copy_name_lem (suc n) [] (d ∷ l) h = cc
copy_name_lem (suc n) (c ∷ s) (d ∷ l) h = ground (arith, copy_name_lem n s l)

-- What normalize hands to the file system has 1 to 23 characters and no
-- space and no separator in it.
pub normalize_lem :
    (path l : List ℕ) → normalize path ≡ some l → (0 < length l) × (length l ≤ 23) × IsPlain l
unfolding normalize
normalize_lem path l h = ground (
  arith,
  copy_name_lem 23 (skip_slash (skip_spaces path)) l,
  not_empty_lem (copy_name 23 (skip_slash (skip_spaces path))) l,
)
