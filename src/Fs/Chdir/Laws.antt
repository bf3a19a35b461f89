-- ===== src/Fs/Chdir/Laws.antt =====
-- kernel/fs.c: where fs_chdir leads.
use os_u.Prelude.{◌≡◌, refl, true, [], ◌∷◌, arith}
use os_u.Cstring.{strcmp, strlen}
use os_u.Fs.State.{Fs, ok}
use os_u.Fs.Chdir.{at_root, chdir_relative, chdir_from, fs_chdir, fs_getcwd}

-- Once the file system is ready, fs_chdir of "/" goes to the root from everywhere, and fs_getcwd
-- gives "/" there; fs_chdir of ".." at the root succeeds and changes nothing.
pub fs_chdir-root :
    (fs : Fs)
    → fs.fs_ready ≡ true
    → (fs_chdir fs (b'/' ∷ []) ≡ (ok, at_root fs))
      × ((fs_getcwd (at_root fs)).0 0 ≡ b'/')
      × ((fs_getcwd (at_root fs)).0 1 ≡ 0)
      × (fs.current_dir_cluster ≡ 0 → fs_chdir fs (b'.' ∷ b'.' ∷ []) ≡ (ok, fs))
unfolding fs_chdir chdir_from chdir_relative fs_getcwd strcmp strlen
fs_chdir-root fs r = (ground arith, refl, refl, λ z. ground arith)
