-- ===== src/Uninstall.antt =====
-- go/internal/cli/uninstall.go: the removal of the host's state, which keeps the root CA.
pub mod Kept
pub mod Gone
pub mod Outside
use mpd_virt_macos.Base.{
  ℕ, Bool, true, false, List, [], ◌∷◌, ◌==◌, list_eq, nat_eq, if◌then◌else◌, ◌++◌, Result, ok, err,
}
use mpd_virt_macos.Text.{Text, codes}
use mpd_virt_macos.Fs.{
  FilePath, IoError, not_exist, failed, Fs, Io, ◌>>=◌, ◌>>◌, reads, done, wrap_io, read_dir,
  remove_all,
}
use mpd_virt_macos.Paths.{conf, ca_root}

pub data WipeError : Type 0 where
  not_read not_removed : FilePath → IoError → WipeError

-- `filepath.Base`
unfoldable pub base_of : FilePath → Text
base_of [] = codes "."
base_of (a ∷ []) = a
base_of (a ∷ b ∷ p) = base_of (b ∷ p)

abbrev pub remove_path : FilePath → Io WipeError (Unit {0})
remove_path p = wrap_io (not_removed p) (remove_all p)

-- The loop over the entries of the directory `dir`, but for the one with the name `kept`.
unfoldable pub remove_but : FilePath → Text → List (Text × Bool) → Io WipeError (Unit {0})
remove_but dir kept [] = done
remove_but dir kept ((n, is_dir) ∷ es) =
    if n == kept
    then remove_but dir kept es
    else remove_path (dir ++ n ∷ []) >> remove_but dir kept es

-- What the loop does with the `conf` directory.
unfoldable pub wipe_conf : FilePath → Io WipeError (Unit {0})
unfolding base_of ca_root remove_but
wipe_conf root =
    wrap_io (not_read (conf root)) (reads (read_dir (conf root)))
    >>= remove_but (conf root) (base_of (ca_root root))

unfoldable pub wipe_each : FilePath → List (Text × Bool) → Io WipeError (Unit {0})
unfolding base_of wipe_conf
wipe_each root [] = done
wipe_each root ((n, is_dir) ∷ es) =
    (if n == base_of (conf root) then wipe_conf root else remove_path (root ++ n ∷ []))
    >> wipe_each root es

-- The state is read once at the top; a root that is not there is no error.
abbrev wipe_listed : FilePath → Result IoError (List (Text × Bool)) → Io WipeError (Unit {0})
wipe_listed root (ok es) = wipe_each root es
wipe_listed root (err not_exist) = done
wipe_listed root (err failed) = λ fs. (fs, err (not_read root failed))

-- `wipeHostStateKeepingCA`
unfoldable pub wipe_host_state : FilePath → Io WipeError (Unit {0})
unfolding wipe_each
wipe_host_state root fs = wipe_listed root (read_dir root fs) fs
