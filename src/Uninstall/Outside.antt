-- ===== src/Uninstall/Outside.antt =====
-- The removal of the host's state, seen from outside the root.
use mpd_virt_macos.Base.{
  Bool, [], ◌∷◌, ◌++◌, List, ◌==◌, list_eq, nat_eq, if◌then◌else◌, Result, ok, err, refl,
  Bool-cases, Result-cases, inl, inr,
}
use mpd_virt_macos.Text.{Text}
use mpd_virt_macos.Fs.{FilePath, IoError, not_exist, failed, Fs, read_dir}
use mpd_virt_macos.Fs.Laws.{SameAt, >>-SameAt, remove_all-SameAt}
use mpd_virt_macos.Fs.Apart.{Apart, Apart-deep}
use mpd_virt_macos.Paths.{conf, ca_root}
use mpd_virt_macos.Uninstall.{
  base_of, remove_path, remove_but, wipe_conf, wipe_each, wipe_listed, wipe_host_state,
}

module _ (q root : FilePath) (a : Apart root q) where
  child_kept :
      (p : FilePath) (n : Text) (fs : Fs) → Apart p q → SameAt q fs (remove_path (p ++ n ∷ []) fs).0
  child_kept p n fs h = remove_all-SameAt q (p ++ n ∷ []) fs (Apart-deep p q (n ∷ []) h).0

  conf_out : Apart (conf root) q
  unfolding conf
  conf_out = Apart-deep root q _ a

  remove_but_out :
      (kept : Text) (es : List (Text × Bool)) (fs : Fs)
      → SameAt q fs (remove_but (conf root) kept es fs).0
  unfolding remove_but
  remove_but_out kept [] fs = (refl, refl)
  remove_but_out kept ((n, d) ∷ es) fs = elim (Bool-cases (n == kept)) [
    | inl e ↦ rw e (remove_but_out kept es fs)
    | inr e ↦ rw e (
        >>-SameAt (remove_path (conf root ++ n ∷ [])) (remove_but (conf root) kept es) fs q
          (child_kept (conf root) n fs conf_out)
          (remove_but_out kept es (remove_path (conf root ++ n ∷ []) fs).0))
  ]

  wipe_conf_out : (fs : Fs) → SameAt q fs (wipe_conf root fs).0
  unfolding wipe_conf
  wipe_conf_out fs = elim (Result-cases (read_dir (conf root) fs)) [
    | inl (es, e) ↦ rw e (remove_but_out (base_of (ca_root root)) es fs)
    | inr (x, e) ↦ rw e (refl, refl)
  ]

  entry_out :
      (n : Text) (fs : Fs)
      → SameAt q fs
          ((if n == base_of (conf root) then wipe_conf root else remove_path (root ++ n ∷ [])) fs).0
  entry_out n fs = elim (Bool-cases (n == base_of (conf root))) [
    | inl e ↦ rw e (wipe_conf_out fs)
    | inr e ↦ rw e (child_kept root n fs a)
  ]

  wipe_each_out : (es : List (Text × Bool)) (fs : Fs) → SameAt q fs (wipe_each root es fs).0
  unfolding wipe_each
  wipe_each_out [] fs = (refl, refl)
  wipe_each_out ((n, d) ∷ es) fs =
      >>-SameAt (if n == base_of (conf root) then wipe_conf root else remove_path (root ++ n ∷ []))
        (wipe_each root es) fs q (entry_out n fs) (wipe_each_out es _)

  -- The removal changes nothing at a path that is apart from the root.
  pub wipe_host_state_out : (fs : Fs) → SameAt q fs (wipe_host_state root fs).0
  unfolding wipe_host_state
  wipe_host_state_out fs = listed_out (read_dir root fs)
    where
      listed_out : (r : Result IoError (List (Text × Bool))) → SameAt q fs (wipe_listed root r fs).0
      listed_out (ok es) = wipe_each_out es fs
      listed_out (err not_exist) = (refl, refl)
      listed_out (err failed) = (refl, refl)
