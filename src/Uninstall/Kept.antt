-- ===== src/Uninstall/Kept.antt =====
-- What the removal keeps and what it removes.
use mpd_virt_macos.Base.{
  Bool, false, List, [], ◌∷◌, ◌++◌, ◌==◌, list_eq, nat_eq, list_beq_iff, if◌then◌else◌, Result, ok,
  err, ◌≡◌, ◌≢◌, refl, sym, arith, Bool-cases, inl, inr, Result-cases, append_assoc,
}
use mpd_virt_macos.Text.{Text, codes}
use mpd_virt_macos.Fs.{FilePath, IoError, not_exist, failed, Fs, read_dir}
use mpd_virt_macos.Fs.Laws.{SameAt, remove_all-SameAt, is_under_sibling, >>-SameAt}
use mpd_virt_macos.Paths.{conf, ca_root}
use mpd_virt_macos.Uninstall.{
  base_of, remove_path, remove_but, wipe_conf, wipe_each, wipe_listed, wipe_host_state,
}

base_of-append : (p : FilePath) (a : Text) → base_of (p ++ a ∷ []) ≡ a
unfolding base_of
base_of-append [] a = refl
base_of-append (b ∷ []) a = refl
base_of-append (b ∷ c ∷ p) a = base_of-append (c ∷ p) a

differs : (a b : Text) → (a == b) ≡ false → a ≢ b
differs a b h e = ground (arith, list_beq_iff a b)

pub base_of-conf : (root : FilePath) → base_of (conf root) ≡ codes "conf"
unfolding conf
base_of-conf root = base_of-append root (codes "conf")

base_of-ca_root : (root : FilePath) → base_of (ca_root root) ≡ codes "caroot"
unfolding ca_root
base_of-ca_root root =
    rw (sym (append_assoc root (codes "conf" ∷ []) (codes "caroot" ∷ [])))
      (base_of-append (root ++ codes "conf" ∷ []) (codes "caroot"))

-- The file is in the directory of the root CA.
module _ (root rest : FilePath) where
  abbrev ca_file : FilePath
  ca_file = root ++ codes "conf" ∷ codes "caroot" ∷ rest

  sibling_kept :
      (n : Text) (fs : Fs)
      → n ≢ codes "caroot"
      → SameAt ca_file fs (remove_path (conf root ++ n ∷ []) fs).0
  unfolding conf
  sibling_kept n fs h = remove_all-SameAt ca_file (conf root ++ n ∷ []) fs (
      rw (append_assoc root (codes "conf" ∷ []) (n ∷ [])) (
        rw
          (
            sym (append_assoc root (codes "conf" ∷ []) (n ∷ [])),
            sym (append_assoc root (codes "conf" ∷ []) (codes "caroot" ∷ rest)),
          )
          (is_under_sibling (root ++ codes "conf" ∷ []) [] rest n (codes "caroot") h)))

  remove_but_kept :
      (es : List (Text × Bool)) (fs : Fs)
      → SameAt ca_file fs (remove_but (conf root) (codes "caroot") es fs).0
  unfolding remove_but
  remove_but_kept [] fs = (refl, refl)
  remove_but_kept ((n, d) ∷ es) fs = elim (Bool-cases (n == codes "caroot")) [
    | inl e ↦ rw e (remove_but_kept es fs)
    | inr e ↦ rw e (
        >>-SameAt (remove_path (conf root ++ n ∷ [])) (remove_but (conf root) (codes "caroot") es)
          fs ca_file (sibling_kept n fs (differs n (codes "caroot") e))
          (remove_but_kept es (remove_path (conf root ++ n ∷ []) fs).0))
  ]

  wipe_conf_kept : (fs : Fs) → SameAt ca_file fs (wipe_conf root fs).0
  unfolding wipe_conf
  wipe_conf_kept fs = rw (base_of-ca_root root) (elim (Result-cases (read_dir (conf root) fs)) [
    | inl (es, e) ↦ rw e (remove_but_kept es fs)
    | inr (x, e) ↦ rw e (refl, refl)
  ])

  entry_kept :
      (n : Text) (fs : Fs)
      → SameAt ca_file fs
          ((if n == codes "conf" then wipe_conf root else remove_path (root ++ n ∷ [])) fs).0
  entry_kept n fs = elim (Bool-cases (n == codes "conf")) [
    | inl e ↦ rw e (wipe_conf_kept fs)
    | inr e ↦ rw e (
        remove_all-SameAt ca_file (root ++ n ∷ []) fs (
          is_under_sibling root [] (codes "caroot" ∷ rest) n (codes "conf")
            (differs n (codes "conf") e)))
  ]

  wipe_each_kept : (es : List (Text × Bool)) (fs : Fs) → SameAt ca_file fs (wipe_each root es fs).0
  unfolding wipe_each
  wipe_each_kept [] fs = (refl, refl)
  wipe_each_kept ((n, d) ∷ es) fs = rw (base_of-conf root) (
      >>-SameAt (if n == codes "conf" then wipe_conf root else remove_path (root ++ n ∷ []))
        (wipe_each root es) fs ca_file (entry_kept n fs)
        (wipe_each_kept es
          ((if n == codes "conf" then wipe_conf root else remove_path (root ++ n ∷ [])) fs).0))

  -- The removal of the host's state changes nothing in the directory of the root CA, whether it succeeds
  -- or stops at an error, and whatever the tree held.
  pub wipe_host_state_kept : (fs : Fs) → SameAt ca_file fs (wipe_host_state root fs).0
  unfolding wipe_host_state
  wipe_host_state_kept fs = listed_kept (read_dir root fs)
    where
      listed_kept :
          (r : Result IoError (List (Text × Bool))) → SameAt ca_file fs (wipe_listed root r fs).0
      listed_kept (ok es) = wipe_each_kept es fs
      listed_kept (err not_exist) = (refl, refl)
      listed_kept (err failed) = (refl, refl)
