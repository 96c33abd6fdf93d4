-- ===== src/Cli/Session/Anchor.antt =====
-- What the commands of a user leave as it is: the root CA.
use mpd_virt_macos.Base.{
  arith, List, [], ◌∷◌, ◌++◌, All, ◌≡◌, ◌∙◌, ok, ◌<◌, length, length-append, append_assoc,
}
use mpd_virt_macos.Text.{Text, codes}
use mpd_virt_macos.Fs.{FilePath, Fs, file, stat}
use mpd_virt_macos.Fs.Laws.{mkdir_all-SameAt, SameAt, Holds}
use mpd_virt_macos.Paths.{ca_root, conf}
use mpd_virt_macos.Paths.Apart.{
  vm_env-Apart, servers-Apart, lan_hosts-Apart, vm_dir-Apart, staging-Apart, images-Apart,
}
use mpd_virt_macos.Machine.{Outside, Mac}
use mpd_virt_macos.Machine.Keeps.{Keeps}
use mpd_virt_macos.Ca.{root_cert_path, root_key_path, load_or_generate_root, file_exists}
use mpd_virt_macos.Cli.Session.{Verb, session}
use mpd_virt_macos.Cli.Session.Spared.{Spares, Shelter}
use mpd_virt_macos.Cli.Session.Sheltered.{Aside, StaysOut, session_kept}
use mpd_virt_macos.Uninstall.{wipe_host_state}
use mpd_virt_macos.Uninstall.Kept.{wipe_host_state_kept}

-- The files of the root CA hold these two texts.
abbrev AnchoredIn : FilePath → Text → Text → Fs → Type 0
AnchoredIn root cert key fs =
    Holds (root_cert_path root) fs cert × Holds (root_key_path root) fs key

abbrev pub Anchored : Outside → Text → Text → Mac → Type 0
Anchored o cert key m = AnchoredIn o.root cert key m.files

stat-Holds : (p : FilePath) (fs : Fs) (t : Text) → Holds p fs t → stat p fs ≡ ok (file t)
unfolding stat
stat-Holds p fs t h = ground arith

held_still :
    {q : FilePath} {t : Text} (fs fs' : Fs) → Holds q fs t → SameAt q fs fs' → Holds q fs' t
held_still fs fs' h s = (s.0 ∙ h.0, s.1 ∙ h.1)

still_anchored :
    (root : FilePath) (cert key : Text) (fs fs' : Fs)
    → ((n : FilePath) → SameAt (ca_root root ++ n) fs fs')
    → AnchoredIn root cert key fs
    → AnchoredIn root cert key fs'
unfolding root_cert_path root_key_path
still_anchored root cert key fs fs' s h = (
  held_still fs fs' h.0 (s (codes "rootCA.pem" ∷ [])),
  held_still fs fs' h.1 (s (codes "rootCA-key.pem" ∷ [])),
)

module _ (root : FilePath) where
  conf_above : (n : FilePath) → length (conf root) < length (ca_root root ++ n)
  unfolding conf ca_root
  conf_above n = omega (
    arith,
    length-append root (codes "conf" ∷ []),
    length-append root (codes "conf" ∷ codes "caroot" ∷ []),
    length-append (root ++ codes "conf" ∷ codes "caroot" ∷ []) n,
  )

  wipe_kept : Spares root (ca_root root) (wipe_host_state root)
  unfolding ca_root
  wipe_kept = record {
    at = λ n fs.
        rw (append_assoc root (codes "conf" ∷ codes "caroot" ∷ []) n)
          (wipe_host_state_kept root n fs);
  }

  ca_sheltered : Shelter root (ca_root root)
  ca_sheltered = record {
    boxes = vm_dir-Apart root;
    envs = vm_env-Apart root;
    servers_out = servers-Apart root;
    hosts_out = lan_hosts-Apart root;
    stagings = staging-Apart root;
    images_out = images-Apart root;
    conf_made = record {
      at = λ n fs. mkdir_all-SameAt (ca_root root ++ n) (conf root) fs (conf_above n);
    };
    wiped_out = wipe_kept;
  }

module _ (o : Outside) (cert key : Text) where
  -- Both files are there, so none is made.
  Keeps-rooted : Keeps (Anchored o cert key) (load_or_generate_root o)
  unfolding load_or_generate_root file_exists
  Keeps-rooted = record {
    at = λ m h.
        rw
          (
            stat-Holds (root_cert_path o.root) m.files cert h.0,
            stat-Holds (root_key_path o.root) m.files key h.1,
          )
          h;
  }

  -- Once the two files of the root CA are there, whatever commands the user types, and however each
  -- ends, both files hold the same bytes at the end, also behind an uninstall. The ssh config, the
  -- temporary directories and the files that the root CA is exported to lie outside the directory of
  -- the root CA, and no command that is run changes a file in it.
  pub root_kept :
      StaysOut o (ca_root o.root)
      → (vs : List Verb) → All (Aside (ca_root o.root)) vs
      → (m : Mac) → Anchored o cert key m
      → Anchored o cert key (session o vs m)
  root_kept out =
      session_kept o (ca_root o.root) (AnchoredIn o.root cert key) (still_anchored o.root cert key)
        (ca_sheltered o.root) out Keeps-rooted
