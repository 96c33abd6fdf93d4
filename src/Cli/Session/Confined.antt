-- ===== src/Cli/Session/Confined.antt =====
-- What the commands of a user leave as it is: whatever lies outside the state of the program.
use mpd_virt_macos.Base.{List, [], ◌∷◌, ◌++◌, All, append-nil, refl}
use mpd_virt_macos.Text.{Text}
use mpd_virt_macos.Fs.{FilePath, Fs}
use mpd_virt_macos.Fs.Laws.{SameAt, SameAt-trans}
use mpd_virt_macos.Fs.Apart.{Apart, Apart-deep, Apart-inside}
use mpd_virt_macos.Paths.{
  conf, ca_root, servers, lan_hosts, utm_staging, vm_dir, vm_env, cloud_images,
}
use mpd_virt_macos.Machine.{Outside, Mac, draw}
use mpd_virt_macos.Ca.{root_cert_path, root_key_path}
use mpd_virt_macos.Uninstall.Outside.{wipe_host_state_out}
use mpd_virt_macos.Cli.Session.{Verb, session}
use mpd_virt_macos.Cli.Session.Rooted.{Forge, Keeps-load_or_generate_root}
use mpd_virt_macos.Cli.Session.Spared.{Shelter, Spares-mkdir_all}
use mpd_virt_macos.Cli.Session.Sheltered.{Aside, StaysOut, session_kept, Keeps-write_pem}

module _ (root q : FilePath) (a : Apart root q) where
  below_root : (r : FilePath) → Apart (root ++ r) q
  below_root r = Apart-deep root q r a

  shelter : Shelter root q
  unfolding vm_dir vm_env servers lan_hosts utm_staging cloud_images conf
  shelter = record {
    boxes = λ id. below_root _;
    envs = λ id. below_root _;
    servers_out = below_root _;
    hosts_out = below_root _;
    stagings = λ name. below_root _;
    images_out = below_root _;
    conf_made = Spares-mkdir_all root q _ (below_root _);
    wiped_out = record {
      at = λ n fs. wipe_host_state_out (q ++ n) root (Apart-inside root q n a) fs;
    };
  }

  ca_file_out : (n : Text) → Apart (ca_root root ++ n ∷ []) q
  unfolding ca_root
  ca_file_out n = Apart-deep _ q _ (below_root _)

module _ (o : Outside) (q : FilePath) (a : Apart o.root q) (out : StaysOut o q) (start : Fs) where
  abbrev Kept : Fs → Type 0
  Kept fs = SameAt q start fs

  still-Kept : (fs fs' : Fs) → ((n : FilePath) → SameAt (q ++ n) fs fs') → Kept fs → Kept fs'
  still-Kept fs fs' s h = SameAt-trans start fs fs' h (rw (append-nil q) at (s []))

  forged : Forge o (λ m. Kept m.files)
  unfolding root_cert_path root_key_path
  forged = record {
    draws = λ f e. unfold draw in record { at = λ m h. h };
    cert = λ kind der.
        Keeps-write_pem o q Kept still-Kept (shelter o.root q a) _ kind der
          (ca_file_out o.root q a _);
    key = λ kind der.
        Keeps-write_pem o q Kept still-Kept (shelter o.root q a) _ kind der
          (ca_file_out o.root q a _);
  }

  Kept-session :
      (vs : List Verb) → All (Aside q) vs → (m : Mac) → Kept m.files → Kept (session o vs m).files
  Kept-session =
      session_kept o q Kept still-Kept (shelter o.root q a) out
        (Keeps-load_or_generate_root o forged)

-- For a path that is apart from the root of the state, from the temporary directories and from the
-- files that the root CA is exported to, which is not the ssh config or above it, and at or below
-- which no command that is run changes a file: whatever commands the user types, and however each
-- ends, what is at the path stays as it is.
pub session_confined :
    (o : Outside) (q : FilePath)
    → Apart o.root q
    → StaysOut o q
    → (vs : List Verb) → All (Aside q) vs
    → (m : Mac) → SameAt q m.files (session o vs m).files
session_confined o q a out vs h m = Kept-session o q a out m.files vs h m (refl, refl)
