-- ===== src/Cli/Session/Sheltered.antt =====
-- What is kept below a path that is apart from all that the commands work at.
use mpd_virt_macos.Base.{ℕ, List, [], ◌∷◌, ◌++◌, none, some, All, ◌≡◌, false, Bool-cases, inl, inr}
use mpd_virt_macos.Text.{Text}
use mpd_virt_macos.Fs.{FilePath, Fs, Io, is_under, write_file, mkdir_all, dir_of}
use mpd_virt_macos.Fs.Laws.{SameAt}
use mpd_virt_macos.Fs.Apart.{Apart, Apart-deep}
use mpd_virt_macos.Host.{Log, Command}
use mpd_virt_macos.Host.Remote.{push}
use mpd_virt_macos.Machine.{Outside, Mac, Failure, io_failed, io, sleep, draw}
use mpd_virt_macos.Machine.Exec.{allowed, capture, capture_writing}
use mpd_virt_macos.Machine.Keeps.{Keeps, Keeps-bind}
use mpd_virt_macos.Proxy.Client.{call}
use mpd_virt_macos.Ca.{load_or_generate_root, write_pem, vm_ca_dir, vm_cert_path, vm_key_path}
use mpd_virt_macos.Cli.Servers.{cert_path, key_path, sans_path}
use mpd_virt_macos.Backend.Queries.{issue_all}
use mpd_virt_macos.Cli.Takeover.{start_box}
use mpd_virt_macos.Cli.Lifecycle.{stop_box}
use mpd_virt_macos.Cli.Session.{
  Verb, takeover, start, update, stop, create, delete, list, uninstall, server_add, server_list,
  server_sync, server_delete, server_cert, ca_export, execute, session,
}
use mpd_virt_macos.Cli.Session.Effects.{
  Effects, staged, Issue, vm_cert, vm_key, leaf_cert, leaf_key,
}
use mpd_virt_macos.Cli.Session.Images.{Handles, Keeps-make_cidata_iso, Keeps-materialize_disk}
use mpd_virt_macos.Cli.Session.Spared.{
  Spares, Free, Shelter, Spares-mkdir_all, Spares-above, Spares-write_file, Spares-remove,
  Spares-remove_all, Spares-truncate, Spares-rename, Spares-save_box, Spares-remove_box,
  Spares-save_server, Spares-remove_server, Spares-write_hosts_file, Spares-write_block,
  Spares-write_outside, Spares-strip, dir-Free,
}
use mpd_virt_macos.Cli.Session.Commands.{IsMild, Keeps-execute}

-- The export of the root CA is written to no file at the path or below it.
abbrev pub Aside : FilePath → Verb → Type 0
Aside d (ca_export (some p)) = is_under d p ≡ false
Aside d v = Unit

-- What is outside the program stays away from the path: the ssh config and the temporary directories
-- lie elsewhere, and no command that is run changes a file at the path or below it.
pub record StaysOut (o : Outside) (d : FilePath) : Type 0 where
  pub config : is_under d o.ssh_config ≡ false
  pub temporary : (fs : Fs) → Apart (o.temp_dir fs) d
  pub leaves_it :
      (n : FilePath) (log : Log) (c : Command) (fs : Fs) → SameAt (d ++ n) fs (o.leaves log c fs)

-- The property `Pf` of the files depends on nothing but what lies at `d` or below it.
module _ (o : Outside) (d : FilePath) (Pf : Fs → Type 0)
    (stable : (fs fs' : Fs) → ((n : FilePath) → SameAt (d ++ n) fs fs') → Pf fs → Pf fs')
    (shelter : Shelter o.root d) where
  abbrev Held : Mac → Type 0
  Held m = Pf m.files

  Keeps-io :
      {E A : Type 0} (f : E → Failure) (g : Io E A) → Spares o.root d g → Keeps (Held) (io f g)
  unfolding io
  Keeps-io f g s = record { at = λ m h. stable m.files (g m.files).0 (λ n. s.at n m.files) h }

  Keeps-capture : (c : Command) → Keeps (Held) (capture o c)
  unfolding capture
  Keeps-capture c = record {
    at = λ m h. elim (Bool-cases (allowed c)) [ inl e ↦ rw e h | inr e ↦ rw e h ];
  }

  pub Keeps-write_pem :
      (p : FilePath) (kind der : Text) → Free o.root d p → Keeps (Held) (write_pem o p kind der)
  unfolding write_pem
  Keeps-write_pem p kind der f =
      Keeps-bind _ _ (Keeps-io io_failed (mkdir_all (dir_of p)) (Spares-above o.root d p f)) (λ u.
        Keeps-io io_failed (write_file p (o.crypto.encode_pem kind der))
          (Spares-write_file o.root d p _ f))

  vm_ca_dir-Free : (id : ℕ) → Free o.root d (vm_ca_dir o.root id)
  unfolding vm_ca_dir
  vm_ca_dir-Free id = Apart-deep _ _ _ (shelter.boxes id)

  Issue-Free : (p : FilePath) → Issue o p → Free o.root d p
  unfolding vm_cert_path vm_key_path cert_path key_path
  Issue-Free p (vm_cert id) = Apart-deep _ _ _ (vm_ca_dir-Free id)
  Issue-Free p (vm_key id) = Apart-deep _ _ _ (vm_ca_dir-Free id)
  Issue-Free p (leaf_cert name) = Apart-deep _ _ _ (dir-Free o.root d shelter name)
  Issue-Free p (leaf_key name) = Apart-deep _ _ _ (dir-Free o.root d shelter name)

  sans-Free : (name : Text) → Free o.root d (sans_path o.root name)
  unfolding sans_path
  sans-Free name = Apart-deep _ _ _ (dir-Free o.root d shelter name)

  module _ (out : StaysOut o d) (rooted : Keeps Held (load_or_generate_root o)) where
    Keeps-writing : (c : Command) → Keeps (Held) (capture_writing o c)
    unfolding capture_writing
    Keeps-writing c = record {
      at = λ m h. elim (Bool-cases (allowed c)) [
        | inl e ↦
            rw e
              (stable m.files (o.leaves m.log c m.files) (λ n. out.leaves_it n m.log c m.files) h)
        | inr e ↦ rw e h
      ];
    }

    handled : Handles o (Held) (Free o.root d)
    handled = record {
      writing = λ c s. Keeps-writing c;
      made = λ p f. Keeps-io _ _ (Spares-mkdir_all o.root d p f);
      made_above = λ p f. Keeps-io _ _ (Spares-above o.root d p f);
      written = λ p t f. Keeps-io _ _ (Spares-write_file o.root d p t f);
      removed = λ p f. Keeps-io _ _ (Spares-remove o.root d p f);
      cleared = λ p f. Keeps-io _ _ (Spares-remove_all o.root d p f);
      resized = λ p n f. Keeps-io _ _ (Spares-truncate o.root d p n f);
      moved = λ p q f g. Keeps-io _ _ (Spares-rename o.root d p q f g);
      deeper = λ p r f. Apart-deep p d r f;
      cached = shelter.images_out;
      temporary = out.temporary;
    }

    staged-Free : (name n : Text) → Free o.root d (staged o name ++ n ∷ [])
    staged-Free name n = Apart-deep _ _ _ (shelter.stagings name)

    sheltered_effects : Effects o (Held)
    sheltered_effects = record {
      captured = λ c s. Keeps-capture c;
      pushed = λ t file remote mode s. unfold push in record { at = λ m h. h };
      started = λ id be. unfold start_box issue_all in record { at = λ m h. h };
      halted = λ id be. unfold stop_box issue_all in record { at = λ m h. h };
      slept = λ n. unfold sleep in record { at = λ m h. h };
      drawn = λ f e. unfold draw in record { at = λ m h. h };
      called = λ req. unfold call in record { at = λ m h. h };
      rooted = rooted;
      issued = λ p kind der i. Keeps-write_pem p kind der (Issue-Free p i);
      ca_dir_made = λ id. Keeps-io _ _ (Spares-mkdir_all o.root d _ (vm_ca_dir-Free id));
      signed = λ name body. Keeps-io _ _ (Spares-write_file o.root d _ body (sans-Free name));
      box_saved = λ e. Keeps-io _ _ (Spares-save_box o.root d shelter e);
      box_removed = λ id. Keeps-io _ _ (Spares-remove_box o.root d shelter id);
      block_written = λ id ip user.
          Keeps-io _ _ (Spares-write_block o.root d o.ssh_config out.config id ip user);
      block_stripped = λ id. Keeps-io _ _ (Spares-strip o.root d o.ssh_config out.config id);
      server_saved = λ e. Keeps-io _ _ (Spares-save_server o.root d shelter e);
      server_removed = λ name. Keeps-io _ _ (Spares-remove_server o.root d shelter name);
      hosts_written = Keeps-io _ _ (Spares-write_hosts_file o.root d shelter);
      staging_made = λ name. Keeps-io _ _ (Spares-mkdir_all o.root d _ (shelter.stagings name));
      staging_removed = λ name. Keeps-io _ _ (Spares-remove_all o.root d _ (shelter.stagings name));
      seed_removed = λ name n. Keeps-io _ _ (Spares-remove o.root d _ (staged-Free name n));
      seed_made = λ name n user pub_key host config.
          Keeps-make_cidata_iso o handled _ user pub_key host config (staged-Free name n);
      disk_made = λ name n gib. Keeps-materialize_disk o handled _ gib (staged-Free name n);
      state_wiped = Keeps-io _ _ shelter.wiped_out;
    }

    -- What a command may be given, so that it is mild.
    Aside-IsMild : (v : Verb) → Aside d v → IsMild o sheltered_effects v
    Aside-IsMild (takeover arg address user flag) h = tt
    Aside-IsMild (start arg flag) h = tt
    Aside-IsMild (update arg flag) h = tt
    Aside-IsMild (stop arg) h = tt
    Aside-IsMild (create ssh_dir arg flag user pub_key opts) h = tt
    Aside-IsMild (delete arg typed sure keep_vm) h = tt
    Aside-IsMild list h = tt
    Aside-IsMild (uninstall typed sure) h = tt
    Aside-IsMild (server_add arg ip) h = tt
    Aside-IsMild (server_list only) h = tt
    Aside-IsMild (server_sync only) h = tt
    Aside-IsMild (server_delete arg typed sure) h = tt
    Aside-IsMild (server_cert arg extra force) h = tt
    Aside-IsMild (ca_export none) h = tt
    Aside-IsMild (ca_export (some p)) h =
        λ pem. Keeps-io _ _ (Spares-write_outside o.root d p h pem)

    pub session_kept :
        (vs : List Verb) → All (Aside d) vs → (m : Mac) → Pf m.files → Pf (session o vs m).files
    unfolding session
    session_kept [] a m h = h
    session_kept (v ∷ vs) (av, a) m h =
        session_kept vs a (execute o v m).0
          ((Keeps-execute o sheltered_effects v (Aside-IsMild v av)).at m h)
