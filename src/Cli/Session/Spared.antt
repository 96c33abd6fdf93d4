-- ===== src/Cli/Session/Spared.antt =====
-- What the file operations of the commands leave alone: what lies at a path, or below it, that is
-- apart from the paths that they work at.
use mpd_virt_macos.Base.{
  ℕ, false, [], ◌∷◌, ◌++◌, ◌==◌, nat_eq, list_eq, ◌≡◌, refl, arith, Result, ok, err, Result-cases,
  Bool-cases, inl, inr,
}
use mpd_virt_macos.Text.{Text, codes}
use mpd_virt_macos.Fs.{
  FilePath, Fs, IoError, not_exist, failed, Io, is_under, mkdir_all, write_file, remove_all, dir_of,
  read_file, reads, ◌>>=◌, ◌>>◌,
}
use mpd_virt_macos.Fs.Files.{rename, remove, truncate}
use mpd_virt_macos.Fs.Laws.{SameAt, >>-SameAt, is_under_ne, write_file-SameAt}
use mpd_virt_macos.Fs.Files.Laws.{rename-SameAt}
use mpd_virt_macos.Fs.Apart.{
  Apart, Apart-deep, Apart-inside, is_under_deeper, made_apart, made_above_apart, written_apart,
  cleared_apart, removed_apart, resized_apart,
}
use mpd_virt_macos.Paths.{conf, servers, lan_hosts, utm_staging, cloud_images, vm_dir, vm_env}
use mpd_virt_macos.Registry
use mpd_virt_macos.Registry.Frame.{remove-remove_all}
use mpd_virt_macos.Server
use mpd_virt_macos.Server.{hosts_body}
use mpd_virt_macos.Sshconfig
use mpd_virt_macos.Sshconfig.{strip_block, stripped}
use mpd_virt_macos.Sshconfig.Apart.{write_apart}
use mpd_virt_macos.Uninstall.{wipe_host_state}

module _ (root d : FilePath) where
  abbrev pub sheltered : FilePath → FilePath
  sheltered r = d ++ r

  -- The operation changes nothing below the sheltered path, whether it succeeds or not.
  pub record Spares {E A : Type 0} (g : Io E A) : Type 0 where
    pub at : (n : FilePath) (fs : Fs) → SameAt (sheltered n) fs (g fs).0

  -- Paths that the commands may write at.
  abbrev pub Free : FilePath → Type 0
  Free p = Apart p d

  aside : (p : FilePath) → Free p → (n : FilePath) → Apart p (sheltered n)
  aside p f n = Apart-inside p d n f

  pub Spares-mkdir_all : (p : FilePath) → Free p → Spares (mkdir_all p)
  Spares-mkdir_all p f = record { at = λ n fs. made_apart p (sheltered n) (aside p f n) fs }

  pub Spares-above : (p : FilePath) → Free p → Spares (mkdir_all (dir_of p))
  Spares-above p f = record { at = λ n fs. made_above_apart p (sheltered n) (aside p f n) fs }

  pub Spares-write_file : (p : FilePath) (t : Text) → Free p → Spares (write_file p t)
  Spares-write_file p t f = record { at = λ n fs. written_apart p (sheltered n) (aside p f n) fs t }

  pub Spares-remove_all : (p : FilePath) → Free p → Spares (remove_all p)
  Spares-remove_all p f = record { at = λ n fs. cleared_apart p (sheltered n) (aside p f n) fs }

  pub Spares-remove : (p : FilePath) → Free p → Spares (remove p)
  Spares-remove p f = record { at = λ n fs. removed_apart p (sheltered n) (aside p f n) fs }

  pub Spares-truncate : (p : FilePath) (k : ℕ) → Free p → Spares (truncate p k)
  Spares-truncate p k f = record { at = λ n fs. resized_apart p (sheltered n) (aside p f n) fs k }

  pub Spares-rename : (p q : FilePath) → Free p → Free q → Spares (rename p q)
  Spares-rename p q f g = record {
    at = λ n fs. rename-SameAt (sheltered n) p q fs (aside p f n).0 (aside q g n).0;
  }

  Spares-then :
      {E B : Type 0} (g : Io E (Unit {0})) (k : Io E B) → Spares g → Spares k → Spares (g >> k)
  Spares-then g k sg sk = record {
    at = λ n fs. >>-SameAt g k fs (sheltered n) (sg.at n fs) (sk.at n (g fs).0);
  }

  -- The places where the commands keep their state are apart from the sheltered path.
  pub record Shelter : Type 0 where
    pub boxes : (id : ℕ) → Free (vm_dir root id)
    pub envs : (id : ℕ) → Free (vm_env root id)
    pub servers_out : Free (servers root)
    pub hosts_out : Free (lan_hosts root)
    pub stagings : (name : Text) → Free (utm_staging root name)
    pub images_out : Free (cloud_images root)
    pub conf_made : Spares (mkdir_all (conf root))
    pub wiped_out : Spares (wipe_host_state root)

  module _ (shelter : Shelter) where
    pub Spares-save_box : (e : Registry.Entry) → Spares (Registry.save root e)
    unfolding Registry.save
    Spares-save_box e =
        Spares-then (mkdir_all (vm_dir root e.id)) (write_file (vm_env root e.id) (Registry.body e))
          (Spares-mkdir_all _ (shelter.boxes e.id)) (Spares-write_file _ _ (shelter.envs e.id))

    pub Spares-remove_box : (id : ℕ) → Spares (Registry.remove root id)
    Spares-remove_box id = record {
      at = λ n fs.
          rw (remove-remove_all root id fs)
            ((Spares-remove_all (vm_dir root id) (shelter.boxes id)).at n fs);
    }

    pub dir-Free : (name : Text) → Free (Server.dir root name)
    unfolding Server.dir
    dir-Free name = Apart-deep (servers root) d (name ∷ []) shelter.servers_out

    env_file-Free : (name : Text) → Free (Server.env_file root name)
    unfolding Server.env_file
    env_file-Free name = Apart-deep (servers root) d (name ∷ codes "env" ∷ []) shelter.servers_out

    pub Spares-save_server : (e : Server.Entry) → Spares (Server.save root e)
    unfolding Server.save
    Spares-save_server e =
        Spares-then (mkdir_all (Server.dir root e.name))
          (write_file (Server.env_file root e.name) (Server.body e))
          (Spares-mkdir_all _ (dir-Free e.name)) (Spares-write_file _ _ (env_file-Free e.name))

    pub Spares-remove_server : (name : Text) → Spares (Server.remove root name)
    unfolding Server.remove
    Spares-remove_server name = record {
      at = λ n fs.
          ground (arith, (Spares-remove_all (Server.dir root name) (dir-Free name)).at n fs);
    }

    Spares-hosts_body :
        Spares (reads (hosts_body root) >>= λ text. write_file (lan_hosts root) text)
    Spares-hosts_body = record {
      at = λ n fs. elim (Result-cases (hosts_body root fs)) [
        | inl (t, e) ↦ rw e ((Spares-write_file _ t (shelter.hosts_out)).at n fs)
        | inr (x, e) ↦ rw e (refl, refl)
      ];
    }

    pub Spares-write_hosts_file : Spares (Server.write_hosts_file root)
    unfolding Server.write_hosts_file
    Spares-write_hosts_file =
        Spares-then (mkdir_all (conf root))
          (reads (hosts_body root) >>= λ text. write_file (lan_hosts root) text) shelter.conf_made
          Spares-hosts_body

  -- The ssh config, which does not lie below the sheltered path.
  module _ (config : FilePath) (h : is_under d config ≡ false) where
    pub Spares-write_block : (id : ℕ) (ip user : Text) → Spares (Sshconfig.write config id ip user)
    Spares-write_block id ip user = record {
      at = λ n fs. write_apart (sheltered n) config (is_under_deeper d n config h) id ip user fs;
    }

    pub Spares-write_outside : (t : Text) → Spares (write_file config t)
    Spares-write_outside t = record {
      at = λ n fs.
          write_file-SameAt (sheltered n) config t fs
            (is_under_ne (sheltered n) config (is_under_deeper d n config h));
    }

    Spares-stripped : (id : ℕ) (r : Result IoError Text) → Spares (stripped config id r)
    Spares-stripped id (err not_exist) = record { at = λ n fs. (refl, refl) }
    Spares-stripped id (err failed) = record { at = λ n fs. (refl, refl) }
    Spares-stripped id (ok t) = elim (Bool-cases (strip_block t id == t)) [
      | inl e ↦ rw e (record { at = λ n fs. (refl, refl) })
      | inr e ↦ rw e (Spares-write_outside (strip_block t id))
    ]

    pub Spares-strip : (id : ℕ) → Spares (Sshconfig.strip config id)
    unfolding Sshconfig.strip
    Spares-strip id = record { at = λ n fs. (Spares-stripped id (read_file config fs)).at n fs }
