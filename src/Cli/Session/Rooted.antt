-- ===== src/Cli/Session/Rooted.antt =====
-- Making the root CA keeps what the random source and the two files of the root CA keep.
use mpd_virt_macos.Base.{ℕ, Option}
use mpd_virt_macos.Text.{Text}
use mpd_virt_macos.Fs.{FilePath}
use mpd_virt_macos.Machine.{Outside, Mac, Failure, draw}
use mpd_virt_macos.Machine.Keeps.{Keeps, keeps_rules}
use mpd_virt_macos.Ca.{
  write_pem, write_key_pem, base_template, generate_root, file_exists, load_or_generate_root,
  root_cert_path, root_key_path,
}
use mpd_virt_macos.Cli.Session.Flows.{Keeps-or_failed}

-- The parts of the generation.
pub record Forge (o : Outside) (P : Mac → Type 0) : Type 1 where
  pub draws : {A : Type 0} (f : ℕ → Option A) (e : Failure) → Keeps P (draw o f e)
  pub cert : (kind der : Text) → Keeps P (write_pem o (root_cert_path o.root) kind der)
  pub key : (kind der : Text) → Keeps P (write_pem o (root_key_path o.root) kind der)

module _ (o : Outside) {P : Mac → Type 0} (forge : Forge o P) where
  Keeps-draw : {A : Type 0} (f : ℕ → Option A) (e : Failure) → Keeps P (draw o f e)
  Keeps-draw = forge.draws

  Keeps-cert : (kind der : Text) → Keeps P (write_pem o (root_cert_path o.root) kind der)
  Keeps-cert = forge.cert

  Keeps-key : (kind der : Text) → Keeps P (write_pem o (root_key_path o.root) kind der)
  Keeps-key = forge.key

  Keeps-write_key_pem : (key : Text) → Keeps P (write_key_pem o (root_key_path o.root) key)
  unfolding write_key_pem
  Keeps-write_key_pem key = search (keeps_rules, Keeps-or_failed, Keeps-key)

  Keeps-base_template : (cn : Text) (days : ℕ) → Keeps P (base_template o cn days)
  unfolding base_template
  Keeps-base_template cn days = search (keeps_rules, Keeps-draw)

  Keeps-file_exists : (p : FilePath) → Keeps P (file_exists p)
  unfolding file_exists
  Keeps-file_exists p = search keeps_rules

  Keeps-generate_root : Keeps P (generate_root o)
  unfolding generate_root
  Keeps-generate_root =
      search
        (
          keeps_rules, Keeps-draw, Keeps-or_failed, Keeps-base_template, Keeps-cert,
          Keeps-write_key_pem,
        )
        depth 20 fits 4000

  pub Keeps-load_or_generate_root : Keeps P (load_or_generate_root o)
  unfolding load_or_generate_root
  Keeps-load_or_generate_root = search (keeps_rules, Keeps-generate_root)
