-- ===== src/Ca/Intermediate.antt =====
-- The intermediate of a box that `LoadOrGenerateVM` leaves, and what it may sign.
use mpd_virt_macos.Base.{ℕ, ◌+◌, ◌≤◌, true, [], ◌∷◌, ◌++◌, nat_eq, some, ◌≡◌, ◌&&◌, ok}
use mpd_virt_macos.Text.{Text, codes}
use mpd_virt_macos.Fs.{FilePath, Fs, stat, read_file, mkdir_all}
use mpd_virt_macos.Vmid.{pad, zone}
use mpd_virt_macos.Machine.{Cert, Outside, Mac, io_failed, said, Run, io, ◌>>=◌, ◌>>◌, draw}
use mpd_virt_macos.Ca.{
  min, is_ok, vm_template, base_template, load_or_generate_root, load_root, root_days_left,
  vm_ca_dir, vm_cert_path, vm_key_path,
}
use mpd_virt_macos.Ca.Signing.{sign}

-- What the generation of an intermediate has done, from the machine `m` to `m'`: the root that was
-- loaded has signed a CA that signs no other CA, for names in the zone of the box alone, that ends
-- no later than the root, but for the time that was spent and for `shift`.
pub record Delegated (o : Outside) (id shift : ℕ) (m m' : Mac) : Type 0 where
  pub root : Cert
  pub signer : Text
  pub ca : Cert
  pub ca_key : Text
  pub der : Text
  pub loaded : (load_root o (load_or_generate_root o m).0).1 ≡ ok (root, signer)
  pub signed : o.crypto.create_certificate ca root ca_key signer ≡ some der
  pub is_authority : ca.is_ca ≡ true
  pub signs_no_ca : ca.path_len ≡ some 0
  pub for_zone : ca.permitted_domains ≡ zone id ∷ []
  pub zone_binds : ca.permitted_domains_critical ≡ true
  pub no_longer : ca.not_after + m.now ≤ root.not_after + m'.now + shift
  pub stored :
      read_file (vm_cert_path o.root id) m'.files
      ≡ ok (o.crypto.encode_pem (codes "CERTIFICATE") der)

module _ (o : Outside) (id : ℕ) where
  abbrev cert_file : FilePath
  cert_file = vm_cert_path o.root id

  abbrev key_file : FilePath
  key_file = vm_key_path o.root id

  abbrev pub BothThere : Fs → Type 0
  BothThere fs = (is_ok (stat cert_file fs) && is_ok (stat key_file fs)) ≡ true

  ca_key_drawn : Run Text
  ca_key_drawn = draw o (λ n. o.crypto.generate_key n 4096) (said (codes "generate key"))

  ca_base : ℕ → Run Cert
  ca_base left = base_template o (codes "mpd VM " ++ (pad id ++ codes " CA")) (min 397 left)

  -- The rest of `LoadOrGenerateVM` behind the check of the root.
  delegate : Cert → Text → ℕ → Run (Unit {0})
  delegate root signer left =
      io io_failed (mkdir_all (vm_ca_dir o.root id))
      >> (ca_key_drawn >>= λ key.
          ca_base left >>= λ base. sign o cert_file key_file root signer (vm_template base id) key)

  all_steps : Run (Unit {0})
  all_steps =
      load_or_generate_root o
      >> (load_root o >>= λ root. root_days_left root.0 >>= delegate root.0 root.1)

module _ (o : Outside) (id shift : ℕ) where
  -- Of `Delegated`, what the steps behind the check of the root have done.
  abbrev Signed : Cert → Text → Mac → Mac → Type 0
  Signed root signer m m' =
      (ca : Cert) × (key : Text) × (der : Text) × (o.crypto.create_certificate ca root key signer
        ≡ some der)
      × (ca.is_ca ≡ true)
      × (ca.path_len ≡ some 0)
      × (ca.permitted_domains ≡ zone id ∷ [])
      × (ca.permitted_domains_critical ≡ true)
      × (ca.not_after + m.now ≤ root.not_after + m'.now + shift)
      × (read_file (cert_file o id) m'.files ≡ ok (o.crypto.encode_pem (codes "CERTIFICATE") der))
