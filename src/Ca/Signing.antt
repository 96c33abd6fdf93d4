-- ===== src/Ca/Signing.antt =====
-- The pair of files that a certificate and its key are stored in, and the signature in front of them.
use mpd_virt_macos.Base.{ℕ, ◌≤◌, false, nat_eq, some, ok, ◌≡◌, arith}
use mpd_virt_macos.Text.{Text, codes}
use mpd_virt_macos.Fs.{FilePath, is_under, read_file}
use mpd_virt_macos.Fs.Laws.{read_file-SameAt}
use mpd_virt_macos.Machine.{Cert, Outside, Mac, Run, ◌>>=◌, ◌>>◌}
use mpd_virt_macos.Machine.Keeps.{Keeps, keeps_rules}
use mpd_virt_macos.Machine.Outcome.{passed}
use mpd_virt_macos.Ca.{or_failed, write_pem, write_key_pem}
use mpd_virt_macos.Ca.Issue.{
  Later, Later-pem, Later-key, some_ok, write_pem_ok, write_key_pem_apart,
}

module _ (o : Outside) (cert_path key_path : FilePath) where
  unfoldable pub stored_pair : Text → Text → Run (Unit {0})
  stored_pair der key =
      write_pem o cert_path (codes "CERTIFICATE") der >> write_key_pem o key_path key

  unfoldable pub sign : Cert → Text → Cert → Text → Run (Unit {0})
  sign root signer leaf key =
      or_failed (codes "create certificate") (o.crypto.create_certificate leaf root key signer)
      >>= λ der. stored_pair der key

  pub Later-pair : (t : ℕ) (der key : Text) → Keeps (Later t) (stored_pair der key)
  unfolding stored_pair
  Later-pair t der key = search (keeps_rules, Later-pem o t, Later-key o t)

  module _ (apart : is_under cert_path key_path ≡ false) where
    stored_pair_ok :
        (der key : Text) (m : Mac)
        → (stored_pair der key m).1 ≡ ok tt
        → read_file cert_path (stored_pair der key m).0.files
          ≡ ok (o.crypto.encode_pem (codes "CERTIFICATE") der)
    unfolding stored_pair
    stored_pair_ok der key m h =
        let first = write_pem o cert_path (codes "CERTIFICATE") der in
        let (_, written, same, rest) = passed first (λ _. write_key_pem o key_path key) m tt h in
        rw same (
          read_file-SameAt cert_path (first m).0.files
            (write_key_pem o key_path key (first m).0).0.files
            (o.crypto.encode_pem (codes "CERTIFICATE") der)
            (write_key_pem_apart o key_path key (first m).0 cert_path apart rest)
            (write_pem_ok o cert_path (codes "CERTIFICATE") der m written))

    pub sign_ok :
        (root leaf : Cert) (signer key : Text) (m : Mac)
        → (sign root signer leaf key m).1 ≡ ok tt
        → (der : Text) × (o.crypto.create_certificate leaf root key signer ≡ some der)
          × (m.now ≤ (sign root signer leaf key m).0.now)
          × (read_file cert_path (sign root signer leaf key m).0.files
              ≡ ok (o.crypto.encode_pem (codes "CERTIFICATE") der))
    unfolding sign
    sign_ok root leaf signer key m h =
        let (der, signed, same, rest) =
          some_ok (codes "create certificate") (o.crypto.create_certificate leaf root key signer)
            (λ d. stored_pair d key) m tt h in
        (
          der,
          signed,
          rw same ((Later-pair m.now der key).at m (omega arith)),
          rw same (stored_pair_ok der key m rest),
        )
