-- ===== src/Ca/Leaf.antt =====
-- The certificate that `IssueLeaf` leaves, and how long it lives.
use mpd_virt_macos.Base.{ℕ, ◌+◌, ◌*◌, ◌≤◌, false, List, ◌∷◌, nat_eq, some, ok, ◌≡◌, refl, arith}
use mpd_virt_macos.Text.{Text, codes}
use mpd_virt_macos.Fs.{FilePath, is_under, read_file}
use mpd_virt_macos.Machine.{Cert, Outside, Mac, said, Run, gets, ◌>>=◌, ◌>>◌, draw}
use mpd_virt_macos.Machine.Outcome.{passed, gets_then}
use mpd_virt_macos.Ca.{
  day, min, load_or_generate_root, load_root, root_days_left, leaf_template, issue_leaf_for,
  issue_leaf,
}
use mpd_virt_macos.Ca.Signing.{sign, sign_ok, stored_pair}
use mpd_virt_macos.Ca.Issue.{Later-root, Later-load, root_days_left_ok}

-- What `IssueLeaf` has done, from the machine `m` to `m'`: the root that was loaded has signed a leaf
-- for the names, no CA, that ends no later than the root, but for the time that was spent and for `shift`.
pub record Issued (o : Outside) (s : Text) (sans : List Text) (cert_path : FilePath) (shift : ℕ)
    (m m' : Mac) : Type 0 where
  pub root : Cert
  pub signer : Text
  pub leaf : Cert
  pub leaf_key : Text
  pub der : Text
  pub loaded : (load_root o (load_or_generate_root o m).0).1 ≡ ok (root, signer)
  pub signed : o.crypto.create_certificate leaf root leaf_key signer ≡ some der
  pub for_names : leaf.dns_names ≡ s ∷ sans
  pub no_ca : leaf.is_ca ≡ false
  pub no_longer : leaf.not_after + m.now ≤ root.not_after + m'.now + shift
  pub stored : read_file cert_path m'.files ≡ ok (o.crypto.encode_pem (codes "CERTIFICATE") der)

pub min_le : (a b : ℕ) → min a b ≤ b
unfolding min
min_le a b = ground arith

module _ (o : Outside) (s : Text) (sans : List Text) (cert_path key_path : FilePath)
    (shift : ℕ) where
  new_key : Run Text
  new_key = draw o (λ n. o.crypto.generate_key n 2048) (said (codes "generate key"))

  new_serial : Run ℕ
  new_serial = draw o o.crypto.random_serial (said (codes "serial"))

  -- The rest of `IssueLeaf` behind the check of the root.
  issue_for : Cert → Text → ℕ → Run (Unit {0})
  issue_for root signer left = new_key >>= λ key. new_serial >>= λ serial.
      gets (λ m. m.now) >>= λ now.
      sign o cert_path key_path root signer (leaf_template o serial s sans (min 397 left) now) key

  all_steps : Run (Unit {0})
  all_steps =
      load_or_generate_root o
      >> (load_root o >>= λ root. root_days_left root.0 >>= issue_for root.0 root.1)

  module _ (apart : is_under cert_path key_path ≡ false) where
    -- Of `Issued`, what the steps behind the check of the root have done.
    abbrev Signed : Cert → Text → Mac → Mac → Type 0
    Signed root signer m m' =
        (leaf : Cert) × (key : Text) × (der : Text) × (o.crypto.create_certificate leaf root key
            signer
          ≡ some der)
        × (leaf.dns_names ≡ s ∷ sans)
        × (leaf.is_ca ≡ false)
        × (leaf.not_after + m.now ≤ root.not_after + m'.now + shift)
        × (read_file cert_path m'.files ≡ ok (o.crypto.encode_pem (codes "CERTIFICATE") der))

    issue_for_ok :
        ((n d : ℕ) → o.crypto.add_days n d ≤ n + d * day + shift)
        → (root : Cert) (signer : Text) (left : ℕ) (m : Mac) → m.now + left * day ≤ root.not_after
        → (issue_for root signer left m).1 ≡ ok tt
        → Signed root signer m (issue_for root signer left m).0
    unfolding issue_for leaf_template
    issue_for_ok exact root signer left m fits h =
        let made = λ (serial now : ℕ). leaf_template o serial s sans (min 397 left) now in
        let at_time = λ (key : Text) (serial now : ℕ).
          sign o cert_path key_path root signer (made serial now) key in
        let with_serial = λ (key : Text) (serial : ℕ). gets (λ x. x.now) >>= at_time key serial in
        let (key, _, e1, h1) = passed new_key (λ k. new_serial >>= with_serial k) m tt h in
        let m1 = (new_key m).0 in
        let (serial, _, e2, h2) = passed new_serial (with_serial key) m1 tt h1 in
        let m2 = (new_serial m1).0 in
        let e3 = gets_then (λ x. x.now) (at_time key serial) m2 in
        let (der, signed, later, stored) =
          sign_ok o cert_path key_path apart root (made serial m2.now) signer key m2
            (rw e3 at h2) in
        rw (e1, e2, e3)
          (
            made serial m2.now,
            key,
            der,
            signed,
            refl,
            refl,
            omega (arith, exact m2.now (min 397 left), min_le 397 left, fits, later),
            stored,
          )

  all_steps_ok :
      (m : Mac)
      → ((n d : ℕ) → o.crypto.add_days n d ≤ n + d * day + shift)
      → is_under cert_path key_path ≡ false
      → (all_steps m).1 ≡ ok tt
      → Issued o s sans cert_path shift m (all_steps m).0
  unfolding all_steps
  all_steps_ok m exact apart h =
      let checked = λ (root : Cert × Text). root_days_left root.0 >>= issue_for root.0 root.1 in
      let (_, _, e1, h1) = passed (load_or_generate_root o) (λ _. load_root o >>= checked) m tt h in
      let m1 = (load_or_generate_root o m).0 in
      let (root, loaded, e2, h2) = passed (load_root o) checked m1 tt h1 in
      let m2 = (load_root o m1).0 in
      let (left, some_left, e3, h3) =
        passed (root_days_left root.0) (issue_for root.0 root.1) m2 tt h2 in
      let (fits, kept) = root_days_left_ok root.0 m2 left some_left in
      let (leaf, key, der, signed, names, no_ca, ends, stored) =
        issue_for_ok apart exact root.0 root.1 left m2 fits (rw kept at h3) in
      let later : m.now ≤ m2.now =
        (Later-load o m.now).at m1 ((Later-root o m.now).at m (omega arith)) in
      rw (e1, e2, e3, kept)
        record {
          root = root.0;
          signer = root.1;
          leaf = leaf;
          leaf_key = key;
          der = der;
          loaded = loaded;
          signed = signed;
          for_names = names;
          no_ca = no_ca;
          no_longer = omega (arith, ends, later);
          stored = stored;
        }

  -- For an `AddDate` that is past that many days of 24 hours by no more than `shift`, which is the change
  -- of the zone's offset, and a certificate path that is not above the one of the key: when `IssueLeaf` succeeds, the root that it loaded has signed a leaf for
  -- exactly the names, which is no CA, which ends no later than the root but for the time that was
  -- spent on the way and `shift`, and which is what the certificate file holds.
  pub issue_leaf_lem :
      (m : Mac)
      → ((n d : ℕ) → o.crypto.add_days n d ≤ n + d * day + shift)
      → is_under cert_path key_path ≡ false
      → (issue_leaf o (s ∷ sans) cert_path key_path m).1 ≡ ok tt
      → Issued o s sans cert_path shift m (issue_leaf o (s ∷ sans) cert_path key_path m).0
  unfolding issue_leaf issue_leaf_for all_steps issue_for new_key new_serial sign stored_pair
  issue_leaf_lem m exact apart h = all_steps_ok m exact apart h
