-- ===== src/Ca.antt =====
-- go/internal/ca/ca.go: the root CA, the intermediate of each box and the leaves of LAN servers. The
-- cryptography is a parameter; times are in nanoseconds.
pub mod Issue
pub mod Signing
pub mod Leaf
pub mod Intermediate
use mpd_virt_macos.Base.{
  ℕ, zero, suc, ◌+◌, ◌-◌, ◌*◌, ◌/◌, Bool, true, false, ◌&&◌, ltb, leb, List, [], ◌∷◌, ◌++◌, Option,
  none, some, ◌==◌, nat_eq, list_eq, if◌then◌else◌, Result, ok, err,
}
use mpd_virt_macos.Text.{Text, codes}
use mpd_virt_macos.Text.Decimal.{ℤ, pos, negsuc}
use mpd_virt_macos.Fs.{FilePath, Fs, IoError, stat, read_file, write_file, mkdir_all, dir_of}
use mpd_virt_macos.Paths.{ca_root, vm_dir}
use mpd_virt_macos.Vmid.{pad, zone}
use mpd_virt_macos.Machine.{
  Cert, Crypto, Usage, cert_sign, crl_sign, digital_signature, key_encipherment, server_auth,
  Outside, Mac, Failure, io_failed, said, Run, pure, raise, lift, gets, reads, io, ◌>>=◌, ◌>>◌,
  draw,
}

unfoldable pub root_cert_path : FilePath → FilePath
unfolding ca_root
root_cert_path root = ca_root root ++ codes "rootCA.pem" ∷ []

unfoldable pub root_key_path : FilePath → FilePath
unfolding ca_root
root_key_path root = ca_root root ++ codes "rootCA-key.pem" ∷ []

unfoldable pub vm_ca_dir : FilePath → ℕ → FilePath
unfolding vm_dir
vm_ca_dir root id = vm_dir root id ++ codes "ca" ∷ []

unfoldable pub vm_cert_path : FilePath → ℕ → FilePath
unfolding vm_ca_dir
vm_cert_path root id = vm_ca_dir root id ++ codes "vmCA.pem" ∷ []

unfoldable pub vm_key_path : FilePath → ℕ → FilePath
unfolding vm_ca_dir
vm_key_path root id = vm_ca_dir root id ++ codes "vmCA-key.pem" ∷ []

abbrev pub is_ok : {E A : Type 0} → Result E A → Bool
is_ok (ok a) = true
is_ok (err e) = false

-- `fileExists`
unfoldable pub file_exists : FilePath → Run Bool
unfolding gets stat
file_exists p = gets (λ m. is_ok (stat p m.files))

abbrev pub hour : ℕ
hour = 3600000000000

abbrev pub day : ℕ
day = 24 * hour

-- `int(time.Until(t).Hours() / 24)`; what is less than a day, or past, is 0.
unfoldable pub days_left : ℕ → ℕ → ℕ
days_left not_after now = (not_after - now) / day

unfoldable pub min : ℕ → ℕ → ℕ
min a b = if ltb a b then a else b

-- `writePEM`
unfoldable pub write_pem : Outside → FilePath → Text → Text → Run (Unit {0})
unfolding ◌>>=◌ mkdir_all write_file dir_of
write_pem o p block_type der =
    io io_failed (mkdir_all (dir_of p))
    >> io io_failed (write_file p (o.crypto.encode_pem block_type der))

abbrev pub or_failed : {A : Type 0} → Text → Option A → Run A
or_failed words none = raise (said words)
or_failed words (some a) = pure a

-- `writeKeyPEM`
unfoldable pub write_key_pem : Outside → FilePath → Text → Run (Unit {0})
unfolding write_pem
write_key_pem o p key = or_failed (codes "marshal key") (o.crypto.marshal_key key) >>= λ der.
    write_pem o p (codes "PRIVATE KEY") der

-- `baseTemplate`
unfoldable pub base_template : Outside → Text → ℕ → Run Cert
unfolding draw ◌>>=◌
base_template o cn days = draw o o.crypto.random_serial (said (codes "serial")) >>= λ s. gets (λ m.
    record {
      serial = s;
      common_name = cn;
      dns_names = [];
      not_before = m.now - hour;
      not_after = o.crypto.add_days m.now days;
      is_ca = true;
      basic_constraints_valid = true;
      path_len = none;
      permitted_domains = [];
      permitted_domains_critical = false;
      organization = codes "mpd local development" ∷ [];
      organizational_unit = codes "mpd-virt" ∷ [];
      usage = cert_sign ∷ crl_sign ∷ [];
    })

abbrev root_common_name : Text
root_common_name = codes "mpd Root CA"

abbrev root_template : Cert → Cert
root_template base = record base {
  permitted_domains = codes "mpd.test" ∷ [];
  permitted_domains_critical = true;
}

-- The rest of `LoadOrGenerateRoot`, when a file is missing.
unfoldable pub generate_root : Outside → Run (Unit {0})
unfolding draw base_template write_pem write_key_pem root_cert_path root_key_path
generate_root o = do
  key ← draw o (λ n. o.crypto.generate_key n 4096) (said (codes "generate key"))
  base ← base_template o root_common_name 365
  der ←
      or_failed (codes "create certificate")
        (o.crypto.create_certificate (root_template base) (root_template base) key key)
  write_pem o (root_cert_path o.root) (codes "CERTIFICATE") der
  write_key_pem o (root_key_path o.root) key

-- `LoadOrGenerateRoot`
unfoldable pub load_or_generate_root : Outside → Run (Unit {0})
unfolding generate_root file_exists
load_or_generate_root o = do
  cert ← file_exists (root_cert_path o.root)
  key ← file_exists (root_key_path o.root)
  if cert && key then pure tt else generate_root o

abbrev pem_bytes : Option (Text × Text) → Option Text
pem_bytes none = none
pem_bytes (some (t, b)) = some b

-- `loadRoot`: the certificate of the root, and its private key.
unfoldable pub load_root : Outside → Run (Cert × Text)
unfolding ◌>>=◌ root_cert_path root_key_path read_file
load_root o = do
  cert_pem ← reads io_failed (read_file (root_cert_path o.root))
  block ←
      or_failed (codes "root CA cert is not valid PEM") (pem_bytes (o.crypto.decode_pem cert_pem))
  cert ← or_failed (codes "parse certificate") (o.crypto.parse_certificate block)
  key_pem ← reads io_failed (read_file (root_key_path o.root))
  key_block ←
      or_failed (codes "root CA key is not valid PEM") (pem_bytes (o.crypto.decode_pem key_pem))
  key ← or_failed (codes "root CA key is not RSA") (o.crypto.parse_rsa_key key_block)
  pure (cert, key)

-- The days that the root has left; an expired one is refused.
unfoldable pub root_days_left : Cert → Run ℕ
unfolding ◌>>=◌ days_left
root_days_left root = do
  left ← gets (λ m. days_left root.not_after m.now)
  if left == 0 then raise (said (codes "mpd root CA has expired")) else pure left

abbrev pub vm_template : Cert → ℕ → Cert
vm_template base id = record base {
  path_len = some 0;
  permitted_domains = zone id ∷ [];
  permitted_domains_critical = true;
}

-- `LoadOrGenerateVM`, when a file is missing.
unfoldable pub generate_vm : Outside → ℕ → Run (Unit {0})
unfolding load_or_generate_root load_root root_days_left min mkdir_all draw base_template vm_ca_dir
    vm_cert_path vm_key_path write_pem write_key_pem pad zone
generate_vm o id = do
  load_or_generate_root o
  root ← load_root o
  left ← root_days_left root.0
  io io_failed (mkdir_all (vm_ca_dir o.root id))
  key ← draw o (λ n. o.crypto.generate_key n 4096) (said (codes "generate key"))
  base ← base_template o (codes "mpd VM " ++ (pad id ++ codes " CA")) (min 397 left)
  der ←
      or_failed (codes "create certificate")
        (o.crypto.create_certificate (vm_template base id) root.0 key root.1)
  write_pem o (vm_cert_path o.root id) (codes "CERTIFICATE") der
  write_key_pem o (vm_key_path o.root id) key

-- `LoadOrGenerateVM`
unfoldable pub load_or_generate_vm : Outside → ℕ → Run (Unit {0})
unfolding generate_vm file_exists
load_or_generate_vm o id = do
  cert ← file_exists (vm_cert_path o.root id)
  key ← file_exists (vm_key_path o.root id)
  if cert && key then pure tt else generate_vm o id

-- The template of a leaf: the first name is its common name.
unfoldable pub leaf_template : Outside → ℕ → Text → List Text → ℕ → ℕ → Cert
leaf_template o serial first sans days now = record {
  serial = serial;
  common_name = first;
  dns_names = first ∷ sans;
  not_before = now - hour;
  not_after = o.crypto.add_days now days;
  is_ca = false;
  basic_constraints_valid = true;
  path_len = none;
  permitted_domains = [];
  permitted_domains_critical = false;
  organization = [];
  organizational_unit = [];
  usage = digital_signature ∷ key_encipherment ∷ server_auth ∷ [];
}

-- `IssueLeaf`, for at least one name.
unfoldable pub issue_leaf_for : Outside → Text → List Text → FilePath → FilePath → Run (Unit {0})
unfolding load_or_generate_root load_root root_days_left min draw leaf_template write_pem
    write_key_pem
issue_leaf_for o first sans cert_path key_path = do
  load_or_generate_root o
  root ← load_root o
  left ← root_days_left root.0
  key ← draw o (λ n. o.crypto.generate_key n 2048) (said (codes "generate key"))
  serial ← draw o o.crypto.random_serial (said (codes "serial"))
  now ← gets (λ m. m.now)
  der ← or_failed (codes "create certificate") (
      o.crypto.create_certificate (leaf_template o serial first sans (min 397 left) now) root.0 key
        root.1)
  write_pem o cert_path (codes "CERTIFICATE") der
  write_key_pem o key_path key

-- `IssueLeaf`
unfoldable pub issue_leaf : Outside → List Text → FilePath → FilePath → Run (Unit {0})
unfolding issue_leaf_for raise
issue_leaf o [] cert_path key_path = raise (said (codes "IssueLeaf: no SANs given"))
issue_leaf o (s ∷ sans) cert_path key_path = issue_leaf_for o s sans cert_path key_path

abbrev negative : ℕ → ℤ
negative zero = pos 0
negative (suc n) = negsuc n

-- `int(time.Until(t).Hours() / 24)`, negative once past.
unfoldable pub signed_days : ℕ → ℕ → ℤ
signed_days not_after now =
    if leb now not_after then pos ((not_after - now) / day) else negative ((now - not_after) / day)

-- `DaysUntilExpiry`
unfoldable pub days_until_expiry : Outside → FilePath → Run ℤ
unfolding ◌>>=◌ read_file signed_days
days_until_expiry o p = do
  pem ← reads io_failed (read_file p)
  block ← or_failed (codes "certificate is not valid PEM") (pem_bytes (o.crypto.decode_pem pem))
  cert ← or_failed (codes "parse certificate") (o.crypto.parse_certificate block)
  gets (λ m. signed_days cert.not_after m.now)

abbrev certificate_block : Option (Text × Text) → Option Text
certificate_block none = none
certificate_block (some (t, b)) = if t == codes "CERTIFICATE" then some b else none

-- `RootFingerprintSHA1`; the digest is in upper-case hex.
unfoldable pub root_fingerprint : Outside → Run Text
unfolding ◌>>=◌ root_cert_path read_file
root_fingerprint o = do
  pem ← reads io_failed (read_file (root_cert_path o.root))
  block ←
      or_failed (codes "root CA cert is not valid PEM")
        (certificate_block (o.crypto.decode_pem pem))
  pure (o.crypto.sha1_hex block)
