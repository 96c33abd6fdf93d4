-- ===== src/Machine.antt =====
-- The machine that the commands run on: its files, the commands issued so far, the requests to
-- mpd-proxy, and the clock. What is outside the program is a parameter.
pub mod Keeps
pub mod Untouched
pub mod Outcome
pub mod Exec
pub mod Written
use mpd_virt_macos.Base.{
  ℕ, ◌+◌, suc, Bool, true, false, List, [], ◌∷◌, ◌++◌, Option, none, some, if◌then◌else◌, Result,
  ok, err,
}
use mpd_virt_macos.Text.{Text, codes}
use mpd_virt_macos.Text.Decimal.{ℤ, pos, negsuc}
use mpd_virt_macos.Fs.{FilePath, Fs, IoError, Io}
use mpd_virt_macos.Vmid.{ParseError}
use mpd_virt_macos.Registry
use mpd_virt_macos.Server
use mpd_virt_macos.Backend.{BackendError}
use mpd_virt_macos.Backend.World.{World}
use mpd_virt_macos.Backend.Locate.{LocateError}
use mpd_virt_macos.Host.{Answer, Command, Log, HostError, InstallError, LineError}
use mpd_virt_macos.Proxy.{Request, Response, ProxyError}

-- The key usages, and the extended one, that the program sets.
pub data Usage : Type 0 where
  cert_sign crl_sign digital_signature key_encipherment server_auth : Usage

-- The fields of an x509 certificate that the program sets or reads; times are in nanoseconds. A path
-- length of 0 is MaxPathLen with MaxPathLenZero.
pub record Cert : Type 0 where
  pub serial : ℕ
  pub common_name : Text
  pub dns_names : List Text
  pub not_before : ℕ
  pub not_after : ℕ
  pub is_ca : Bool
  pub basic_constraints_valid : Bool
  pub path_len : Option ℕ
  pub permitted_domains : List Text
  pub permitted_domains_critical : Bool
  pub organization : List Text
  pub organizational_unit : List Text
  pub usage : List Usage

-- crypto/rsa, crypto/x509 and encoding/pem. A private key is a text that only they read. What is
-- drawn from the random source depends on how often it was read. `add_days` is AddDate of the package
-- time, whose days are those of the local calendar.
pub record Crypto : Type 0 where
  pub generate_key : ℕ → ℕ → Option Text
  pub random_serial : ℕ → Option ℕ
  pub create_certificate : Cert → Cert → Text → Text → Option Text
  pub parse_certificate : Text → Option Cert
  pub marshal_key : Text → Option Text
  pub parse_rsa_key : Text → Option Text
  pub encode_pem : Text → Text → Text
  pub decode_pem : Text → Option (Text × Text)
  pub add_days : ℕ → ℕ → ℕ
  pub draw_time : ℕ → ℕ
  pub sha1_hex : Text → Text
  pub sha256_hex : Text → Text

-- What is outside the program. The answer to a command depends on all commands before it. The worlds
-- are what the backend package sees when it starts a box: before the power verb, and in each round
-- of its wait, with the clock of these rounds. A command that writes files, which are `curl`, `tar`
-- and `hdiutil`, leaves others behind it; the size that the host reports of a directory is its own.
pub record Outside : Type 0 where
  pub root : FilePath
  pub ssh_config : FilePath
  pub answer : Log → Command → Answer
  pub duration : Log → Command → ℕ
  pub leaves : Log → Command → Fs → Fs
  pub dir_size : FilePath → ℕ
  pub exchange : Log → List Request → Request → Option Response
  pub before : Log → World
  pub rounds : Log → ℕ → World
  pub round_clock : Log → ℕ → ℕ
  pub lookup : ℕ → Text → Option (List Text)
  pub temp_dir : Fs → FilePath
  pub temp_file : Fs → FilePath
  pub path_text : FilePath → Text
  pub path_dir : Text → Text
  pub path_base : Text → Text
  pub parse_ip : Text → Bool
  pub crypto : Crypto

pub record Mac : Type 0 where
  pub files : Fs
  pub log : Log
  pub asked : List Request
  pub now : ℕ
  pub drawn : ℕ

-- The errors that a command ends with. `said` has the words that the message begins with.
pub data Failure : Type 0 where
  io_failed : IoError → Failure
  bad_id : ParseError → Failure
  bad_backend : BackendError → Failure
  bad_name : Server.NameError → Failure
  no_entry : Registry.LoadError → Failure
  no_server : Server.LoadError → Failure
  host_failed : HostError → Failure
  install_failed : InstallError → Failure
  line_failed : LineError → Failure
  proxy_failed : ProxyError → Failure
  not_located : LocateError → Failure
  not_run : Text → Failure
  said : Text → Failure

abbrev pub Run : Type 0 → Type 0
Run A = Mac → Mac × Result Failure A

module _ {A : Type 0} where
  unfoldable pub pure : A → Run A
  pure a m = (m, ok a)

  unfoldable pub raise : Failure → Run A
  raise e m = (m, err e)

  abbrev pub result_of : {E : Type 0} → (E → Failure) → Result E A → Result Failure A
  result_of f (ok a) = ok a
  result_of f (err e) = err (f e)

  -- A value or an error that depends on nothing, or on the machine.
  unfoldable pub lift : {E : Type 0} → (E → Failure) → Result E A → Run A
  lift f r m = (m, result_of f r)

  unfoldable pub gets : (Mac → A) → Run A
  gets f m = (m, ok (f m))

  unfoldable pub reads : {E : Type 0} → (E → Failure) → (Fs → Result E A) → Run A
  reads f g m = (m, result_of f (g m.files))

  -- An operation on the files.
  unfoldable pub io : {E : Type 0} → (E → Failure) → Io E A → Run A
  io f g m = let done = g m.files in (record m { files = done.0 }, result_of f done.1)

module _ {A B : Type 0} where
  abbrev pub continue : Mac × Result Failure A → (A → Run B) → Mac × Result Failure B
  continue (m, ok a) f = f a m
  continue (m, err e) f = (m, err e)

  infixl 5 ◌>>=◌ ◌>>◌
  unfoldable pub ◌>>=◌ : Run A → (A → Run B) → Run B
  unfolding pure raise lift gets reads io
  ◌>>=◌ r f m = continue (r m) f

  abbrev pub ◌>>◌ : Run A → Run B → Run B
  r >> s = r >>= λ _. s

  -- The code that follows looks at the error itself.
  unfoldable pub attempt : Run A → (Result Failure A → Run B) → Run B
  unfolding pure raise lift gets reads io
  attempt r f m = let done = r m in f done.1 done.0

-- An error that is printed, or not looked at.
abbrev pub ignored : {A : Type 0} → Result Failure A → Run (Unit {0})
ignored r = pure tt

abbrev pub best_effort : {A : Type 0} → Run A → Run (Unit {0})
best_effort r = attempt r ignored

abbrev pub require : Bool → Failure → Run (Unit {0})
require b e = if b then pure tt else raise e

unfoldable pub sleep : ℕ → Run (Unit {0})
sleep n m = (record m { now = m.now + n }, ok tt)

-- One read of the random source, which may take its time: a key is generated so.
unfoldable pub draw : Outside → {A : Type 0} → (ℕ → Option A) → Failure → Run A
unfolding lift
draw o f e m = (
  record m { drawn = suc m.drawn; now = m.now + o.crypto.draw_time m.drawn },
  elim (f m.drawn) [ some a ↦ ok a | none ↦ err e ],
)
