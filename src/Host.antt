-- ===== src/Host.antt =====
-- go/internal/host/ssh.go: what the program does on a box over ssh and scp. The commands of a run are
-- logged in order, and how one ends, which may depend on all before it, is a parameter.
pub mod Install
pub mod Number
pub mod Remote
use mpd_virt_macos.Base.{
  ℕ, zero, suc, ◌/◌, ◌%◌, ◌+◌, Bool, true, false, not, ◌&&◌, ◌||◌, List, [], ◌∷◌, ◌++◌, ◌==◌,
  list_eq, nat_eq, if◌then◌else◌, Result, ok, err,
}
use mpd_virt_macos.Text.{Text, codes, contains, trim_space}
use mpd_virt_macos.Text.Decimal.{ℤ, pos, negsuc}
use mpd_virt_macos.Fs.{FilePath, dir_of}

pub record Target : Type 0 where
  pub user : Text
  pub address : Text

abbrev pub Command : Type 0
Command = List Text

-- `exec.Result`
pub record Exit : Type 0 where
  pub stdout : Text
  pub stderr : Text
  pub code : ℤ

-- What `exec.Capture` returns: the error of a launch that failed, or how the command ended.
pub data Answer : Type 0 where
  not_launched : Text → Answer
  ended : Exit → Answer

unfoldable pub addr : Target → Text
addr t = t.user ++ b'@' ∷ t.address

abbrev ssh_options : List Text
ssh_options =
    codes "-o"
    ∷ codes "BatchMode=yes"
    ∷ codes "-o"
    ∷ codes "StrictHostKeyChecking=accept-new"
    ∷ codes "-o"
    ∷ codes "ConnectTimeout=6"
    ∷ []

unfoldable pub ssh_args : Target → Text → Command
unfolding addr
ssh_args t remote = codes "ssh" ∷ (ssh_options ++ addr t ∷ remote ∷ [])

unfoldable pub scp_args : Target → Text → Text → Command
unfolding addr
scp_args t local_path dest =
    codes "scp" ∷ (ssh_options ++ local_path ∷ (addr t ++ b':' ∷ dest) ∷ [])

unfoldable pub one_of : Text → Text → Text
one_of a b = if a == [] then b else a

unfoldable pub first_line : Text → Text
first_line [] = []
first_line (c ∷ s) = let rest = first_line s in if c == b'\n' then [] else c ∷ rest

-- `shortErr` of go/internal/backend/start.go: one line of what a failed command has printed.
unfoldable pub short_err : Exit → Text
unfolding one_of first_line
short_err r =
    one_of (first_line (one_of (trim_space r.stderr) (trim_space r.stdout))) (codes "non-zero exit")

-- `Result.Failed`
abbrev pub is_zero : ℤ → Bool
is_zero (pos zero) = true
is_zero (pos (suc n)) = false
is_zero (negsuc n) = false

pub data HostError : Type 0 where
  host_key_changed no_answer : Text → HostError
  refused_key : Text → HostError
  cannot_ssh : Text → Text → HostError

unfoldable pub classify : Target → Text → HostError
unfolding one_of addr
classify t detail =
    if contains (codes "REMOTE HOST IDENTIFICATION HAS CHANGED") detail
      || contains (codes "Host key verification failed") detail
    then host_key_changed t.address
    else if contains (codes "Permission denied") detail
    then refused_key (addr t)
    else if contains (codes "Connection timed out") detail
        || (contains (codes "No route to host") detail
            || (contains (codes "Connection refused") detail
                || contains (codes "Name or service not known") detail))
    then no_answer t.address
    else cannot_ssh (addr t) (one_of (trim_space detail) (codes "ssh failed without output"))

-- Did the command run and exit with 0?
abbrev pub succeeded : Answer → Bool
succeeded (not_launched e) = false
succeeded (ended r) = is_zero r.code

-- `Reachable`, on the answer to the command `true`.
unfoldable pub reachable : Answer → Bool
reachable a = succeeded a

abbrev detail_of : Answer → Text
detail_of (not_launched e) = e
detail_of (ended r) = r.stderr

-- `CheckReachable`, on the same answer. A launch that fails has no output.
unfoldable pub check_reachable : Target → Answer → Result HostError (Unit {0})
unfolding classify
check_reachable t a = if succeeded a then ok tt else err (classify t (detail_of a))

pub data InstallError : Type 0 where
  launch : Text → InstallError
  mkdir scp chmod : Text → Text → InstallError

abbrev pub Log : Type 0
Log = List Command

abbrev pub step_error : (Text → InstallError) → Answer → Result InstallError (Unit {0})
step_error failure (not_launched e) = err (launch e)
step_error failure (ended r) =
    if is_zero r.code then ok tt else err (failure (one_of r.stderr r.stdout))

abbrev pub behind :
    Result InstallError (Unit {0})
    → (Log → Log × Result InstallError (Unit {0}))
    → Log
    → Log × Result InstallError (Unit {0})
behind (ok x) next log = next log
behind (err e) next log = (log, err e)

-- `path.Dir` and `path.Base` are parameters.
module _ (path_dir path_base : Text → Text) (answer : Log → Command → Answer) where
  -- One command of `Install`: it is issued, and its error ends the run.
  abbrev pub install_step :
      Command
      → (Text → InstallError)
      → (Log → Log × Result InstallError (Unit {0}))
      → Log
      → Log × Result InstallError (Unit {0})
  install_step c failure next log = behind (step_error failure (answer log c)) next (log ++ c ∷ [])

  -- `Install`
  unfoldable pub install : Target → Text → Text → Text → Log → Log × Result InstallError (Unit {0})
  unfolding ssh_args scp_args one_of
  install t local_path remote_path mode =
      install_step (ssh_args t (codes "mkdir -p " ++ path_dir remote_path))
        (mkdir (path_dir remote_path))
        (install_step (scp_args t local_path remote_path) (scp (path_base remote_path)) (
          install_step (ssh_args t (codes "chmod " ++ (mode ++ b' ' ∷ remote_path)))
            (chmod remote_path) (λ log. (log, ok tt))))

-- `Line`, on the answer to its command.
pub data LineError : Type 0 where
  line_launch : Text → LineError
  remote_error : ℤ → Text → LineError

unfoldable pub line : Answer → Result LineError Text
unfolding one_of
line (not_launched e) = err (line_launch e)
line (ended r) =
    if is_zero r.code
    then ok (trim_space r.stdout)
    else err (remote_error r.code (one_of r.stderr r.stdout))

-- The loop of `itoa`: one digit in front for each round, until the number is 0.
unfoldable pub itoa_loop : ℕ → ℕ → Text → Text
itoa_loop zero n acc = acc
itoa_loop (suc fuel) n acc =
    let more = itoa_loop fuel (n / 10) ((b'0' + n % 10) ∷ acc) in if n == 0 then acc else more

-- What an `int` of 64 bits can be below 0.
abbrev pub min_int : ℕ
min_int = 9223372036854775808

-- `-n` of a number below 0: the least one is its own negative.
unfoldable pub negated : ℕ → ℤ
negated n = if suc n == min_int then negsuc n else pos (suc n)

-- `for n > 0`: a number below 0 has no digits. n rounds are enough for the number n.
unfoldable pub digits_of : ℤ → Text
unfolding itoa_loop
digits_of (pos n) = itoa_loop n n []
digits_of (negsuc n) = []

-- `itoa`
unfoldable pub itoa : ℤ → Text
unfolding digits_of negated
itoa (pos zero) = b'0' ∷ []
itoa (pos (suc n)) = digits_of (pos (suc n))
itoa (negsuc n) = b'-' ∷ digits_of (negated n)

-- `RemoteError.Error`
unfoldable pub remote_message : Text → ℤ → Text → Text
unfolding itoa
remote_message remote code msg =
    if msg == []
    then remote ++ (codes ": exit " ++ itoa code)
    else remote ++ (codes ": exit " ++ (itoa code ++ (codes ": " ++ msg)))
