-- ===== src/Cli/Takeover.antt =====
-- go/internal/cli/takeover.go: adopting a box.
pub mod Records
pub mod Checked
use mpd_virt_macos.Base.{
  ℕ, ◌+◌, ◌*◌, Bool, true, false, List, [], ◌∷◌, ◌++◌, ◌==◌, list_eq, nat_eq, Option, none, some,
  if◌then◌else◌, Result, ok, err,
}
use mpd_virt_macos.Text.{Text, codes}
use mpd_virt_macos.Text.Decimal.{ℤ}
use mpd_virt_macos.Fs.{FilePath}
use mpd_virt_macos.Vmid
use mpd_virt_macos.Vmid.{name, pad}
use mpd_virt_macos.Registry
use mpd_virt_macos.Sshconfig
use mpd_virt_macos.Backend
use mpd_virt_macos.Backend.{Backend, text_of, of_text}
use mpd_virt_macos.Backend.Power.Verbs.{issued}
use mpd_virt_macos.Backend.Start
use mpd_virt_macos.Backend.Start.{budget}
use mpd_virt_macos.Backend.State.{query_state}
use mpd_virt_macos.Backend.Queries.{state_query, searches, issue_all}
use mpd_virt_macos.Backend.Locate.{LocateError}
use mpd_virt_macos.Host.{Target, is_zero, succeeded}
use mpd_virt_macos.Host.Remote.{ssh, stream, check, remote_line, push}
use mpd_virt_macos.Ca.{
  load_or_generate_root, load_or_generate_vm, root_cert_path, vm_cert_path, vm_key_path,
}
use mpd_virt_macos.Cli.LanHosts.{push_lan_hosts}
use mpd_virt_macos.Cli.Reach.{setup_reachability}
use mpd_virt_macos.Cli.Trust.{check_ca_trust}
use mpd_virt_macos.Machine.{
  Outside, Mac, Failure, io_failed, bad_id, bad_backend, no_entry, not_located, said, Run, pure,
  raise, lift, gets, reads, io, ◌>>=◌, ◌>>◌, attempt, best_effort, require,
}
use mpd_virt_macos.Machine.Exec.{succeed_or}

-- `step`: one streamed command of the bootstrap.
unfoldable pub step : Outside → Target → Text → Run (Unit {0})
unfolding stream ◌>>=◌
step o t remote = do code ← stream o t remote; require (is_zero code) (said (codes "step failed"))

-- A command whose output does not matter.
unfoldable pub passes : Outside → Target → Text → Text → Run (Unit {0})
unfolding ssh succeed_or ◌>>=◌
passes o t remote words = do a ← ssh o t remote; succeed_or (said words) a; pure tt

-- The identity checks of `runTakeover`.
unfoldable pub conforms : Outside → Target → ℕ → Run (Unit {0})
unfolding check remote_line passes name
conforms o t id = do
  check o t
  got ← remote_line o t (codes "hostname")
  require (got == name id) (said (codes "hostname mismatch"))
  passes o t (codes "sudo -n true") (codes "passwordless sudo not available")
  os_id ←
      remote_line o t (codes ". /etc/os-release && printf '%s %s' \"$ID\" \"$VERSION_CODENAME\"")
  require (os_id == codes "debian trixie") (said (codes "OS mismatch"))
  passes o t (codes "systemctl is-active --quiet systemd-resolved") (codes "box is not prepared")

abbrev ca_dir : Text
ca_dir = codes "/var/lib/mpd/conf/caroot"

-- The three files of the CA that go into the box.
unfoldable pub push_ca : Outside → Target → ℕ → Run (Unit {0})
unfolding push root_cert_path vm_cert_path vm_key_path ◌>>=◌
push_ca o t id = do
  push o t (o.path_text (root_cert_path o.root)) (ca_dir ++ codes "/rootCA.pem") (codes "0644")
  push o t (o.path_text (vm_cert_path o.root id)) (ca_dir ++ codes "/vmCA.pem") (codes "0644")
  push o t (o.path_text (vm_key_path o.root id)) (ca_dir ++ codes "/vmCA-key.pem") (codes "0600")

abbrev bootstrap_url : Text
bootstrap_url = codes "https://raw.githubusercontent.com/mutms/mpd/main/bootstrap"

-- The provisioning of the box.
unfoldable pub provision : Outside → Target → ℕ → Run (Unit {0})
unfolding step push_ca push_lan_hosts
provision o t id = do
  step o t (codes "bash <(wget -qO- " ++ (bootstrap_url ++ codes "/10-passwordless-sudo.sh)"))
  step o t (codes "bash <(wget -qO- " ++ (bootstrap_url ++ codes "/20-git-clone.sh)"))
  push_ca o t id
  push_lan_hosts o t
  step o t (codes "bash /opt/mpd/bootstrap/40-install-software.sh")
  step o t (codes "bash /opt/mpd/bootstrap/50-build.sh")
  step o t (codes "/opt/mpd/bin/mpd --vm-setup")

abbrev pub entry_for : ℕ → Text → Text → Backend → Registry.Entry
entry_for id ip user be = record { id = id; ip = ip; user = user; backend = text_of be }

-- The host-side records of the box.
unfoldable pub record_box : Outside → ℕ → Text → Text → Backend → Run (Unit {0})
unfolding io ◌>>=◌ text_of
record_box o id ip user be = do
  io io_failed (Registry.save o.root (entry_for id ip user be))
  io io_failed (Sshconfig.write o.ssh_config id ip user)

abbrev pub box_target : Text → Text → Target
box_target ip user = record { user = user; address = ip }

-- `runTakeover`
unfoldable pub run_takeover : Outside → ℕ → Text → Text → Backend → Run (Unit {0})
unfolding conforms load_or_generate_root load_or_generate_vm provision record_box setup_reachability
    check_ca_trust attempt
run_takeover o id ip user be = do
  conforms o (box_target ip user) id
  load_or_generate_root o
  load_or_generate_vm o id
  provision o (box_target ip user) id
  record_box o id ip user be
  best_effort (setup_reachability o (box_target ip user) id ip)
  best_effort (check_ca_trust o)

-- In nanoseconds, like the clock.
abbrev a_second : ℕ
a_second = 1000000000

abbrev last_address : Result Registry.LoadError Registry.Entry → Option Text
last_address (ok e) = some e.ip
last_address (err e) = none

abbrev located : Option (Result LocateError Text) → Result Failure Text
located none = err (said (codes "out of rounds"))
located (some (ok ip)) = ok ip
located (some (err e)) = err (not_located e)

-- `backend.Start`: its commands are the query of the state, the power verbs, and the queries of the
-- rounds of the wait, up to the one in which it returns. The clock of that round, in whole seconds, is
-- the time of the wait.
unfoldable pub start_box : Outside → ℕ → Backend → Run Text
unfolding Start.start Start.ended_in Registry.load issue_all state_query searches
start_box o id be m =
    let last = last_address (Registry.load o.root id m.files) in
    let before = o.before m.log in
    let run = Start.start (o.rounds m.log) (o.round_clock m.log) before id be last in
    let limit = budget be (query_state before id be) in
    let round =
      Start.ended_in (o.rounds m.log) (o.round_clock m.log) Start.start_fuel limit id be last 0 in
    let powered = issue_all o (state_query id be ++ issued run.0) m in
    (
      record powered {
        log = powered.log ++ searches id be round;
        now = powered.now + a_second * o.round_clock m.log round;
      },
      located run.1,
    )

abbrev pub recorded_backend : Outside → ℕ → Text → Run Text
recorded_backend o id flag =
    if flag == []
    then (reads no_entry (Registry.load o.root id) >>= λ e. pure e.backend)
    else pure flag

abbrev pub address_or_start : Outside → ℕ → Backend → Option Text → Run Text
address_or_start o id be none = start_box o id be
address_or_start o id be (some ip) = pure ip

-- The takeover command, on its arguments: the id, the address, the user and the backend's flag.
unfoldable pub takeover : Outside → Text → Option Text → Text → Text → Run (Unit {0})
unfolding run_takeover start_box Vmid.parse Backend.parse
takeover o arg address user flag = do
  id ← lift bad_id (Vmid.parse arg)
  recorded ← recorded_backend o id flag
  be ← lift bad_backend (Backend.parse recorded)
  ip ← address_or_start o id be address
  run_takeover o id ip user be
