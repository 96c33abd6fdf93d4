-- ===== src/Cli/Lifecycle.antt =====
-- go/internal/cli: the commands on an adopted box (reachability.go, update.go, delete.go, create.go,
-- uninstall.go).
pub mod Removal
use mpd_virt_macos.Base.{
  ℕ, Bool, true, false, not, ◌||◌, any, List, [], ◌∷◌, ◌++◌, ◌==◌, list_eq, nat_eq, Option, none,
  some, if◌then◌else◌, Result, ok, err,
}
use mpd_virt_macos.Text.{Text, codes, trim_space}
use mpd_virt_macos.Text.Decimal.{ℤ}
use mpd_virt_macos.Fs.{FilePath, Fs, stat, read_file}
use mpd_virt_macos.Vmid
use mpd_virt_macos.Vmid.{name, pad}
use mpd_virt_macos.Registry
use mpd_virt_macos.Sshconfig
use mpd_virt_macos.Backend
use mpd_virt_macos.Backend.{Backend, of_text}
use mpd_virt_macos.Backend.Create.{CreateOpts}
use mpd_virt_macos.Backend.Delete
use mpd_virt_macos.Backend.Power.{power_off}
use mpd_virt_macos.Backend.Power.Verbs.{issued}
use mpd_virt_macos.Host.{Target, is_zero}
use mpd_virt_macos.Host.Remote.{stream}
use mpd_virt_macos.Proxy.Client
use mpd_virt_macos.Uninstall.{WipeError, wipe_host_state}
use mpd_virt_macos.Cli.Trust.{check_ca_trust, report_ca_trust_store}
use mpd_virt_macos.Machine.{
  Outside, Mac, Failure, io_failed, bad_id, bad_backend, no_entry, said, Run, pure, raise, lift,
  gets, reads, io, ◌>>=◌, ◌>>◌, attempt, best_effort, require,
}
use mpd_virt_macos.Cli.LanHosts.{push_lan_hosts, sync_lan_hosts}
use mpd_virt_macos.Cli.Reach.{setup_reachability, verify_reachable}
use mpd_virt_macos.Backend.Queries.{state_query, issue_all}
use mpd_virt_macos.Cli.Takeover.{start_box, entry_for, box_target, run_takeover}

-- The user of a command: the flag's, or the one of the entry.
abbrev user_or : Text → Registry.Entry → Text
user_or flag e = if flag == [] then e.user else flag

abbrev pub verify_if : Outside → ℕ → Bool → Run (Unit {0})
verify_if o id wired = if wired then best_effort (verify_reachable o id) else pure tt

-- The registry's part of `start`: the entry follows the box.
unfoldable pub moved_to : Outside → Registry.Entry → Text → Text → Run (Unit {0})
unfolding io Registry.save pure
moved_to o e user ip =
    if ip == e.ip
    then pure tt
    else io io_failed (Registry.save o.root (record e { ip = ip; user = user }))

-- The start command.
unfoldable pub start : Outside → Text → Text → Run (Unit {0})
unfolding Vmid.parse Registry.load start_box moved_to Sshconfig.write sync_lan_hosts
    setup_reachability verify_reachable check_ca_trust attempt
start o arg flag = do
  id ← lift bad_id (Vmid.parse arg)
  e ← reads no_entry (Registry.load o.root id)
  ip ← start_box o id (of_text e.backend)
  moved_to o e (user_or flag e) ip
  io io_failed (Sshconfig.write o.ssh_config id ip (user_or flag e))
  best_effort (sync_lan_hosts o (box_target ip (user_or flag e)))
  wired ← setup_reachability o (box_target ip (user_or flag e)) id ip
  verify_if o id wired
  best_effort (check_ca_trust o)

-- `backend.Stop`: its commands are the query of the state and the power verbs.
unfoldable pub stop_box : Outside → ℕ → Backend → Run (Unit {0})
unfolding power_off issue_all state_query
stop_box o id be m =
    (issue_all o (state_query id be ++ issued (power_off (o.before m.log) id be)) m, ok tt)

-- The stop command.
unfoldable pub stop : Outside → Text → Run (Unit {0})
unfolding Vmid.parse Registry.load Client.remove attempt stop_box
stop o arg = do
  id ← lift bad_id (Vmid.parse arg)
  e ← reads no_entry (Registry.load o.root id)
  best_effort (Client.remove o (pad id))
  stop_box o id (of_text e.backend)

abbrev pub wired_or : Result Failure Bool → Run Bool
wired_or (ok wired) = pure wired
wired_or (err e) = pure false

-- The update command.
unfoldable pub update : Outside → Text → Text → Run (Unit {0})
unfolding Vmid.parse Registry.load push_lan_hosts stream setup_reachability verify_reachable attempt
update o arg flag = do
  id ← lift bad_id (Vmid.parse arg)
  e ← reads no_entry (Registry.load o.root id)
  best_effort (push_lan_hosts o (box_target e.ip (user_or flag e)))
  code ← stream o (box_target e.ip (user_or flag e)) (codes "bash /opt/mpd/bootstrap/99-update.sh")
  require (is_zero code) (said (codes "update failed"))
  wired ← attempt (setup_reachability o (box_target e.ip (user_or flag e)) id e.ip) wired_or
  verify_if o id wired

-- `confirmWord`, on the line that was read.
unfoldable pub confirm_word : Text → Option Text → Bool
unfolding trim_space
confirm_word want none = false
confirm_word want (some line) = trim_space line == want

-- What the delete command does once it is confirmed.
unfoldable pub delete_box : Outside → ℕ → Backend → Bool → Run (Unit {0})
unfolding Client.remove Delete.delete Sshconfig.strip Registry.remove io attempt ◌>>=◌
delete_box o id be keep_vm = do
  best_effort (Client.remove o (pad id))
  if keep_vm then pure tt else best_effort (Delete.delete o id be)
  io io_failed (Sshconfig.strip o.ssh_config id)
  io io_failed (Registry.remove o.root id)

-- The delete command, on its argument, the line typed, and its flags.
unfoldable pub delete : Outside → Text → Option Text → Bool → Bool → Run (Unit {0})
unfolding Vmid.parse Registry.load confirm_word delete_box
delete o arg typed assume_yes keep_vm = do
  id ← lift bad_id (Vmid.parse arg)
  e ← reads no_entry (Registry.load o.root id)
  if assume_yes || confirm_word (name id) typed
      then delete_box o id (of_text e.backend) keep_vm
      else pure tt

key_names : List Text
key_names = codes "id_ed25519.pub" ∷ codes "id_rsa.pub" ∷ codes "id_ecdsa.pub" ∷ []

-- The search of `readPubKey` for a default key, in the directory `.ssh`.
unfoldable pub default_key : FilePath → List Text → Fs → Option FilePath
unfolding stat
default_key dir [] fs = none
default_key dir (n ∷ ns) fs =
    let rest = default_key dir ns fs in
    elim (stat (dir ++ n ∷ []) fs) [ ok node ↦ some (dir ++ n ∷ []) | err e ↦ rest ]

abbrev pub found_or_fail : Option FilePath → Run FilePath
found_or_fail none = raise (said (codes "no default SSH public key in ~/.ssh"))
found_or_fail (some p) = pure p

unfoldable pub key_path : FilePath → Option FilePath → Run FilePath
unfolding default_key key_names gets pure ◌>>=◌
key_path dir (some p) = pure p
key_path dir none = gets (λ m. default_key dir key_names m.files) >>= found_or_fail

-- `readPubKey`
unfoldable pub read_pub_key : FilePath → Option FilePath → Run Text
unfolding key_path read_file trim_space ◌>>=◌
read_pub_key dir flag = do
  p ← key_path dir flag
  body ← reads io_failed (read_file p)
  if trim_space body == []
      then raise (said (codes "public key is empty"))
      else pure (trim_space body)

-- The create command: the address is the new box's, which is then adopted.
unfoldable pub create :
    Outside → FilePath → Text → Text → Text → Option FilePath → CreateOpts → Run (Unit {0})
unfolding Vmid.parse Backend.parse read_pub_key Delete.create run_takeover
create o ssh_dir arg flag user key opts = do
  id ← lift bad_id (Vmid.parse arg)
  be ← lift bad_backend (Backend.parse flag)
  pub_key ← read_pub_key ssh_dir key
  ip ← Delete.create o id be (record opts {
    image = if opts.image == [] then codes "mpd-virt-container-apple" else opts.image;
    user = user;
    pub_key = pub_key;
  })
  run_takeover o id ip user be

abbrev pub wiped : WipeError → Failure
wiped e = said (codes "remove")

-- A box of the uninstall command is stopped, and its block is taken out.
unfoldable pub stop_one : Outside → Registry.Entry → Run (Unit {0})
unfolding stop_box Sshconfig.strip io attempt ◌>>=◌
stop_one o e = do
  best_effort (stop_box o e.id (of_text e.backend))
  best_effort (io io_failed (Sshconfig.strip o.ssh_config e.id))

unfoldable pub stop_each : Outside → List Registry.Entry → Run (Unit {0})
unfolding stop_one
stop_each o [] = pure tt
stop_each o (e ∷ es) = stop_one o e >> stop_each o es

-- What the uninstall command does once it is confirmed.
unfoldable pub uninstall_all : Outside → List Registry.Entry → Run (Unit {0})
unfolding stop_each wipe_host_state report_ca_trust_store
uninstall_all o entries = do
  stop_each o entries
  io wiped (wipe_host_state o.root)
  best_effort (report_ca_trust_store o)

-- The uninstall command.
unfoldable pub uninstall : Outside → Option Text → Bool → Run (Unit {0})
unfolding Registry.list confirm_word uninstall_all
uninstall o typed assume_yes = do
  entries ← reads io_failed (Registry.list o.root)
  if assume_yes || confirm_word (codes "uninstall") typed then uninstall_all o entries else pure tt
