-- ===== src/Backend/Create.antt =====
-- go/internal/backend/create.go and delete.go: making a container box, and destroying a box.
pub mod Boot
use mpd_virt_macos.Base.{
  ℕ, zero, suc, ◌+◌, Bool, true, false, ◌||◌, not, ltb, any, List, [], ◌∷◌, ◌++◌, ◌==◌, list_eq,
  nat_eq, Option, none, some, if◌then◌else◌, Result, ok, err,
}
use mpd_virt_macos.Text.{Text, codes, split, fields, trim_space, join}
use mpd_virt_macos.Text.Decimal.{ℤ}
use mpd_virt_macos.Vmid.{name}
use mpd_virt_macos.Backend.{Backend, generic, parallels, container, utm, proxmox, other}
use mpd_virt_macos.Backend.World.{World}
use mpd_virt_macos.Backend.Locate.{container_ip}
use mpd_virt_macos.Host.{Answer, not_launched, ended, Exit, Command, succeeded}
use mpd_virt_macos.Machine.{
  Outside, Mac, Failure, not_run, said, Run, pure, raise, gets, ◌>>=◌, ◌>>◌, require, sleep,
}
use mpd_virt_macos.Machine.Exec.{capture, succeed_or, capture_ok}
use mpd_virt_macos.Backend.Utm.{replace_all}

-- `CreateOpts`
pub record CreateOpts : Type 0 where
  pub image : Text
  pub memory : Text
  pub disk : Text
  pub user : Text
  pub pub_key : Text

-- What was captured; a launch that fails has captured nothing.
abbrev pub stdout_of : Answer → Text
stdout_of (not_launched e) = []
stdout_of (ended r) = r.stdout

-- The loops of `containerExists`: is the name a field of the listing?
unfoldable pub listed_name : Text → Text → Bool
unfolding split fields
listed_name name listing = any (λ line. any (λ f. f == name) (fields line)) (split b'\n' listing)

-- `containerExists`
unfoldable pub container_exists : Outside → Text → Run Bool
unfolding capture ◌>>=◌ listed_name
container_exists o name = do
  a ← capture o (codes "container" ∷ codes "ls" ∷ codes "-a" ∷ [])
  pure (if succeeded a then listed_name name (stdout_of a) else false)

-- The two words with which `waitSystemd` ends its wait.
abbrev pub is_booted : Text → Bool
is_booted s = s == codes "running" || s == codes "degraded"

abbrev pub systemd_probe : Text → Command
systemd_probe name =
    codes "container"
    ∷ codes "exec"
    ∷ name
    ∷ codes "sh"
    ∷ codes "-c"
    ∷ codes "systemctl is-system-running"
    ∷ []

abbrev pub two_seconds : ℕ
two_seconds = 2000000000

-- The loop of `waitSystemd`; without fuel it gives up, too.
unfoldable pub systemd_loop : Outside → Text → ℕ → ℕ → Run (Unit {0})
unfolding capture ◌>>=◌ sleep trim_space raise gets pure
systemd_loop o name deadline zero = raise (said (codes "out of rounds"))
systemd_loop o name deadline (suc fuel) = do
  a ← capture o (systemd_probe name)
  now ← gets (λ m. m.now)
  if is_booted (trim_space (stdout_of a))
      then pure tt
      else if ltb now deadline
      then (sleep two_seconds >> systemd_loop o name deadline fuel)
      else raise (said (codes "did not finish booting systemd in time"))

-- `waitSystemd`: 90 seconds, in at most 46 rounds.
unfoldable pub wait_systemd : Outside → Text → Run (Unit {0})
unfolding systemd_loop
wait_systemd o name = do now ← gets (λ m. m.now); systemd_loop o name (now + 90000000000) 46

-- `shellQuote`
unfoldable pub shell_quote : Text → Text
unfolding replace_all
shell_quote s = b'\'' ∷ (replace_all s b'\'' (codes "'\\''") ++ b'\'' ∷ [])

-- The steps of `seedIdentity`.
unfoldable pub identity_steps : Text → Text → List Command
unfolding shell_quote
identity_steps user pubkey =
    let sudoers = codes "/etc/sudoers.d/90-" ++ user in
    let auth_keys = codes "/home/" ++ (user ++ codes "/.ssh/authorized_keys") in
    (codes "sh"
      ∷ codes "-c"
      ∷ (codes "id "
          ++ (user
              ++ (codes " >/dev/null 2>&1 || useradd --create-home --shell /bin/bash " ++ user)))
      ∷ [])
    ∷ (codes "usermod" ∷ codes "-aG" ∷ codes "sudo" ∷ user ∷ [])
    ∷ (codes "sh"
        ∷ codes "-c"
        ∷ (codes "printf '%s ALL=(ALL) NOPASSWD:ALL\\n' " ++ (user ++ (codes " > " ++ sudoers)))
        ∷ [])
    ∷ (codes "chmod" ∷ codes "0440" ∷ sudoers ∷ [])
    ∷ (codes "install"
        ∷ codes "-d"
        ∷ codes "-m"
        ∷ codes "700"
        ∷ codes "-o"
        ∷ user
        ∷ codes "-g"
        ∷ user
        ∷ (codes "/home/" ++ (user ++ codes "/.ssh"))
        ∷ [])
    ∷ (codes "sh"
        ∷ codes "-c"
        ∷ (codes "printf '%s\\n' " ++ (shell_quote pubkey ++ (codes " > " ++ auth_keys)))
        ∷ [])
    ∷ (codes "chmod" ∷ codes "600" ∷ auth_keys ∷ [])
    ∷ (codes "chown" ∷ (user ++ b':' ∷ user) ∷ auth_keys ∷ [])
    ∷ []

abbrev pub in_container : Text → Command → Command
in_container name args = codes "container" ∷ codes "exec" ∷ name ∷ args

unfoldable pub exec_steps : Outside → Text → List Command → Run (Unit {0})
unfolding capture succeed_or ◌>>=◌
exec_steps o name [] = pure tt
exec_steps o name (s ∷ steps) =
    capture_ok o (in_container name s) (said (codes "provisioning failed"))
    >> exec_steps o name steps

-- `seedIdentity`
unfoldable pub seed_identity : Outside → Text → Text → Text → Run (Unit {0})
unfolding exec_steps identity_steps
seed_identity o name user pubkey = exec_steps o name (identity_steps user pubkey)

abbrev nameserver_of : List Text → List Text → List Text
nameserver_of [] rest = rest
nameserver_of (f ∷ []) rest = rest
nameserver_of (f ∷ g ∷ fs) rest = if f == codes "nameserver" then g ∷ rest else rest

nameservers_of : List Text → List Text
unfolding fields
nameservers_of [] = []
nameservers_of (l ∷ ls) = nameserver_of (fields l) (nameservers_of ls)

-- `nameservers`
unfoldable pub nameservers : Text → List Text
unfolding nameservers_of split
nameservers body = nameservers_of (split b'\n' body)

abbrev is_nil : List Text → Bool
is_nil [] = true
is_nil (s ∷ ss) = false

abbrev pub launched : Answer → Run Text
launched (not_launched e) = raise (not_run e)
launched (ended r) = pure r.stdout

-- `seedResolver`. Only a launch that fails is an error of the first command.
unfoldable pub seed_resolver : Outside → Text → Run (Unit {0})
unfolding capture succeed_or ◌>>=◌ nameservers join
seed_resolver o name = do
  a ← capture o (in_container name (codes "cat" ∷ codes "/etc/resolv.conf" ∷ []))
  out ← launched a
  require (not (is_nil (nameservers out))) (said (codes "no nameserver in /etc/resolv.conf"))
  capture_ok o (in_container name (codes "sh" ∷ codes "-c" ∷ drop_in (nameservers out) ∷ []))
      (said (codes "writing the resolver drop-in failed"))
  active ← capture o (
      in_container name
        (codes "systemctl" ∷ codes "is-active" ∷ codes "--quiet" ∷ codes "systemd-resolved" ∷ []))
  if inactive active
      then pure tt
      else (capture_ok o
            (in_container name
              (codes "systemctl" ∷ codes "reload-or-restart" ∷ codes "systemd-resolved" ∷ []))
            (said (codes "reloading systemd-resolved failed"))
          >> pure tt)
  where
    drop_in : List Text → Text
    drop_in servers =
        codes "mkdir -p /etc/systemd/resolved.conf.d && printf '[Resolve]\\nDNS="
        ++ (join (codes " ") servers
            ++ codes "\\n' > /etc/systemd/resolved.conf.d/00-upstream.conf")

    inactive : Answer → Bool
    inactive (not_launched e) = false
    inactive (ended r) = not (succeeded (ended r))

-- `containerCreate`; the address is what `container inspect` then reports.
unfoldable pub container_create : Outside → ℕ → CreateOpts → Run Text
unfolding container_exists wait_systemd seed_identity seed_resolver container_ip name
container_create o id opts = do
  exists ← container_exists o (name id)
  require (not exists) (said (codes "a container of that name already exists"))
  capture_ok o
      (codes "container"
        ∷ codes "run"
        ∷ codes "-d"
        ∷ codes "--name"
        ∷ name id
        ∷ codes "--cap-add"
        ∷ codes "ALL"
        ∷ codes "--memory"
        ∷ opts.memory
        ∷ opts.image
        ∷ [])
      (said (codes "`container run` failed"))
  wait_systemd o (name id)
  seed_identity o (name id) opts.user opts.pub_key
  seed_resolver o (name id)
  ip ← gets (λ m. container_ip (o.before m.log) (name id))
  if ip == [] then raise (said (codes "`container inspect` reported no IP")) else pure ip
