-- ===== src/Cli/Session/Effects.antt =====
-- Everything that the commands do to the machine: what keeps a property under each of these keeps it
-- under every command.
use mpd_virt_macos.Base.{ℕ, false, [], ◌∷◌, ◌++◌, Option, list_eq, nat_eq, list_beq, refl, ◌≡◌}
use mpd_virt_macos.Text.{Text, codes}
use mpd_virt_macos.Text.Decimal.{ℤ}
use mpd_virt_macos.Fs.{FilePath, mkdir_all, write_file, remove_all}
use mpd_virt_macos.Fs.Files.{remove}
use mpd_virt_macos.Paths.{utm_staging}
use mpd_virt_macos.Backend.{Backend}
use mpd_virt_macos.Backend.Cloudinit.{make_cidata_iso}
use mpd_virt_macos.Backend.Cloudinit.Disk.{materialize_disk}
use mpd_virt_macos.Ca.{write_pem, load_or_generate_root, vm_ca_dir, vm_cert_path, vm_key_path}
use mpd_virt_macos.Host.{Target, Command, ssh_args}
use mpd_virt_macos.Host.Remote.{push}
use mpd_virt_macos.Machine.{Outside, Mac, Failure, io_failed, io, sleep, draw}
use mpd_virt_macos.Machine.Exec.{capture}
use mpd_virt_macos.Machine.Keeps.{Keeps, keeps_rules}
use mpd_virt_macos.Proxy.{Request}
use mpd_virt_macos.Proxy.Client.{call}
use mpd_virt_macos.Registry
use mpd_virt_macos.Server
use mpd_virt_macos.Sshconfig
use mpd_virt_macos.Uninstall.{wipe_host_state}
use mpd_virt_macos.Cli.Takeover.{start_box}
use mpd_virt_macos.Cli.Lifecycle.{stop_box, wiped}
use mpd_virt_macos.Cli.Servers.{cert_path, key_path, sans_path}
use mpd_virt_macos.Cli.Session.{is_scp, IsShared}

-- The certificates and keys that the program writes besides those of the root.
pub data Issue (o : Outside) : FilePath → Type 0 where
  vm_cert : (id : ℕ) → Issue o (vm_cert_path o.root id)
  vm_key : (id : ℕ) → Issue o (vm_key_path o.root id)
  leaf_cert : (name : Text) → Issue o (cert_path o.root name)
  leaf_key : (name : Text) → Issue o (key_path o.root name)

abbrev pub staged : Outside → Text → FilePath
staged o name = utm_staging o.root name

pub record Effects (o : Outside) (P : Mac → Type 0) : Type 1 where
  pub captured : (c : Command) → is_scp c ≡ false → Keeps P (capture o c)
  pub pushed :
      (t : Target) (file remote mode : Text) → IsShared o file → Keeps P (push o t file remote mode)
  pub started : (id : ℕ) (be : Backend) → Keeps P (start_box o id be)
  pub halted : (id : ℕ) (be : Backend) → Keeps P (stop_box o id be)
  pub slept : (n : ℕ) → Keeps P (sleep n)
  pub drawn : {A : Type 0} (f : ℕ → Option A) (e : Failure) → Keeps P (draw o f e)
  pub called : (req : Request) → Keeps P (call o req)
  pub rooted : Keeps P (load_or_generate_root o)
  pub issued : (p : FilePath) (kind der : Text) → Issue o p → Keeps P (write_pem o p kind der)
  pub ca_dir_made : (id : ℕ) → Keeps P (io io_failed (mkdir_all (vm_ca_dir o.root id)))
  pub signed : (name body : Text) → Keeps P (io io_failed (write_file (sans_path o.root name) body))
  pub box_saved : (e : Registry.Entry) → Keeps P (io io_failed (Registry.save o.root e))
  pub box_removed : (id : ℕ) → Keeps P (io io_failed (Registry.remove o.root id))
  pub block_written :
      (id : ℕ) (ip user : Text) → Keeps P (io io_failed (Sshconfig.write o.ssh_config id ip user))
  pub block_stripped : (id : ℕ) → Keeps P (io io_failed (Sshconfig.strip o.ssh_config id))
  pub server_saved : (e : Server.Entry) → Keeps P (io io_failed (Server.save o.root e))
  pub server_removed : (name : Text) → Keeps P (io io_failed (Server.remove o.root name))
  pub hosts_written : Keeps P (io io_failed (Server.write_hosts_file o.root))
  pub staging_made : (name : Text) → Keeps P (io io_failed (mkdir_all (staged o name)))
  pub staging_removed : (name : Text) → Keeps P (io io_failed (remove_all (staged o name)))
  pub seed_removed : (name n : Text) → Keeps P (io io_failed (remove (staged o name ++ n ∷ [])))
  pub seed_made :
      (name n user key host config : Text)
      → Keeps P (make_cidata_iso o (staged o name ++ n ∷ []) user key host config)
  pub disk_made :
      (name n : Text) (gib : ℤ) → Keeps P (materialize_disk o (staged o name ++ n ∷ []) gib)
  pub state_wiped : Keeps P (io wiped (wipe_host_state o.root))

-- The rules for `search`, one for each way to act.
module _ {o : Outside} {P : Mac → Type 0} (g : Effects o P) where
  pub Keeps-push :
      (t : Target) (file remote mode : Text) → IsShared o file → Keeps P (push o t file remote mode)
  Keeps-push = g.pushed

  pub Keeps-start_box : (id : ℕ) (be : Backend) → Keeps P (start_box o id be)
  Keeps-start_box = g.started

  pub Keeps-stop_box : (id : ℕ) (be : Backend) → Keeps P (stop_box o id be)
  Keeps-stop_box = g.halted

  pub Keeps-sleep : (n : ℕ) → Keeps P (sleep n)
  Keeps-sleep = g.slept

  pub Keeps-draw : {A : Type 0} (f : ℕ → Option A) (e : Failure) → Keeps P (draw o f e)
  Keeps-draw = g.drawn

  pub Keeps-call : (req : Request) → Keeps P (call o req)
  Keeps-call = g.called

  pub Keeps-rooted : Keeps P (load_or_generate_root o)
  Keeps-rooted = g.rooted

  pub Keeps-ca_dir_made : (id : ℕ) → Keeps P (io io_failed (mkdir_all (vm_ca_dir o.root id)))
  Keeps-ca_dir_made = g.ca_dir_made

  pub Keeps-signed :
      (name body : Text) → Keeps P (io io_failed (write_file (sans_path o.root name) body))
  Keeps-signed = g.signed

  pub Keeps-box_saved : (e : Registry.Entry) → Keeps P (io io_failed (Registry.save o.root e))
  Keeps-box_saved = g.box_saved

  pub Keeps-box_removed : (id : ℕ) → Keeps P (io io_failed (Registry.remove o.root id))
  Keeps-box_removed = g.box_removed

  pub Keeps-block_written :
      (id : ℕ) (ip user : Text) → Keeps P (io io_failed (Sshconfig.write o.ssh_config id ip user))
  Keeps-block_written = g.block_written

  pub Keeps-block_stripped : (id : ℕ) → Keeps P (io io_failed (Sshconfig.strip o.ssh_config id))
  Keeps-block_stripped = g.block_stripped

  pub Keeps-server_saved : (e : Server.Entry) → Keeps P (io io_failed (Server.save o.root e))
  Keeps-server_saved = g.server_saved

  pub Keeps-server_removed : (name : Text) → Keeps P (io io_failed (Server.remove o.root name))
  Keeps-server_removed = g.server_removed

  pub Keeps-hosts_written : Keeps P (io io_failed (Server.write_hosts_file o.root))
  Keeps-hosts_written = g.hosts_written

  pub Keeps-staging_made : (name : Text) → Keeps P (io io_failed (mkdir_all (staged o name)))
  Keeps-staging_made = g.staging_made

  pub Keeps-staging_removed : (name : Text) → Keeps P (io io_failed (remove_all (staged o name)))
  Keeps-staging_removed = g.staging_removed

  pub Keeps-state_wiped : Keeps P (io wiped (wipe_host_state o.root))
  Keeps-state_wiped = g.state_wiped

  pub Keeps-ssh_args : (t : Target) (remote : Text) → Keeps P (capture o (ssh_args t remote))
  unfolding ssh_args list_beq
  Keeps-ssh_args t remote = g.captured (ssh_args t remote) refl

  pub Keeps-container : (args : Command) → Keeps P (capture o (codes "container" ∷ args))
  unfolding list_beq
  Keeps-container args = g.captured (codes "container" ∷ args) refl

  pub Keeps-prlctl : (args : Command) → Keeps P (capture o (codes "prlctl" ∷ args))
  unfolding list_beq
  Keeps-prlctl args = g.captured (codes "prlctl" ∷ args) refl

  pub Keeps-osascript : (args : Command) → Keeps P (capture o (codes "osascript" ∷ args))
  unfolding list_beq
  Keeps-osascript args = g.captured (codes "osascript" ∷ args) refl

  pub Keeps-security : (args : Command) → Keeps P (capture o (codes "security" ∷ args))
  unfolding list_beq
  Keeps-security args = g.captured (codes "security" ∷ args) refl

pub ruleset effect_rules = (
  keeps_rules, Keeps-start_box, Keeps-stop_box, Keeps-sleep, Keeps-draw, Keeps-call, Keeps-rooted,
  Keeps-ca_dir_made, Keeps-signed, Keeps-box_saved, Keeps-box_removed, Keeps-block_written,
  Keeps-block_stripped, Keeps-server_saved, Keeps-server_removed, Keeps-hosts_written,
  Keeps-staging_made, Keeps-staging_removed, Keeps-state_wiped, Keeps-ssh_args, Keeps-container,
  Keeps-prlctl, Keeps-osascript, Keeps-security,
)
