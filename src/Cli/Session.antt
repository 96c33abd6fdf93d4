-- ===== src/Cli/Session.antt =====
-- The commands of go/internal/cli that a user types, one after another, and what they may send out.
pub mod Effects
pub mod Gate
pub mod Powered
pub mod Flows
pub mod Boxes
pub mod Fresh
pub mod Images
pub mod Rooted
pub mod Logged
pub mod Spared
pub mod Commands
pub mod Sheltered
pub mod Anchor
pub mod Confined
pub mod Safe
use mpd_virt_macos.Base.{
  ℕ, Bool, true, false, List, [], ◌∷◌, ◌==◌, list_eq, nat_eq, Option, ◌≡◌, ◌⊎◌, All,
}
use mpd_virt_macos.Text.{Text, codes}
use mpd_virt_macos.Fs.{FilePath}
use mpd_virt_macos.Paths.{lan_hosts}
use mpd_virt_macos.Host.{Command, Log}
use mpd_virt_macos.Ca.{root_cert_path, vm_cert_path, vm_key_path}
use mpd_virt_macos.Machine.{Outside, Mac, Run, pure, ◌>>=◌, ◌>>◌}
use mpd_virt_macos.Machine.Exec.{allowed}
use mpd_virt_macos.Backend.Create.{CreateOpts}
use mpd_virt_macos.Cli.LanHosts
use mpd_virt_macos.Cli.Takeover
use mpd_virt_macos.Cli.Lifecycle
use mpd_virt_macos.Cli.Servers
use mpd_virt_macos.Cli.Listing.{list_boxes}

-- A command with its arguments, its flags, and the line that is typed when it asks.
pub data Verb : Type 0 where
  takeover : Text → Option Text → Text → Text → Verb
  start update : Text → Text → Verb
  stop : Text → Verb
  create : FilePath → Text → Text → Text → Option FilePath → CreateOpts → Verb
  delete : Text → Option Text → Bool → Bool → Verb
  list : Verb
  uninstall : Option Text → Bool → Verb
  server_add : Text → Text → Verb
  server_list : Bool → Verb
  server_sync : Option Text → Verb
  server_delete : Text → Option Text → Bool → Verb
  server_cert : Text → List Text → Bool → Verb
  ca_export : Option FilePath → Verb

unfoldable pub execute : Outside → Verb → Run (Unit {0})
unfolding ◌>>=◌ pure list_boxes Lifecycle.create Takeover.takeover Lifecycle.start Lifecycle.update
    Lifecycle.stop Lifecycle.delete Lifecycle.uninstall Servers.server_add Servers.server_list
    LanHosts.sync_command Servers.server_delete Servers.server_cert Servers.ca_export
execute o (takeover arg address user flag) = Takeover.takeover o arg address user flag
execute o (start arg flag) = Lifecycle.start o arg flag
execute o (update arg flag) = Lifecycle.update o arg flag
execute o (stop arg) = Lifecycle.stop o arg
execute o (create ssh_dir arg flag user key opts) =
    Lifecycle.create o ssh_dir arg flag user key opts
execute o (delete arg typed sure keep_vm) = Lifecycle.delete o arg typed sure keep_vm
execute o list = list_boxes o >> pure tt
execute o (uninstall typed sure) = Lifecycle.uninstall o typed sure
execute o (server_add arg ip) = Servers.server_add o arg ip >> pure tt
execute o (server_list only) = Servers.server_list o only >> pure tt
execute o (server_sync only) = LanHosts.sync_command o only
execute o (server_delete arg typed sure) = Servers.server_delete o arg typed sure
execute o (server_cert arg extra force) = Servers.server_cert o arg extra force
execute o (ca_export path) = Servers.ca_export o path >> pure tt

-- The machine after commands, whether each returns or fails.
unfoldable pub session : Outside → List Verb → Mac → Mac
unfolding execute
session o [] m = m
session o (v ∷ vs) m = session o vs (execute o v m).0

abbrev pub is_scp : Command → Bool
is_scp [] = false
is_scp (name ∷ args) = name == codes "scp"

-- The file that `scp` sends: its last argument but one.
abbrev pub sent_file : Command → Text
sent_file [] = []
sent_file (a ∷ []) = []
sent_file (a ∷ b ∷ []) = a
sent_file (a ∷ b ∷ c ∷ cs) = sent_file (b ∷ c ∷ cs)

-- The root certificate, the hosts file, and the certificate and key of a box's own intermediate.
abbrev pub IsShared : Outside → Text → Type 0
IsShared o s =
    (s ≡ o.path_text (root_cert_path o.root))
    ⊎ ((s ≡ o.path_text (lan_hosts o.root))
        ⊎ (((id : ℕ) × (s ≡ o.path_text (vm_cert_path o.root id)))
            ⊎ ((id : ℕ) × (s ≡ o.path_text (vm_key_path o.root id)))))

abbrev pub IsSafe : Outside → Command → Type 0
IsSafe o c = (allowed c ≡ true) × (is_scp c ≡ true → IsShared o (sent_file c))

abbrev pub SafeLog : Outside → Mac → Type 0
SafeLog o m = All (IsSafe o) m.log
