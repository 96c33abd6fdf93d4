-- ===== src/Cli/LanHosts.antt =====
-- go/internal/cli/server.go: the hosts file, pushed into the boxes.
use mpd_virt_macos.Base.{
  ℕ, Bool, true, false, List, [], ◌∷◌, ◌++◌, ◌==◌, list_eq, nat_eq, Option, none, some,
  if◌then◌else◌,
}
use mpd_virt_macos.Text.{Text, codes}
use mpd_virt_macos.Fs.{read_file}
use mpd_virt_macos.Paths.{lan_hosts}
use mpd_virt_macos.Vmid.{parse}
use mpd_virt_macos.Registry
use mpd_virt_macos.Server
use mpd_virt_macos.Host.{Target, is_zero}
use mpd_virt_macos.Host.Remote.{check, stream, remote_line, push}
use mpd_virt_macos.Machine.{
  Outside, bad_id, io_failed, lift, no_entry, said, Run, pure, reads, io, ◌>>=◌, ◌>>◌, attempt,
  best_effort, require,
}

unfoldable pub remote_lan_hosts : Text
remote_lan_hosts = codes "/var/lib/mpd/conf/lan-hosts"

-- `pushLanHosts`: did the copy on the box change?
unfoldable pub push_lan_hosts : Outside → Target → Run Bool
unfolding remote_lan_hosts remote_line push ◌>>=◌ lan_hosts
push_lan_hosts o t = do
  io io_failed (Server.write_hosts_file o.root)
  body ← reads io_failed (read_file (lan_hosts o.root))
  got ←
      remote_line o t
        (codes "sha256sum " ++ (remote_lan_hosts ++ codes " 2>/dev/null | cut -d' ' -f1 || true"))
  if got == o.crypto.sha256_hex body
      then pure false
      else (push o t (o.path_text (lan_hosts o.root)) remote_lan_hosts (codes "0644") >> pure true)

-- The republish of `syncLanHosts`.
unfoldable pub republish : Outside → Target → Run Bool
unfolding stream ◌>>=◌
republish o t = do
  code ← stream o t (codes "/opt/mpd/bin/mpd --vm-setup >/dev/null")
  require (is_zero code) (said (codes "mpd --vm-setup exited"))
  pure true

-- `syncLanHosts`
unfoldable pub sync_lan_hosts : Outside → Target → Run Bool
unfolding push_lan_hosts republish
sync_lan_hosts o t = do changed ← push_lan_hosts o t; if changed then republish o t else pure false

abbrev target_of : Registry.Entry → Target
target_of e = record { user = e.user; address = e.ip }

-- One box of `serverSync`: whatever fails, the next box is tried.
unfoldable pub sync_box : Outside → Registry.Entry → Run (Unit {0})
unfolding check sync_lan_hosts attempt
sync_box o e = best_effort (check o (target_of e) >> sync_lan_hosts o (target_of e))

unfoldable pub sync_boxes : Outside → List Registry.Entry → Run (Unit {0})
unfolding sync_box
sync_boxes o [] = pure tt
sync_boxes o (e ∷ es) = sync_box o e >> sync_boxes o es

abbrev pub chosen : Outside → Option ℕ → List Registry.Entry → Run (List Registry.Entry)
chosen o none boxes = pure boxes
chosen o (some id) boxes = reads no_entry (Registry.load o.root id) >>= λ e. pure (e ∷ [])

-- `serverSync`
unfoldable pub server_sync : Outside → Option ℕ → Run (Unit {0})
unfolding sync_boxes
server_sync o only = do
  io io_failed (Server.write_hosts_file o.root)
  entries ← reads io_failed (Server.load_all o.root)
  boxes ← reads io_failed (Registry.list o.root)
  targets ← chosen o only boxes
  sync_boxes o targets

-- `serverSyncCmd`: an argument, if there is one, is the id of the one box to publish to.
unfoldable pub sync_command : Outside → Option Text → Run (Unit {0})
unfolding parse server_sync
sync_command o none = server_sync o none
sync_command o (some arg) = lift bad_id (parse arg) >>= λ id. server_sync o (some id)
