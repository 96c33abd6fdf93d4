-- ===== src/Cli/Listing.antt =====
-- go/internal/cli/list.go: the rows of the list command, without their layout.
use mpd_virt_macos.Base.{List, [], ◌==◌, list_eq, nat_eq, map, if◌then◌else◌}
use mpd_virt_macos.Text.{Text, codes}
use mpd_virt_macos.Vmid.{pad, name}
use mpd_virt_macos.Registry
use mpd_virt_macos.Backend.World.{World}
use mpd_virt_macos.Machine.{Outside, io_failed, Run, reads, gets, ◌>>=◌}

pub record Row : Type 0 where
  pub id : Text
  pub box_name : Text
  pub backend : Text
  pub ip : Text
  pub user : Text
  pub ssh : Text

-- `sshState`
unfoldable pub ssh_state : World → Text → Text
ssh_state w ip =
    if ip == [] then codes "?" else if w.ssh_reachable ip then codes "up" else codes "down"

abbrev row_of : World → Registry.Entry → Row
row_of w e = record {
  id = pad e.id;
  box_name = name e.id;
  backend = e.backend;
  ip = e.ip;
  user = e.user;
  ssh = ssh_state w e.ip;
}

-- The list command.
unfoldable pub list_boxes : Outside → Run (List Row)
unfolding reads gets ◌>>=◌ Registry.list ssh_state pad name
list_boxes o = do
  entries ← reads io_failed (Registry.list o.root)
  gets (λ m. map (row_of (o.before m.log)) entries)
