-- ===== src/Backend/Delete.antt =====
-- go/internal/backend/delete.go, and the dispatch of create.go.
use mpd_virt_macos.Base.{ℕ, [], ◌∷◌}
use mpd_virt_macos.Text.{Text, codes}
use mpd_virt_macos.Vmid.{name}
use mpd_virt_macos.Backend.{Backend, generic, parallels, container, utm, proxmox, other}
use mpd_virt_macos.Backend.Create.{CreateOpts, container_create}
use mpd_virt_macos.Backend.Utm.Create.{utm_create, utm_delete}
use mpd_virt_macos.Machine.{Outside, said, Run, pure, raise, ◌>>=◌, ◌>>◌, attempt, best_effort}
use mpd_virt_macos.Machine.Exec.{capture, capture_ok, succeed_or}

-- `Delete`; a generic box and an unknown backend have nothing to destroy.
unfoldable pub delete : Outside → ℕ → Backend → Run (Unit {0})
unfolding capture succeed_or ◌>>=◌ attempt utm_delete name pure raise
delete o id container =
    capture_ok o (codes "container" ∷ codes "delete" ∷ codes "--force" ∷ name id ∷ [])
      (said (codes "`container delete` failed"))
    >> pure tt
delete o id parallels = do
  best_effort (capture o (codes "prlctl" ∷ codes "stop" ∷ name id ∷ codes "--kill" ∷ []))
  capture_ok o (codes "prlctl" ∷ codes "delete" ∷ name id ∷ [])
      (said (codes "`prlctl delete` failed"))
  pure tt
delete o id utm = utm_delete o id
delete o id proxmox = raise (said (codes "delete is not wired for the proxmox backend yet"))
delete o id generic = pure tt
delete o id (other s) = pure tt

-- `Create`
unfoldable pub create : Outside → ℕ → Backend → CreateOpts → Run Text
unfolding container_create utm_create raise
create o id container opts = container_create o id opts
create o id utm opts = utm_create o id opts
create o id parallels opts = raise (said (codes "create is not implemented"))
create o id proxmox opts = raise (said (codes "create is not implemented"))
create o id generic opts = raise (said (codes "a box is adopted, not created"))
create o id (other s) opts = raise (said (codes "a box is adopted, not created"))
