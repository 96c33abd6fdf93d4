-- ===== src/Paths.antt =====
-- go/internal/paths/paths.go: where mpd-virt keeps its state, below the root.
pub mod Apart
use mpd_virt_macos.Base.{ℕ, [], ◌∷◌, ◌++◌, Option, none, some}
use mpd_virt_macos.Text.{Text, codes}
use mpd_virt_macos.Fs.{FilePath}
use mpd_virt_macos.Vmid.{pad}

-- `Root`; `MPD_VIRT_ROOT`, where it is set, takes its place.
unfoldable pub root_from : Option FilePath → FilePath → FilePath
root_from (some r) home = r
root_from none home = home ++ codes ".mpd-virt" ∷ []

unfoldable pub conf : FilePath → FilePath
conf root = root ++ codes "conf" ∷ []

unfoldable pub ca_root : FilePath → FilePath
ca_root root = root ++ codes "conf" ∷ codes "caroot" ∷ []

unfoldable pub servers : FilePath → FilePath
servers root = root ++ codes "servers" ∷ []

unfoldable pub lan_hosts : FilePath → FilePath
lan_hosts root = root ++ codes "conf" ∷ codes "lan-hosts" ∷ []

unfoldable pub utm_staging : FilePath → Text → FilePath
utm_staging root name = root ++ codes "conf" ∷ codes "utm-staging" ∷ name ∷ []

unfoldable pub vm_dir : FilePath → ℕ → FilePath
vm_dir root id = root ++ pad id ∷ []

unfoldable pub vm_env : FilePath → ℕ → FilePath
vm_env root id = root ++ pad id ∷ codes "env" ∷ []

unfoldable pub cloud_images : FilePath → FilePath
cloud_images root = root ++ codes "conf" ∷ codes "cloud-images" ∷ []
