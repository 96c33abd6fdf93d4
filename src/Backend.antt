-- ===== src/Backend.antt =====
-- go/internal/backend/backend.go: the platforms that a box may run on. A recorded backend may be any
-- text; `other` holds the texts that name no platform.
pub mod World
pub mod State
pub mod Power
pub mod Queries
pub mod Locate
pub mod Start
pub mod Utm
pub mod Cloudinit
pub mod Create
pub mod Delete
use mpd_virt_macos.Base.{
  ℕ, Bool, true, false, List, [], ◌∷◌, ◌==◌, list_eq, nat_eq, map, if◌then◌else◌, Result, ok, err,
}
use mpd_virt_macos.Text.{Text, codes, join}

pub data Backend : Type 0 where
  generic parallels container utm proxmox : Backend
  other : Text → Backend

unfoldable pub text_of : Backend → Text
text_of generic = codes "generic"
text_of parallels = codes "parallels"
text_of container = codes "container"
text_of utm = codes "utm"
text_of proxmox = codes "proxmox"
text_of (other s) = s

-- The closed set of valid values, in the order of the help text.
abbrev pub backends : List Backend
backends = generic ∷ parallels ∷ container ∷ utm ∷ proxmox ∷ []

pub data BackendError : Type 0 where
  required unknown : BackendError

parse_among : List Backend → Text → Result BackendError Backend
unfolding text_of
parse_among [] s = if s == [] then err required else err unknown
parse_among (b ∷ bs) s = let rest = parse_among bs s in if s == text_of b then ok b else rest

unfoldable pub parse : Text → Result BackendError Backend
unfolding parse_among
parse s = parse_among backends s

-- `Backend(s)`, the conversion of a recorded text, which tests nothing.
abbrev recorded : Text → Result BackendError Backend → Backend
recorded s (ok b) = b
recorded s (err e) = other s

unfoldable pub of_text : Text → Backend
unfolding parse
of_text s = recorded s (parse s)

unfoldable pub list : Text
unfolding text_of join
list = join (codes ", ") (map text_of backends)

-- `managed` of start.go: can this Mac power the backend?
unfoldable pub managed : Backend → Bool
managed container = true
managed parallels = true
managed utm = true
managed generic = false
managed proxmox = false
managed (other s) = false
