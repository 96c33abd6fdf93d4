-- ===== src/EtcHosts.antt =====
-- go/internal/cli/server.go: whether a hosts(5) text maps an address to the name of a LAN server.
pub mod Rendered
use mpd_virt_macos.Base.{
  ℕ, Bool, true, false, ◌||◌, List, [], ◌∷◌, any, ◌==◌, list_eq, nat_eq, if◌then◌else◌,
}
use mpd_virt_macos.Text.{Text, codes, trim_space, has_prefix, split, fields}
use mpd_virt_macos.Server.{Entry, host}

-- `contains` of the source: is the text one of these?
unfoldable pub member : List Text → Text → Bool
member xs x = any (λ v. v == x) xs

-- The test of a line's fields.
abbrev maps_fields : Entry → List Text → Bool
maps_fields e [] = false
maps_fields e (f ∷ []) = false
maps_fields e (f ∷ g ∷ fs) = if f == e.ip then member (g ∷ fs) (host e) else false

unfoldable pub maps_line : Entry → Text → Bool
maps_line e line =
    let trimmed = trim_space line in
    if trimmed == [] || has_prefix (codes "#") trimmed
    then false
    else maps_fields e (fields trimmed)

unfoldable pub hosts_has : Text → Entry → Bool
hosts_has live e = any (maps_line e) (split b'\n' live)

-- The loop of `etcHostsReminder`: the entries that the text does not map.
unfoldable pub missing_entries : Text → List Entry → List Entry
missing_entries live [] = []
missing_entries live (e ∷ es) =
    let rest = missing_entries live es in if hosts_has live e then rest else e ∷ rest
