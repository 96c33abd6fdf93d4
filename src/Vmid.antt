-- ===== src/Vmid.antt =====
-- go/internal/vmid/vmid.go: box ids, and the names derived from them. An `ID` is the number that
-- `Parse` validated.
pub mod Bounds
use mpd_virt_macos.Base.{
  ℕ, ◌||◌, List, ◌∷◌, ◌++◌, ◌≡◌, refl, Option, none, some, ltb, if◌then◌else◌, Result, ok, err,
}
use mpd_virt_macos.Text.{Text, codes}
use mpd_virt_macos.Text.Decimal.{ℤ, pos, negsuc, atoi, pad3}

-- The two ways in which `Parse` refuses its argument.
pub data ParseError : Type 0 where
  not_digits out_of_range : ParseError

in_range : ℤ → Result ParseError ℕ
in_range (negsuc n) = err out_of_range
in_range (pos n) = if ltb n 1 || ltb 254 n then err out_of_range else ok n

unfoldable pub parse : Text → Result ParseError ℕ
unfolding in_range
parse s = elim (atoi s) [ none ↦ err not_digits | some n ↦ in_range n ]

unfoldable pub pad : ℕ → Text
unfolding pad3
pad id = pad3 id

unfoldable pub name : ℕ → Text
name id = codes "mpd-" ++ pad id

unfoldable pub zone : ℕ → Text
zone id = pad id ++ codes ".mpd.test"

names_of_42 : (name 42 ≡ codes "mpd-042") × (zone 42 ≡ codes "042.mpd.test")
unfolding name zone pad
names_of_42 = (refl, refl)
