-- ===== src/Env.antt =====
-- The KEY=VALUE files of go/internal/registry/registry.go and go/internal/server/server.go: both
-- read them with the same loop over a scanner.
pub mod Laws
use mpd_virt_macos.Base.{
  ℕ, Bool, ◌||◌, List, [], ◌∷◌, Option, none, some, ◌==◌, list_eq, nat_eq, if◌then◌else◌,
}
use mpd_virt_macos.Text.{Text, codes, trim_space, has_prefix, cut, raw_lines, drop_cr, too_long}

-- Go's `map[string]string`.
abbrev pub Bindings : Type 0
Bindings = List (Text × Text)

-- `kv[k]`, which is the empty string at a key that is not there.
unfoldable pub binding : Text → Bindings → Text
binding k [] = []
binding k ((j, v) ∷ kv) = if k == j then v else binding k kv

-- `kv[k] = v`: a later binding hides the earlier ones.
abbrev bind : Text → Text → Bindings → Bindings
bind k v kv = (k, v) ∷ kv

-- One round of the loop, at a trimmed line.
unfoldable pub read_line : Text → Bindings → Bindings
read_line line kv =
    if line == [] || has_prefix (codes "#") line
    then kv
    else elim (cut b'=' line) [ none ↦ kv | some (k, v) ↦ bind (trim_space k) (trim_space v) kv ]

-- `for sc.Scan()`; `none` is `sc.Err()` at a line that does not fit in the scanner's buffer.
unfoldable pub scan_lines : List Text → Bindings → Option Bindings
unfolding read_line
scan_lines [] kv = some kv
scan_lines (l ∷ ls) kv =
    let rest = scan_lines ls (read_line (trim_space (drop_cr l)) kv) in
    if too_long l then none else rest

unfoldable pub scan_env : Text → Option Bindings
unfolding scan_lines
scan_env body = scan_lines (raw_lines body) []
