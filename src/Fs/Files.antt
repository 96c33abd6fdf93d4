-- ===== src/Fs/Files.antt =====
-- `os.Rename`, `os.Remove` and `os.Truncate`: the calls that take a file from one place to another,
-- away, or to another size.
pub mod Laws
use mpd_virt_macos.Base.{
  ℕ, zero, suc, ◌-◌, Bool, true, false, ◌||◌, not, [], ◌∷◌, ◌++◌, Option, none, some, ◌==◌, nat_eq,
  list_eq, if◌then◌else◌, Result, ok, err, List,
}
use mpd_virt_macos.Text.{Text, byte_len}
use mpd_virt_macos.Fs.{
  FilePath, Node, file, directory, Nodes, Fs, IoError, not_exist, failed, find, put, is_under,
  prune, blocked, missing, is_dir_node, dir_of, children, Io,
}

-- What is left of the second path behind the first, if the first is above it or is it.
unfoldable pub behind : FilePath → FilePath → Option FilePath
behind [] q = some q
behind (a ∷ p) [] = none
behind (a ∷ p) (b ∷ q) = if a == b then behind p q else none

abbrev pub placed : FilePath → FilePath → Option FilePath → FilePath
placed q r none = r
placed q r (some rest) = q ++ rest

-- Every path below `p` goes below `q`.
unfoldable pub relocate : FilePath → FilePath → Nodes → Nodes
unfolding behind
relocate p q [] = []
relocate p q ((r, n) ∷ ns) = (placed q r (behind p r), n) ∷ relocate p q ns

-- May a node take the place at a path? A directory is never replaced, and replaces nothing.
abbrev pub fits : Node → Option Node → Bool
fits n none = true
fits n (some directory) = false
fits (file t) (some (file s)) = true
fits directory (some (file s)) = false

unfoldable pub take_place : FilePath → FilePath → Node → Io IoError (Unit {0})
unfolding relocate prune is_under
take_place p q n fs =
    if p == q
    then (fs, ok tt)
    else if is_under p q
        || (not (is_dir_node (find (dir_of q) fs.nodes)) || not (fits n (find q fs.nodes)))
    then (fs, err failed)
    else (record fs { nodes = relocate p q (prune q fs.nodes) }, ok tt)

-- `os.Rename`
unfoldable pub rename : FilePath → FilePath → Io IoError (Unit {0})
unfolding take_place
rename p q fs = if fs.denied p || fs.denied q then (fs, err failed) else elim (find p fs.nodes) [
  | none ↦ (fs, err (missing (blocked p fs.nodes)))
  | some n ↦ take_place p q n fs
]

abbrev is_empty : List (Text × Bool) → Bool
is_empty [] = true
is_empty (c ∷ cs) = false

-- May `os.Remove` take the node away? A directory must be empty.
abbrev pub removable : FilePath → Fs → Node → Bool
removable p fs (file t) = true
removable p fs directory = is_empty (children p fs.nodes)

-- `os.Remove`
unfoldable pub remove : FilePath → Io IoError (Unit {0})
unfolding prune children
remove p fs = if fs.denied p then (fs, err failed) else elim (find p fs.nodes) [
  | none ↦ (fs, err (missing (blocked p fs.nodes)))
  | some n ↦
      if removable p fs n then (record fs { nodes = prune p fs.nodes }, ok tt) else (fs, err failed)
]

unfoldable pub zeros : ℕ → Text
zeros zero = []
zeros (suc n) = 0 ∷ zeros n

-- `os.Truncate` to a size that is not below the one of the file: a hole of zero bytes is put behind.
unfoldable pub truncate : FilePath → ℕ → Io IoError (Unit {0})
unfolding byte_len
truncate p n fs = if fs.denied p then (fs, err failed) else elim (find p fs.nodes) [
  | none ↦ (fs, err (missing (blocked p fs.nodes)))
  | some node ↦ elim node [
    | directory ↦ (fs, err failed)
    | file t ↦ (record fs { nodes = put p (file (t ++ zeros (n - byte_len t))) fs.nodes }, ok tt)
  ]
]
