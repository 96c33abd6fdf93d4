-- ===== src/Fs.antt =====
-- The part of the file system that `os` and `path/filepath` give the program: a tree of files and
-- directories by path, and the paths at which the host refuses every access. A path is its list of
-- components, so `filepath.Join` is `++`.
pub mod Laws
pub mod Files
pub mod Apart
use mpd_virt_macos.Base.{
  ℕ, Bool, true, false, not, ◌||◌, List, [], ◌∷◌, ◌++◌, Option, none, some, ◌==◌, nat_eq, list_eq,
  if◌then◌else◌, Result, ok, err, wrap,
}
use mpd_virt_macos.Text.{Text}

abbrev pub FilePath : Type 0
FilePath = List Text

pub data Node : Type 0 where
  file : Text → Node
  directory : Node

abbrev pub Nodes : Type 0
Nodes = List (FilePath × Node)

pub record Fs : Type 0 where
  pub nodes : Nodes
  pub denied : FilePath → Bool

-- `os.IsNotExist` tells the first from every other error.
pub data IoError : Type 0 where
  not_exist failed : IoError

unfoldable pub find : FilePath → Nodes → Option Node
find p [] = none
find p ((q, n) ∷ ns) = if p == q then some n else find p ns

unfoldable pub put : FilePath → Node → Nodes → Nodes
put p n [] = (p, n) ∷ []
put p n ((q, m) ∷ ns) = if p == q then (p, n) ∷ ns else (q, m) ∷ put p n ns

-- Is the first path the second, or above it?
unfoldable pub is_under : FilePath → FilePath → Bool
is_under [] q = true
is_under (a ∷ p) [] = false
is_under (a ∷ p) (b ∷ q) = if a == b then is_under p q else false

unfoldable pub prune : FilePath → Nodes → Nodes
unfolding is_under
prune p [] = []
prune p ((q, n) ∷ ns) = let rest = prune p ns in if is_under p q then rest else (q, n) ∷ rest

abbrev is_file : Option Node → Bool
is_file (some (file t)) = true
is_file (some directory) = false
is_file none = false

-- Is something above the path a file? Then the host answers "not a directory".
unfoldable pub blocked_from : FilePath → FilePath → Nodes → Bool
blocked_from above [] ns = false
blocked_from above (a ∷ []) ns = false
blocked_from above (a ∷ b ∷ p) ns =
    is_file (find (above ++ a ∷ []) ns) || blocked_from (above ++ a ∷ []) (b ∷ p) ns

abbrev pub blocked : FilePath → Nodes → Bool
blocked = blocked_from []

abbrev missing : Bool → IoError
missing true = failed
missing false = not_exist

-- `os.Stat`
unfoldable pub stat : FilePath → Fs → Result IoError Node
stat p fs =
    if fs.denied p
    then err failed
    else elim (find p fs.nodes) [ some n ↦ ok n | none ↦ err (missing (blocked p fs.nodes)) ]

abbrev contents : Result IoError Node → Result IoError Text
contents (ok (file t)) = ok t
contents (ok directory) = err failed
contents (err e) = err e

-- `os.ReadFile`
unfoldable pub read_file : FilePath → Fs → Result IoError Text
unfolding stat
read_file p fs = contents (stat p fs)

abbrev is_directory : Node → Bool
is_directory (file t) = false
is_directory directory = true

-- The last component of `q`, if `q` lies directly in `p`.
unfoldable pub child_name : FilePath → FilePath → Option Text
child_name [] [] = none
child_name [] (b ∷ []) = some b
child_name [] (b ∷ c ∷ q) = none
child_name (a ∷ p) [] = none
child_name (a ∷ p) (b ∷ q) = if a == b then child_name p q else none

unfoldable pub children : FilePath → Nodes → List (Text × Bool)
unfolding child_name
children p [] = []
children p ((q, n) ∷ ns) =
    let rest = children p ns in
    elim (child_name p q) [ none ↦ rest | some name ↦ (name, is_directory n) ∷ rest ]

abbrev listing : FilePath → Fs → Result IoError Node → Result IoError (List (Text × Bool))
listing p fs (ok directory) = ok (children p fs.nodes)
listing p fs (ok (file t)) = err failed
listing p fs (err e) = err e

-- `os.ReadDir`: the names in a directory, and whether each is a directory. Go sorts them by name;
-- here they come in the order of the tree, and the one caller that relies on their order sorts them.
unfoldable pub read_dir : FilePath → Fs → Result IoError (List (Text × Bool))
unfolding stat children
read_dir p fs = listing p fs (stat p fs)

-- A computation that may change the file system and may fail; what it changed before it failed stays.
abbrev pub Io : Type 0 → Type 0 → Type 0
Io E A = Fs → Fs × Result E A

abbrev next : {E A B : Type 0} → (A → Io E B) → Fs × Result E A → Fs × Result E B
next f (fs, ok a) = f a fs
next f (fs, err e) = (fs, err e)

infixl 5 ◌>>=◌ ◌>>◌
abbrev pub ◌>>=◌ : {E A B : Type 0} → Io E A → (A → Io E B) → Io E B
◌>>=◌ m f fs = next f (m fs)

abbrev pub ◌>>◌ : {E B : Type 0} → Io E (Unit {0}) → Io E B → Io E B
◌>>◌ m k = m >>= λ _. k

abbrev pub reads : {E A : Type 0} → (Fs → Result E A) → Io E A
reads r fs = (fs, r fs)

abbrev pub done : {E : Type 0} → Io E (Unit {0})
done fs = (fs, ok tt)

-- `fmt.Errorf("…: %w", err)`
abbrev pub wrap_io : {E F A : Type 0} → (E → F) → Io E A → Io F A
wrap_io f m fs = ((m fs).0, wrap f (m fs).1)

-- Directories at `above` with each component of the path behind it.
unfoldable pub put_dirs : FilePath → FilePath → Nodes → Nodes
put_dirs above [] ns = ns
put_dirs above (a ∷ p) ns = put_dirs (above ++ a ∷ []) p (put (above ++ a ∷ []) directory ns)

-- `os.MkdirAll`
unfoldable pub mkdir_all : FilePath → Io IoError (Unit {0})
mkdir_all p fs = if fs.denied p then (fs, err failed) else elim (find p fs.nodes) [
  | some n ↦ (fs, if is_directory n then ok tt else err failed)
  | none ↦
      if blocked p fs.nodes
      then (fs, err failed)
      else (record fs { nodes = put_dirs [] p fs.nodes }, ok tt)
]

-- `filepath.Dir`
unfoldable pub dir_of : FilePath → FilePath
dir_of [] = []
dir_of (a ∷ []) = []
dir_of (a ∷ b ∷ p) = a ∷ dir_of (b ∷ p)

abbrev is_dir_node : Option Node → Bool
is_dir_node none = false
is_dir_node (some n) = is_directory n

-- `os.WriteFile`: the directory must be there, and the path itself must be no directory.
unfoldable pub write_file : FilePath → Text → Io IoError (Unit {0})
unfolding dir_of
write_file p body fs =
    if fs.denied p
      || (is_dir_node (find p fs.nodes) || not (is_dir_node (find (dir_of p) fs.nodes)))
    then (fs, err failed)
    else (record fs { nodes = put p (file body) fs.nodes }, ok tt)

-- `os.RemoveAll`: nothing to remove is no error.
unfoldable pub remove_all : FilePath → Io IoError (Unit {0})
unfolding prune
remove_all p fs =
    if fs.denied p || blocked p fs.nodes
    then (fs, err failed)
    else (record fs { nodes = prune p fs.nodes }, ok tt)
