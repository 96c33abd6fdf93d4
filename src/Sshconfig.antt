-- ===== src/Sshconfig.antt =====
-- go/internal/sshconfig/sshconfig.go: one managed block for each box in ~/.ssh/config. The path of
-- that file, which the environment chooses, is an argument.
pub mod Blocks
pub mod Tidy
pub mod Kept
pub mod Rewrite
pub mod Apart
pub mod File
use mpd_virt_macos.Base.{
  ℕ, Bool, true, false, ◌&&◌, List, [], ◌∷◌, ◌++◌, ◌==◌, list_eq, nat_eq, if◌then◌else◌, Result, ok,
  Option, none, some, err,
}
use mpd_virt_macos.Text.{Text, codes, contains, split, join}
use mpd_virt_macos.Text.Decimal.{itoa}
use mpd_virt_macos.Fs.{
  FilePath, Fs, IoError, not_exist, failed, Io, ◌>>=◌, ◌>>◌, reads, done, Node, stat, read_file,
  mkdir_all, write_file, dir_of,
}
use mpd_virt_macos.Vmid.{name, zone}

abbrev pub socks_port : ℕ
socks_port = 1080

-- `Path`; `MPD_VIRT_SSH_CONFIG`, where it is set, takes its place.
unfoldable pub config_path : Option FilePath → FilePath → FilePath
config_path (some p) home = p
config_path none home = home ++ codes ".ssh" ∷ codes "config" ∷ []

-- `SocksAlias`
unfoldable pub socks_alias : ℕ → Text
unfolding name
socks_alias id = name id ++ codes "-socks"

unfoldable pub begin_marker : ℕ → Text
begin_marker id = codes "# >>> " ++ (name id ++ codes " (managed by mpd-virt) >>>")

unfoldable pub end_marker : ℕ → Text
end_marker id = codes "# <<< " ++ (name id ++ codes " <<<")

-- The lines between the two markers.
unfoldable pub stanzas : ℕ → Text → Text → List Text
stanzas id ip user =
    (codes "Host " ++ name id)
    ∷ (codes "    HostName " ++ ip)
    ∷ (codes "    User " ++ user)
    ∷ codes "    StrictHostKeyChecking no"
    ∷ codes "    UserKnownHostsFile /dev/null"
    ∷ codes ""
    ∷ (codes "Host " ++ (name id ++ codes "-runtime"))
    ∷ (codes "    HostName runtime." ++ zone id)
    ∷ (codes "    User " ++ user)
    ∷ (codes "    ProxyJump " ++ name id)
    ∷ codes "    StrictHostKeyChecking no"
    ∷ codes "    UserKnownHostsFile /dev/null"
    ∷ codes ""
    ∷ (codes "Host " ++ (name id ++ codes "-socks"))
    ∷ (codes "    HostName " ++ ip)
    ∷ (codes "    User " ++ user)
    ∷ codes "    StrictHostKeyChecking no"
    ∷ codes "    UserKnownHostsFile /dev/null"
    ∷ (codes "    DynamicForward " ++ itoa socks_port)
    ∷ codes "    ServerAliveInterval 30"
    ∷ codes "    ServerAliveCountMax 3"
    ∷ []

-- The lines of `render`, and the block that it joins from them.
abbrev pub block_lines : ℕ → Text → Text → List Text
block_lines id ip user = begin_marker id ∷ (stanzas id ip user ++ end_marker id ∷ [])

unfoldable pub render : ℕ → Text → Text → Text
render id ip user = join (codes "\n") (block_lines id ip user)

-- The first loop of `stripBlock`, and its flag `inside`.
unfoldable pub outside_lines : ℕ → Bool → List Text → List Text
outside_lines id inside [] = []
outside_lines id false (l ∷ ls) = elim (contains (begin_marker id) l) [
  | true ↦ outside_lines id true ls
  | false ↦ l ∷ outside_lines id false ls
]
outside_lines id true (l ∷ ls) = elim (contains (end_marker id) l) [
  | true ↦ outside_lines id false ls
  | false ↦ outside_lines id true ls
]

abbrev pub is_blank : Text → Bool
is_blank [] = true
is_blank (c ∷ s) = false

-- The second loop; the flag says that `collapsed` ends in a blank line.
unfoldable pub collapse : Bool → List Text → List Text
collapse after_blank [] = []
collapse after_blank (l ∷ ls) = elim (is_blank l && after_blank) [
  | true ↦ collapse after_blank ls
  | false ↦ l ∷ collapse (is_blank l) ls
]

-- A line in front of lines whose trailing blanks are gone.
abbrev pub keep_line : Text → List Text → List Text
keep_line l [] = if is_blank l then [] else l ∷ []
keep_line l (m ∷ ls) = l ∷ m ∷ ls

-- The third loop.
unfoldable pub drop_blanks : List Text → List Text
drop_blanks [] = []
drop_blanks (l ∷ ls) = keep_line l (drop_blanks ls)

unfoldable pub strip_block : Text → ℕ → Text
unfolding outside_lines collapse drop_blanks
strip_block contents id =
    join (codes "\n") (drop_blanks (collapse false (outside_lines id false (split b'\n' contents))))

-- The text that `Write` puts in place of the text that it read.
unfoldable pub rewrite : Text → ℕ → Text → Text → Text
rewrite current id ip user =
    let rebuilt = strip_block current id in
    let spaced = if is_blank rebuilt then rebuilt else rebuilt ++ codes "\n\n" in
    spaced ++ (render id ip user ++ codes "\n")

abbrev created : FilePath → Result IoError Node → Io IoError (Unit {0})
created path (err not_exist) = write_file path []
created path (err failed) = done
created path (ok n) = done

unfoldable pub ensure_file : FilePath → Io IoError (Unit {0})
ensure_file path = do mkdir_all (dir_of path); λ fs. created path (stat path fs) fs

unfoldable pub write : FilePath → ℕ → Text → Text → Io IoError (Unit {0})
write path id ip user = do
  ensure_file path
  current ← reads (read_file path)
  write_file path (rewrite current id ip user)

abbrev pub stripped : FilePath → ℕ → Result IoError Text → Io IoError (Unit {0})
stripped path id (err not_exist) = done
stripped path id (err failed) = λ fs. (fs, err failed)
stripped path id (ok current) =
    if strip_block current id == current then done else write_file path (strip_block current id)

unfoldable pub strip : FilePath → ℕ → Io IoError (Unit {0})
strip path id fs = stripped path id (read_file path fs) fs

abbrev holds_block : ℕ → Result IoError Text → Bool
holds_block id (ok current) = contains (begin_marker id) current
holds_block id (err e) = false

-- `Contains`
unfoldable pub contains_block : FilePath → ℕ → Fs → Bool
contains_block path id fs = holds_block id (read_file path fs)
