-- ===== src/Server.antt =====
-- go/internal/server/server.go: the LAN machines that have a name under mpd.test. `ValidateIP` stands
-- with the command that calls it.
pub mod Labels
pub mod Apart
pub mod RoundTrip
use mpd_virt_macos.Base.{
  ℕ, Bool, true, false, not, all, ◌&&◌, ◌||◌, List, [], ◌∷◌, ◌++◌, Option, none, some, ◌==◌,
  list_eq, nat_eq, leb, ltb, if◌then◌else◌, Result, ok, err,
}
use mpd_virt_macos.Text.{
  Text, codes, to_lower, trim_space, has_prefix, has_suffix, trim_suffix, contains, byte_len, join,
}
use mpd_virt_macos.Text.Decimal.{is_digit}
use mpd_virt_macos.Fs.{
  FilePath, Fs, IoError, not_exist, failed, Node, Io, ◌>>=◌, ◌>>◌, reads, stat, read_file, read_dir,
  mkdir_all, write_file, remove_all,
}
use mpd_virt_macos.Env.{Bindings, binding, scan_env}
use mpd_virt_macos.Paths.{servers, conf, lan_hosts}

abbrev pub root_domain : Text
root_domain = codes "mpd.test"

unfoldable pub service_host : Text → Text
service_host name = name ++ (codes "." ++ root_domain)

pub record Entry : Type 0 where
  pub name : Text
  pub ip : Text

unfoldable pub host : Entry → Text
unfolding service_host
host e = service_host e.name

unfoldable pub is_vm_zone_label : Text → Bool
is_vm_zone_label label = if not (byte_len label == 3) then false else all is_digit label

unfoldable pub dir : FilePath → Text → FilePath
dir root name = servers root ++ name ∷ []

unfoldable pub env_file : FilePath → Text → FilePath
env_file root name = servers root ++ name ∷ codes "env" ∷ []

-- The rejections of `Normalise`, in the order of its tests.
pub data NameError : Type 0 where
  not_under_root empty_name many_labels vm_zone_name bad_rune bad_hyphen : NameError

unfoldable pub label_rune : ℕ → Bool
label_rune c = (leb b'a' c && leb c b'z') || ((leb b'0' c && leb c b'9') || c == b'-')

-- What `Normalise` tests once the root domain is off.
unfoldable pub check_label : Text → Result NameError Text
check_label label =
    if label == []
    then err empty_name
    else if contains (codes ".") label
    then err many_labels
    else if is_vm_zone_label label
    then err vm_zone_name
    else if not (all label_rune label)
    then err bad_rune
    else if has_prefix (codes "-") label || has_suffix (codes "-") label
    then err bad_hyphen
    else ok label

abbrev pub suffix : Text
suffix = codes "." ++ root_domain

unfoldable pub normalise : Text → Result NameError Text
normalise input =
    let label = to_lower (trim_space input) in
    if has_suffix suffix label
    then check_label (trim_suffix suffix label)
    else if contains (codes ".") label
    then err not_under_root
    else check_label label

unfoldable pub body : Entry → Text
body e =
    codes "# mpd-virt registry entry for "
    ++ (host e
        ++ (codes ".\n# Managed by `mpd-virt server add`. Edit at your own risk.\nMPD_SERVER_NAME="
            ++ (e.name ++ (codes "\nMPD_SERVER_IP=" ++ (e.ip ++ codes "\n")))))

unfoldable pub save : FilePath → Entry → Io IoError (Unit {0})
save root e = do mkdir_all (dir root e.name); write_file (env_file root e.name) (body e)

abbrev succeeds : {E A : Type 0} → Result E A → Bool
succeeds (ok a) = true
succeeds (err e) = false

unfoldable pub exists : FilePath → Text → Fs → Bool
exists root name fs = succeeds (stat (env_file root name) fs)

pub data LoadError : Type 0 where
  no_server line_too_long missing_key : LoadError
  unreadable : IoError → LoadError

unfoldable pub entry_of : Bindings → Result LoadError Entry
entry_of kv =
    let n = binding (codes "MPD_SERVER_NAME") kv in
    let ip = binding (codes "MPD_SERVER_IP") kv in
    if n == [] || ip == [] then err missing_key else ok (record { name = n; ip = ip })

abbrev scanned : Option Bindings → Result LoadError Entry
scanned none = err line_too_long
scanned (some kv) = entry_of kv

abbrev opened : Result IoError Text → Result LoadError Entry
opened (err not_exist) = err no_server
opened (err failed) = err (unreadable failed)
opened (ok text) = scanned (scan_env text)

unfoldable pub load : FilePath → Text → Fs → Result LoadError Entry
unfolding entry_of
load root name fs = opened (read_file (env_file root name) fs)

-- `<=` on strings.
unfoldable pub text_leb : Text → Text → Bool
text_leb [] t = true
text_leb (c ∷ s) [] = false
text_leb (c ∷ s) (d ∷ t) = ltb c d || (c == d && text_leb s t)

unfoldable pub insert_name : Text → List Text → List Text
unfolding text_leb
insert_name n [] = n ∷ []
insert_name n (m ∷ ns) = if text_leb n m then n ∷ m ∷ ns else m ∷ insert_name n ns

-- `sort.Strings`
unfoldable pub sort_names : List Text → List Text
unfolding insert_name
sort_names [] = []
sort_names (n ∷ ns) = insert_name n (sort_names ns)

-- The loop of `known`: the directories with an env file inside.
unfoldable pub registered : FilePath → Fs → List (Text × Bool) → List Text
registered root fs [] = []
registered root fs ((d, is_dir) ∷ ds) =
    let rest = registered root fs ds in if is_dir && exists root d fs then d ∷ rest else rest

abbrev names_of : FilePath → Fs → Result IoError (List (Text × Bool)) → Result IoError (List Text)
names_of root fs (ok ds) = ok (sort_names (registered root fs ds))
names_of root fs (err not_exist) = ok []
names_of root fs (err failed) = err failed

unfoldable pub known : FilePath → Fs → Result IoError (List Text)
known root fs = names_of root fs (read_dir (servers root) fs)

abbrev add_loaded : Result LoadError Entry → List Entry → List Entry
add_loaded (ok e) es = e ∷ es
add_loaded (err x) es = es

-- The loop of `LoadAll`: an entry that does not load is skipped.
unfoldable pub load_each : FilePath → Fs → List Text → List Entry
load_each root fs [] = []
load_each root fs (n ∷ ns) = add_loaded (load root n fs) (load_each root fs ns)

abbrev loaded : FilePath → Fs → Result IoError (List Text) → Result IoError (List Entry)
loaded root fs (ok ns) = ok (load_each root fs ns)
loaded root fs (err e) = err e

unfoldable pub load_all : FilePath → Fs → Result IoError (List Entry)
load_all root fs = loaded root fs (known root fs)

abbrev forgive : Fs × Result IoError (Unit {0}) → Fs × Result IoError (Unit {0})
forgive (fs, err not_exist) = (fs, ok tt)
forgive (fs, err failed) = (fs, err failed)
forgive (fs, ok u) = (fs, ok u)

unfoldable pub remove : FilePath → Text → Io IoError (Unit {0})
remove root name fs = forgive (remove_all (dir root name) fs)

abbrev pub host_line : Entry → Text
host_line e = e.ip ++ b'\t' ∷ host e

abbrev pub host_lines : List Entry → List Text
host_lines [] = []
host_lines (e ∷ es) = host_line e ∷ host_lines es

-- The hosts(5) text of the entries: what `hostsBody` joins.
unfoldable pub hosts_text : List Entry → Text
hosts_text es =
    join (codes "\n") (
      codes "# mpd-virt LAN service records."
      ∷ codes "# Generated by `mpd-virt server`; edits are overwritten."
      ∷ host_lines es)
    ++ codes "\n"

abbrev rendered : Result IoError (List Entry) → Result IoError Text
rendered (ok es) = ok (hosts_text es)
rendered (err e) = err e

unfoldable pub hosts_body : FilePath → Fs → Result IoError Text
hosts_body root fs = rendered (load_all root fs)

-- `WriteHostsFile`, less the path that it returns.
unfoldable pub write_hosts_file : FilePath → Io IoError (Unit {0})
write_hosts_file root = do
  mkdir_all (conf root)
  text ← reads (hosts_body root)
  write_file (lan_hosts root) text
