-- ===== src/Registry.antt =====
-- go/internal/registry/registry.go: one env file for each adopted box.
pub mod RoundTrip
pub mod Frame
pub mod Listing
use mpd_virt_macos.Base.{
  ℕ, Bool, true, false, ◌||◌, List, [], ◌∷◌, ◌++◌, Option, none, some, ◌==◌, list_eq, nat_eq, leb,
  if◌then◌else◌, Result, ok, err,
}
use mpd_virt_macos.Text.{Text, codes}
use mpd_virt_macos.Fs.{
  FilePath, Fs, IoError, not_exist, failed, Io, ◌>>=◌, ◌>>◌, stat, read_file, read_dir, mkdir_all,
  write_file, remove_all,
}
use mpd_virt_macos.Vmid.{ParseError, parse, pad, name}
use mpd_virt_macos.Env.{Bindings, binding, scan_env}
use mpd_virt_macos.Paths.{vm_dir, vm_env}

pub record Entry : Type 0 where
  pub id : ℕ
  pub ip : Text
  pub user : Text
  pub backend : Text

pub data LoadError : Type 0 where
  no_entry line_too_long missing_key : LoadError
  unreadable : IoError → LoadError

-- The text that `Save` writes.
unfoldable pub body : Entry → Text
body e =
    codes "# mpd-virt registry entry for "
    ++ (name e.id
        ++ (codes ".\n# Source of truth for takeover. Edit at your own risk.\nMPD_VM_OCTET="
            ++ (pad e.id
                ++ (codes "\nMPD_VM_NAME="
                    ++ (name e.id
                        ++ (codes "\nMPD_VM_BACKEND="
                            ++ (e.backend
                                ++ (codes "\nMPD_VM_IP="
                                    ++ (e.ip
                                        ++ (codes "\nMPD_VM_USER="
                                            ++ (e.user ++ codes "\n")))))))))))

unfoldable pub save : FilePath → Entry → Io IoError (Unit {0})
save root e = do mkdir_all (vm_dir root e.id); write_file (vm_env root e.id) (body e)

abbrev succeeds : {E A : Type 0} → Result E A → Bool
succeeds (ok a) = true
succeeds (err e) = false

unfoldable pub exists : FilePath → ℕ → Fs → Bool
exists root id fs = succeeds (stat (vm_env root id) fs)

-- What `Load` does with the bindings.
unfoldable pub entry_of : ℕ → Bindings → Result LoadError Entry
entry_of id kv =
    let ip = binding (codes "MPD_VM_IP") kv in
    let user = binding (codes "MPD_VM_USER") kv in
    if ip == [] || user == []
    then err missing_key
    else ok
        (record { id = id; ip = ip; user = user; backend = binding (codes "MPD_VM_BACKEND") kv })

abbrev scanned : ℕ → Option Bindings → Result LoadError Entry
scanned id none = err line_too_long
scanned id (some kv) = entry_of id kv

abbrev opened : ℕ → Result IoError Text → Result LoadError Entry
opened id (err not_exist) = err no_entry
opened id (err failed) = err (unreadable failed)
opened id (ok text) = scanned id (scan_env text)

unfoldable pub load : FilePath → ℕ → Fs → Result LoadError Entry
unfolding entry_of
load root id fs = opened id (read_file (vm_env root id) fs)

abbrev forgive : Fs × Result IoError (Unit {0}) → Fs × Result IoError (Unit {0})
forgive (fs, err not_exist) = (fs, ok tt)
forgive (fs, err failed) = (fs, err failed)
forgive (fs, ok u) = (fs, ok u)

unfoldable pub remove : FilePath → ℕ → Io IoError (Unit {0})
remove root id fs = forgive (remove_all (vm_dir root id) fs)

abbrev add_loaded : Result LoadError Entry → List Entry → List Entry
add_loaded (ok e) es = e ∷ es
add_loaded (err x) es = es

abbrev add_named : FilePath → Fs → Result ParseError ℕ → List Entry → List Entry
add_named root fs (ok id) es = add_loaded (load root id fs) es
add_named root fs (err x) es = es

-- The loop of `List`, over the names in the root and whether each is a directory.
unfoldable pub collect : FilePath → Fs → List (Text × Bool) → List Entry
collect root fs [] = []
collect root fs ((d, is_dir) ∷ ds) =
    let rest = collect root fs ds in if is_dir then add_named root fs (parse d) rest else rest

-- `sort.Slice` by id: the entries with one id are equal, so their order among themselves is none.
unfoldable pub insert : Entry → List Entry → List Entry
insert e [] = e ∷ []
insert e (f ∷ es) = if leb e.id f.id then e ∷ f ∷ es else f ∷ insert e es

unfoldable pub sort : List Entry → List Entry
unfolding insert
sort [] = []
sort (e ∷ es) = insert e (sort es)

abbrev listed : FilePath → Fs → Result IoError (List (Text × Bool)) → Result IoError (List Entry)
listed root fs (ok ds) = ok (sort (collect root fs ds))
listed root fs (err not_exist) = ok []
listed root fs (err failed) = err failed

-- `List`
unfoldable pub list : FilePath → Fs → Result IoError (List Entry)
unfolding collect sort
list root fs = listed root fs (read_dir root fs)
