-- ===== src/Tests/Boxes.antt =====
-- Box ids, the registry and the removal of the host's state, on a small store.
use mpd_virt_macos.Base.{
  ℕ, Bool, ◌<◌, not, all, true, false, List, [], ◌∷◌, some, none, ok, ◌≡◌, ◌↔◌, refl, arith, All,
  length, list_beq,
}
use mpd_virt_macos.Text.{Text, codes, is_space, byte_len}
use mpd_virt_macos.Text.Trim.{IsSolid}
use mpd_virt_macos.Text.Decimal.{pos, atoi, pad3, is_digit}
use mpd_virt_macos.Fs.{
  FilePath, Fs, file, directory, find, put, is_under, prune, stat, blocked_from, mkdir_all,
  write_file, remove_all, put_dirs, dir_of, read_dir, children, child_name,
}
use mpd_virt_macos.Fs.Laws.{SameAt}
use mpd_virt_macos.Vmid.{parse, pad}
use mpd_virt_macos.Vmid.Bounds.{IsBoxId, parse_sound, parse_complete, parse-pad}
use mpd_virt_macos.Env.Laws.{IsStorable, IsSolid-IsValue}
use mpd_virt_macos.Paths.{conf, ca_root, vm_dir, vm_env}
use mpd_virt_macos.Registry.{Entry, save, load, list}
use mpd_virt_macos.Registry.RoundTrip.{IsEntry, load-save}
use mpd_virt_macos.Registry.Frame.{load-save_other}
use mpd_virt_macos.Registry.Listing.{IsSorted, count, count_named, list_lem}
use mpd_virt_macos.Uninstall.{wipe_host_state}
use mpd_virt_macos.Uninstall.Kept.{wipe_host_state_kept}
use mpd_virt_macos.Uninstall.Gone.{gone-wipe_host_state}
use mpd_virt_macos.Base.{◌++◌}

abbrev home : FilePath
home = codes "home" ∷ []

abbrev store : Fs
store = record {
  nodes =
      (codes "home" ∷ [], directory)
      ∷ (codes "home" ∷ codes "conf" ∷ [], directory)
      ∷ (codes "home" ∷ codes "conf" ∷ codes "caroot" ∷ [], directory)
      ∷ (codes "home" ∷ codes "conf" ∷ codes "caroot" ∷ codes "key" ∷ [], file (codes "k"))
      ∷ (codes "home" ∷ codes "conf" ∷ codes "lan-hosts" ∷ [], file (codes "h"))
      ∷ (codes "home" ∷ codes "007" ∷ [], directory)
      ∷ (codes "home" ∷ codes "007" ∷ codes "env" ∷ [], file (codes "MPD_VM_IP=10.0.0.7"))
      ∷ [];
  denied = λ p. false;
}

abbrev pub box : Entry
box = record { id = 42; ip = codes "10.0.0.5"; user = codes "ann"; backend = codes "utm" }

pub IsSolid-test : (s : Text) → all (λ c. not (is_space c)) s ≡ true → IsSolid s
IsSolid-test [] h = tt
IsSolid-test (c ∷ s) h = (ground arith, IsSolid-test s (ground arith))

pub IsStorable-test :
    (s : Text) → all (λ c. not (is_space c)) s ≡ true → byte_len s < 65000 → IsStorable s
IsStorable-test s h k = record { value = IsSolid-IsValue s (IsSolid-test s h); short = k }

parse_sound_example : IsBoxId 42 × (atoi (codes "042") ≡ some (pos 42))
parse_sound_example = parse_sound (codes "042") parsed
  where
    parsed : parse (codes "042") ≡ ok 42
    parsed = unfold parse atoi in refl

parse_complete_example : parse (codes "+42") ≡ ok 42
parse_complete_example = parse_complete (codes "+42") 42 read (omega arith, omega arith)
  where
    read : atoi (codes "+42") ≡ some (pos 42)
    read = unfold atoi in refl

parse-pad_example :
    (parse (pad 42) ≡ ok 42) × (length (pad 42) ≡ 3) × (all is_digit (pad 42) ≡ true)
parse-pad_example = parse-pad 42 (omega arith, omega arith)

pub box-IsEntry : IsEntry box
box-IsEntry = record {
  box_id = (omega arith, omega arith);
  ip_storable =
      IsStorable-test (codes "10.0.0.5") (unfold is_space in refl) (unfold byte_len in omega arith);
  user_storable =
      IsStorable-test (codes "ann") (unfold is_space in refl) (unfold byte_len in omega arith);
  backend_storable =
      IsStorable-test (codes "utm") (unfold is_space in refl) (unfold byte_len in omega arith);
  ip_ne_nil = λ e. cc;
  user_ne_nil = λ e. cc;
}

box_saved : (save home box store).1 ≡ ok tt
unfolding save vm_dir vm_env pad pad3 mkdir_all write_file find put put_dirs blocked_from list_beq
    dir_of
box_saved = refl

load-save_example : load home 42 (save home box store).0 ≡ ok box
load-save_example = load-save box box-IsEntry home store box_saved

abbrev other_box : Entry
other_box = record { id = 7; ip = codes "10.0.0.7"; user = codes "bob"; backend = codes "generic" }

-- The store with the box 7 in it.
abbrev both : Fs
both = (save home other_box store).0

other-IsEntry : IsEntry other_box
other-IsEntry = record {
  box_id = (omega arith, omega arith);
  ip_storable =
      IsStorable-test (codes "10.0.0.7") (unfold is_space in refl) (unfold byte_len in omega arith);
  user_storable =
      IsStorable-test (codes "bob") (unfold is_space in refl) (unfold byte_len in omega arith);
  backend_storable =
      IsStorable-test (codes "generic") (unfold is_space in refl) (unfold byte_len in omega arith);
  ip_ne_nil = λ e. cc;
  user_ne_nil = λ e. cc;
}

load-save_other_example :
    (load home 7 both ≡ ok other_box) ↔ (load home 7 (save home box both).0 ≡ ok other_box)
load-save_other_example =
    load-save_other home 42 7 (omega arith, omega arith) (omega arith, omega arith)
      (λ e. omega arith) box other_box both refl

abbrev entries : List (Text × Bool)
entries = (codes "conf", true) ∷ (codes "007", true) ∷ []

entries_read : read_dir home both ≡ ok entries
unfolding save vm_dir vm_env pad pad3 mkdir_all write_file put put_dirs dir_of read_dir stat find
    children child_name blocked_from list_beq
entries_read = refl

list_lem_example :
    (es : List Entry) × (list home both ≡ ok es)
    × IsSorted es
    × All (λ e. load home e.id both ≡ ok e) es
    × ((n : ℕ) (e : Entry) → load home n both ≡ ok e → count n es ≡ count_named n entries)
list_lem_example = list_lem home both entries entries_read

wipe_host_state_kept_example :
    SameAt
      (codes "home" ∷ codes "conf" ∷ codes "caroot" ∷ codes "key" ∷ [])
      store
      (wipe_host_state home store).0
wipe_host_state_kept_example = wipe_host_state_kept home (codes "key" ∷ []) store

-- The removal does run to its end on this store, and takes the box and the rest of `conf`.
store_wiped :
    (find (vm_env home 7) (wipe_host_state home store).0.nodes ≡ none)
    × (find
          (codes "home" ∷ codes "conf" ∷ codes "lan-hosts" ∷ [])
          (wipe_host_state home store).0.nodes
        ≡ none)
    × ((wipe_host_state home store).1 ≡ ok tt)
unfolding wipe_host_state remove_all prune vm_dir vm_env pad pad3 list_beq blocked_from find
    is_under stat read_dir children child_name conf ca_root
store_wiped = (refl, refl, refl)

gone-wipe_host_state_example :
    find (codes "home" ∷ codes "007" ∷ codes "env" ∷ []) (wipe_host_state home store).0.nodes ≡ none
gone-wipe_host_state_example =
    gone-wipe_host_state home (codes "env" ∷ []) (codes "007") (λ e. cc) store directory at_home
      at_box store_wiped.2
  where
    at_home : find home store.nodes ≡ some directory
    at_home = unfold find list_beq in refl

    at_box : find (home ++ codes "007" ∷ []) store.nodes ≡ some directory
    at_box = unfold find list_beq in refl
