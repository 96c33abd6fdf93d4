-- ===== src/Backend/Cloudinit/Extracted.antt =====
-- What is done with the files of the archive.
use mpd_virt_macos.Base.{
  ℕ, ◌*◌, ◌≤◌, ◌<◌, Bool, true, false, [], ◌∷◌, ◌++◌, Option, none, some, nat_eq, list_eq, Result,
  ok, err, ◌≡◌, refl, arith, sym, subst, ◌∙◌, list_beq, List,
}
use mpd_virt_macos.Text.{Text, codes, byte_len}
use mpd_virt_macos.Text.Decimal.{ℤ, pos}
use mpd_virt_macos.Fs.{FilePath, Fs, Node, file, directory, find, is_under, stat, read_dir}
use mpd_virt_macos.Fs.Files.{rename}
use mpd_virt_macos.Fs.Files.Laws.{under_append, rename_ok}
use mpd_virt_macos.Host.{is_zero, succeeded}
use mpd_virt_macos.Server.{sort_names}
use mpd_virt_macos.Machine.{
  Outside, Mac, Failure, io_failed, said, Run, pure, raise, reads, io, ◌>>=◌, ◌>>◌, require,
}
use mpd_virt_macos.Machine.Exec.{run_writing, allowed}
use mpd_virt_macos.Machine.Written.{run_writing_files, run_writing_code}
use mpd_virt_macos.Machine.Outcome.{passed, read_ok, required, io_ok}
use mpd_virt_macos.Backend.Cloudinit.Disk.{
  names_in, first_raw, raw_or_fail, node_size, target_bytes, resize, tar_command, extract_disk,
}
use mpd_virt_macos.Backend.Cloudinit.Resized.{
  gib, IsSize, target_bytes_lem, grown, resized, no_directory, is_raw, first_raw_ok, one_below,
}

-- Of `Materialized`, what is done with the temporary directory.
abbrev pub Extracted : FilePath → FilePath → ℕ → Fs → Mac → Type 0
Extracted tmp dest size left m' =
    (raw : Text) × (image : Text) × (is_raw raw ≡ true)
    × (find (tmp ++ raw ∷ []) left.nodes ≡ some (file image))
    × (byte_len image ≤ size)
    × (find dest m'.files.nodes ≡ some (file (grown size image)))

stat_found : (p : FilePath) (fs : Fs) (n : Node) → stat p fs ≡ ok n → find p fs.nodes ≡ some n
unfolding stat
stat_found p fs n h = ground arith

module _ (o : Outside) (archive tmp dest : FilePath) (n : ℕ) (h : IsSize n)
    (small : o.dir_size dest < gib) (above : is_under dest tmp ≡ false)
    (beside : is_under tmp dest ≡ false) where
  sized : Run (Unit {0})
  sized = reads io_failed (stat dest) >>= λ node.
      resize dest (target_bytes (pos n)) (node_size o dest node)

  move_raw : Text → Run (Unit {0})
  move_raw raw = io io_failed (rename (tmp ++ raw ∷ []) dest) >> sized

  find_raw : Run (Unit {0})
  find_raw = reads io_failed (read_dir tmp) >>= λ entries.
      raw_or_fail (first_raw (sort_names (names_in entries))) >>= move_raw

  by_node :
      (m : Mac) (node : Node)
      → find dest m.files.nodes ≡ some node
      → (resize dest (pos (n * gib)) (node_size o dest node) m).1 ≡ ok tt
      → (image : Text) × (node ≡ file image)
        × (byte_len image ≤ n * gib)
        × (find dest (resize dest (pos (n * gib)) (node_size o dest node) m).0.files.nodes
            ≡ some (file (grown (n * gib) image)))
  by_node m (file t) at k =
      let (fits, there) = resized dest (n * gib) (byte_len t) m t refl at k in
      (t, refl, fits, there)
  by_node m directory at k =
      absurd (no_directory dest (n * gib) (o.dir_size dest) m (omega arith) at k)

  sized_ok :
      (m : Mac)
      → (sized m).1 ≡ ok tt
      → (image : Text) × (find dest m.files.nodes ≡ some (file image))
        × (byte_len image ≤ n * gib)
        × (find dest (sized m).0.files.nodes ≡ some (file (grown (n * gib) image)))
  unfolding sized
  sized_ok m k =
      let sizes = λ (x : Node). resize dest (target_bytes (pos n)) (node_size o dest x) in
      let (node, seen, same, rest) = read_ok io_failed (stat dest) sizes m tt k in
      let at = stat_found dest m.files node seen in
      let (image, is_file, fits, there) = by_node m node at (rw (target_bytes_lem n h) at rest) in
      rw (same, target_bytes_lem n h) (image, rw is_file at at, fits, there)

  raw_ok :
      (ns : List Text) (m : Mac)
      → ((raw_or_fail (first_raw ns) >>= move_raw) m).1 ≡ ok tt
      → (raw : Text) × (first_raw ns ≡ some raw)
        × ((raw_or_fail (first_raw ns) >>= move_raw) m ≡ move_raw raw m)
        × ((move_raw raw m).1 ≡ ok tt)
  unfolding ◌>>=◌ raise pure
  raw_ok ns m k = by_first (first_raw ns) refl
    where
      by_first :
          (r : Option Text)
          → first_raw ns ≡ r
          → (raw : Text) × (first_raw ns ≡ some raw)
            × ((raw_or_fail (first_raw ns) >>= move_raw) m ≡ move_raw raw m)
            × ((move_raw raw m).1 ≡ ok tt)
      by_first none e = absurd (never (rw e at k))
        where
          never :
              ◌≡◌ {A = Result Failure (Unit {0})}
                (err (said (codes "no .raw disk image found")))
                (ok tt)
              → ⊥
          never j = cc
      by_first (some raw) e = (raw, e, rw e refl, rw e at k)

  move_raw_ok :
      (raw : Text) (m : Mac)
      → (move_raw raw m).1 ≡ ok tt
      → (image : Text) × (find (tmp ++ raw ∷ []) m.files.nodes ≡ some (file image))
        × (byte_len image ≤ n * gib)
        × (find dest (move_raw raw m).0.files.nodes ≡ some (file (grown (n * gib) image)))
  unfolding move_raw
  move_raw_ok raw m k =
      let source = tmp ++ raw ∷ [] in
      let move : Run (Unit {0}) = io io_failed (rename source dest) in
      let (_, moved, same, rest) = passed move (λ _. sized) m tt k in
      let (moved_ok, after) = io_ok io_failed (rename source dest) m tt moved in
      let (node, was, is_now) =
        rename_ok source dest m.files (λ e. under_append tmp (raw ∷ []) dest beside (sym e))
          (one_below dest tmp raw above beside) moved_ok in
      let (image, held, fits, there) = sized_ok (move m).0 rest in
      let both : some node ≡ some (file image) = sym is_now ∙ (rw after at held) in
      rw same (image, was ∙ both, fits, there)

  find_raw_ok :
      (m : Mac) → (find_raw m).1 ≡ ok tt → Extracted tmp dest (n * gib) m.files (find_raw m).0
  unfolding find_raw
  find_raw_ok m k =
      let named = λ (es : List (Text × Bool)).
        raw_or_fail (first_raw (sort_names (names_in es))) >>= move_raw in
      let (es, _, same, rest) = read_ok io_failed (read_dir tmp) named m tt k in
      let (raw, is_first, same2, rest2) = raw_ok (sort_names (names_in es)) m rest in
      let (image, was, fits, there) = move_raw_ok raw m rest2 in
      rw (same, same2) (raw, image, first_raw_ok _ raw is_first, was, fits, there)

  tar_allowed : allowed (tar_command o archive tmp) ≡ true
  unfolding tar_command allowed list_beq
  tar_allowed = refl

  on_code : ℤ → Run (Unit {0})
  on_code code = require (is_zero code) (said (codes "tar failed to extract")) >> find_raw

  pub extract_ok :
      (m : Mac)
      → (extract_disk o archive tmp dest (pos n) m).1 ≡ ok tt
      → (succeeded (o.answer m.log (tar_command o archive tmp)) ≡ true)
        × Extracted tmp dest
            (n * gib)
            (o.leaves m.log (tar_command o archive tmp) m.files)
            (extract_disk o archive tmp dest (pos n) m).0
  unfolding extract_disk on_code find_raw move_raw sized
  extract_ok m k =
      let tar = run_writing o (tar_command o archive tmp) in
      let (code, ran, same, rest) = passed tar on_code m tt k in
      let (exited, same2, rest2) =
        required (is_zero code) (said (codes "tar failed to extract")) find_raw (tar m).0 tt rest in
      let (raw, image, named, was, fits, there) = find_raw_ok (tar m).0 rest2 in
      let left = run_writing_files o (tar_command o archive tmp) tar_allowed m in
      rw (same, same2)
        (
          run_writing_code o (tar_command o archive tmp) tar_allowed m code ran ∙ exited,
          (
            raw,
            image,
            named,
            subst (λ fs. find (tmp ++ raw ∷ []) fs.nodes ≡ some (file image)) left was,
            fits,
            there,
          ),
        )
