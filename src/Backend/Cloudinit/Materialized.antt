-- ===== src/Backend/Cloudinit/Materialized.antt =====
-- The disk that a new UTM box is given.
use mpd_virt_macos.Base.{
  ℕ, ◌*◌, ◌≤◌, ◌<◌, Bool, true, false, not, [], ◌∷◌, ◌++◌, some, nat_eq, list_eq, Result, ok, err,
  ◌≡◌, inl, inr, refl, Result-cases, ◌∙◌, ap, subst,
}
use mpd_virt_macos.Text.{Text, codes, byte_len}
use mpd_virt_macos.Text.Decimal.{pos}
use mpd_virt_macos.Fs.{FilePath, IoError, Fs, file, find, is_under, stat, mkdir_all, dir_of}
use mpd_virt_macos.Fs.Laws.{SameAt, remove_all-SameAt}
use mpd_virt_macos.Host.{Log, succeeded}
use mpd_virt_macos.Machine.{
  Outside, Mac, Failure, io_failed, said, Run, pure, lift, io, ◌>>=◌, ◌>>◌, attempt, require,
}
use mpd_virt_macos.Machine.Outcome.{gets_then, passed, required}
use mpd_virt_macos.Backend.Cloudinit.{make_temp, tidied}
use mpd_virt_macos.Backend.Cloudinit.Disk.{
  exists, is_there, ensure_base_archive, tar_command, extract_disk, materialize_disk,
}
use mpd_virt_macos.Backend.Cloudinit.Resized.{gib, IsSize, grown, is_raw, exact_size}
use mpd_virt_macos.Backend.Cloudinit.Extracted.{Extracted, extract_ok}

module _ (o : Outside) (dest : FilePath) (m : Mac) where
  -- The files once the directory of the disk is made.
  abbrev pub parent_made : Fs
  parent_made = (mkdir_all (dir_of dest) (ensure_base_archive o m).0.files).0

  abbrev pub unpack_dir : FilePath
  unpack_dir = o.temp_dir parent_made

  -- The files that `tar` starts from.
  abbrev pub ready : Fs
  ready = (mkdir_all unpack_dir parent_made).0

  abbrev pub tar_log : Log
  tar_log = (ensure_base_archive o m).0.log

-- What `materializeDisk` has done: `tar` has unpacked the archive that `ensureBaseArchive` has
-- answered into the temporary directory, has exited with 0 and has left an image there, the disk was
-- not there, and it is now the image with zeros behind it, of exactly the size.
pub record Materialized (o : Outside) (dest : FilePath) (size : ℕ) (m m' : Mac) : Type 0 where
  pub archive : FilePath
  pub raw : Text
  pub image : Text
  pub reason : IoError
  pub new : stat dest (ensure_base_archive o m).0.files ≡ err reason
  pub obtained : (ensure_base_archive o m).1 ≡ ok archive
  pub exited :
      succeeded (o.answer (tar_log o dest m) (tar_command o archive (unpack_dir o dest m))) ≡ true
  pub named : is_raw raw ≡ true
  pub from_archive :
      find
        (unpack_dir o dest m ++ raw ∷ [])
        (o.leaves
          (tar_log o dest m)
          (tar_command o archive (unpack_dir o dest m))
          (ready o dest m)).nodes
      ≡ some (file image)
  pub no_larger : byte_len image ≤ size
  pub disk : find dest m'.files.nodes ≡ some (file (grown size image))
  pub exact : byte_len (grown size image) ≡ size

-- The removal of the temporary directory does not reach a path that is not in it.
tidied_ok :
    (tmp dest : FilePath) (r : Result Failure (Unit {0})) (m : Mac)
    → is_under tmp dest ≡ false
    → (tidied tmp r m).1 ≡ ok tt
    → (r ≡ ok tt) × SameAt dest m.files (tidied tmp r m).0.files
unfolding ◌>>=◌ attempt io pure lift
tidied_ok tmp dest (ok u) m h k = (refl, remove_all-SameAt dest tmp m.files h)
tidied_ok tmp dest (err e) m h k = cc

made_dir :
    (p : FilePath) (m : Mac)
    → (io io_failed (mkdir_all p) m).0 ≡ record m { files = (mkdir_all p m.files).0 }
unfolding io
made_dir p m = refl

not_found : {E A : Type 0} (r : Result E A) → not (exists r) ≡ true → (e : E) × (r ≡ err e)
not_found (ok a) h = cc
not_found (err e) h = (e, refl)

module _ (o : Outside) (dest : FilePath) (n : ℕ) (h : IsSize n) (small : o.dir_size dest < gib)
    (above : (fs : Fs) → is_under dest (o.temp_dir fs) ≡ false)
    (beside : (fs : Fs) → is_under (o.temp_dir fs) dest ≡ false) where
  in_temp : FilePath → FilePath → Run (Unit {0})
  in_temp archive tmp = attempt (extract_disk o archive tmp dest (pos n)) (tidied tmp)

  behind_check : FilePath → Run (Unit {0})
  behind_check archive = io io_failed (mkdir_all (dir_of dest)) >> (make_temp o >>= in_temp archive)

  in_temp_ok :
      (archive tmp : FilePath) (m : Mac)
      → is_under dest tmp ≡ false
      → is_under tmp dest ≡ false
      → (in_temp archive tmp m).1 ≡ ok tt
      → (succeeded (o.answer m.log (tar_command o archive tmp)) ≡ true)
        × Extracted tmp dest
            (n * gib)
            (o.leaves m.log (tar_command o archive tmp) m.files)
            (in_temp archive tmp m).0
  unfolding in_temp attempt
  in_temp_ok archive tmp m a b k =
      let done = extract_disk o archive tmp dest (pos n) m in
      let (done_well, kept) = tidied_ok tmp dest done.1 done.0 b k in
      let (exited, (raw, image, named, was, fits, there)) =
        extract_ok o archive tmp dest n h small a b m done_well in
      (exited, (raw, image, named, was, fits, kept.1 ∙ there))

  abbrev with_temp : Mac → Mac
  with_temp m = record m { files = (mkdir_all (o.temp_dir m.files) m.files).0 }

  made_temp :
      (archive : FilePath) (m : Mac)
      → ((make_temp o >>= in_temp archive) m).1 ≡ ok tt
      → ((make_temp o >>= in_temp archive) m ≡ in_temp archive (o.temp_dir m.files) (with_temp m))
        × ((in_temp archive (o.temp_dir m.files) (with_temp m)).1 ≡ ok tt)
  unfolding make_temp
  made_temp archive m k = elim (Result-cases (mkdir_all (o.temp_dir m.files) m.files).1) [
    | inl (x, e) ↦ (rw e refl, rw e at k)
    | inr (x, e) ↦ absurd (never (rw e at k))
  ]
    where
      never : {x : IoError} → ◌≡◌ {A = Result Failure (Unit {0})} (err (io_failed x)) (ok tt) → ⊥
      never j = cc

  abbrev with_parent : Mac → Mac
  with_parent m = record m { files = (mkdir_all (dir_of dest) m.files).0 }

  behind_ok :
      (archive : FilePath) (m : Mac)
      → (behind_check archive m).1 ≡ ok tt
      → (behind_check archive m ≡ (make_temp o >>= in_temp archive) (with_parent m))
        × (((make_temp o >>= in_temp archive) (with_parent m)).1 ≡ ok tt)
  unfolding behind_check
  behind_ok archive m k =
      let next = make_temp o >>= in_temp archive in
      let made = io io_failed (mkdir_all (dir_of dest)) in
      let (_, _, same, rest) = passed made (λ _. next) m tt k in
      let at_parent = made_dir (dir_of dest) m in
      (same ∙ ap next at_parent, subst (λ x. (next x).1 ≡ ok tt) at_parent rest)

  -- For a size from one gibibyte up to what Go's arithmetic can hold, a temporary directory that is
  -- apart from the disk, and a host that says of no directory that it is a gibibyte long: when
  -- `materializeDisk` succeeds, `tar` has exited with 0 on the archive that `ensureBaseArchive` has
  -- answered, there was no disk before, and the disk is now the image that `tar` has left in the
  -- temporary directory, with zeros behind it, of exactly the size.
  pub materialize_disk_lem :
      (m : Mac)
      → (materialize_disk o dest (pos n) m).1 ≡ ok tt
      → Materialized o dest (n * gib) m (materialize_disk o dest (pos n) m).0
  unfolding materialize_disk is_there behind_check in_temp
  materialize_disk_lem m k =
      let checked = λ (archive : FilePath) (there : Bool).
        require (not there) (said (codes "destination disk already exists"))
        >> behind_check archive in
      let check = λ (archive : FilePath). is_there dest >>= checked archive in
      let (archive, obtained, same, rest) = passed (ensure_base_archive o) check m tt k in
      let m1 = (ensure_base_archive o m).0 in
      let looked = gets_then (λ x. exists (stat dest x.files)) (checked archive) m1 in
      let (absent, same2, rest2) =
        required (not (exists (stat dest m1.files)))
          (said (codes "destination disk already exists")) (behind_check archive) m1 tt
          (rw looked at rest) in
      let (same3, rest3) = behind_ok archive m1 rest2 in
      let m2 = with_parent m1 in
      let (same4, rest4) = made_temp archive m2 rest3 in
      let (exited, (raw, image, named, was, fits, there)) =
        in_temp_ok archive (o.temp_dir m2.files) (with_temp m2) (above m2.files) (beside m2.files)
          rest4 in
      let (reason, new) = not_found (stat dest m1.files) absent in
      rw (same, looked, same2, same3, same4)
        record {
          archive = archive;
          raw = raw;
          image = image;
          reason = reason;
          new = new;
          obtained = obtained;
          exited = exited;
          named = named;
          from_archive = was;
          no_larger = fits;
          disk = there;
          exact = exact_size (n * gib) image fits;
        }
