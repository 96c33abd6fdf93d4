-- ===== src/Backend/Cloudinit/Disk.antt =====
-- go/internal/backend/cloudinit.go: the disk image of a new UTM box, from the archive of the cloud
-- image, which is fetched once.
use mpd_virt_macos.Base.{
  ℕ, ◌*◌, ◌%◌, ◌^◌, Bool, true, false, not, ◌||◌, ltb, List, [], ◌∷◌, ◌++◌, Option, none, some,
  if◌then◌else◌, Result, ok, err,
}
use mpd_virt_macos.Text.{Text, codes, has_prefix, has_suffix, byte_len}
use mpd_virt_macos.Text.Decimal.{ℤ, pos, negsuc}
use mpd_virt_macos.Fs.{FilePath, Node, file, directory, stat, read_dir, mkdir_all, dir_of}
use mpd_virt_macos.Fs.Files.{rename, remove, truncate}
use mpd_virt_macos.Paths.{cloud_images}
use mpd_virt_macos.Server.{sort_names}
use mpd_virt_macos.Host.{Command, is_zero}
use mpd_virt_macos.Machine.{
  Outside, io_failed, said, Run, pure, raise, gets, reads, io, ◌>>=◌, ◌>>◌, attempt, best_effort,
  require,
}
use mpd_virt_macos.Machine.Exec.{run_writing}
use mpd_virt_macos.Backend.Utm.Size.{bits_of, of_bits}
use mpd_virt_macos.Backend.Cloudinit.{make_temp, tidied}

abbrev cloud_archive : Text
cloud_archive = codes "debian-13-genericcloud-arm64-20260722-2547.tar.xz"

abbrev archive_url : Text
archive_url = codes "https://cloud.debian.org/images/cloud/trixie/20260722-2547/" ++ cloud_archive

-- `cachedArchivePath`
unfoldable pub cached_archive_path : FilePath → FilePath
unfolding cloud_images
cached_archive_path root = cloud_images root ++ cloud_archive ∷ []

unfoldable pub partial_path : FilePath → FilePath
unfolding cloud_images
partial_path root = cloud_images root ++ (cloud_archive ++ codes ".partial") ∷ []

abbrev pub exists : {E A : Type 0} → Result E A → Bool
exists (ok a) = true
exists (err e) = false

-- Does `os.Stat` succeed?
unfoldable pub is_there : FilePath → Run Bool
unfolding gets stat
is_there p = gets (λ m. exists (stat p m.files))

unfoldable pub curl_command : Outside → Command
unfolding partial_path
curl_command o =
    codes "curl"
    ∷ codes "-L"
    ∷ codes "--fail"
    ∷ codes "--progress-bar"
    ∷ codes "-o"
    ∷ o.path_text (partial_path o.root)
    ∷ archive_url
    ∷ []

-- The download of `ensureBaseArchive`: beside the cache first, and then into its place.
unfoldable pub fetch : Outside → Run FilePath
unfolding cached_archive_path partial_path curl_command run_writing io mkdir_all rename remove
    attempt ◌>>=◌ pure raise
fetch o = do
  io io_failed (mkdir_all (cloud_images o.root))
  code ← run_writing o (curl_command o)
  if is_zero code
      then io io_failed (rename (partial_path o.root) (cached_archive_path o.root))
      else (best_effort (io io_failed (remove (partial_path o.root)))
          >> raise (said (codes "curl failed to download")))
  pure (cached_archive_path o.root)

-- `ensureBaseArchive`
unfoldable pub ensure_base_archive : Outside → Run FilePath
unfolding fetch is_there
ensure_base_archive o = do
  there ← is_there (cached_archive_path o.root)
  if there then pure (cached_archive_path o.root) else fetch o

abbrev pub names_in : List (Text × Bool) → List Text
names_in [] = []
names_in ((n, is_dir) ∷ es) = n ∷ names_in es

-- The loop that looks for the image among the names that were extracted.
unfoldable pub first_raw : List Text → Option Text
unfolding has_suffix has_prefix
first_raw [] = none
first_raw (n ∷ ns) =
    let rest = first_raw ns in
    if has_suffix (codes ".raw") n || has_prefix (codes "disk.") n then some n else rest

abbrev pub raw_or_fail : Option Text → Run Text
raw_or_fail none = raise (said (codes "no .raw disk image found"))
raw_or_fail (some n) = pure n

-- `info.Size()`
abbrev pub node_size : Outside → FilePath → Node → ℕ
node_size o p (file t) = byte_len t
node_size o p directory = o.dir_size p

-- `int64(diskGiB) * 1024 * 1024 * 1024`
unfoldable pub target_bytes : ℤ → ℤ
target_bytes gib = of_bits (bits_of gib * 2 ^ 30 % 2 ^ 64)

abbrev pub is_below : ℤ → ℕ → Bool
is_below (pos a) n = ltb a n
is_below (negsuc a) n = true

abbrev pub amount : ℤ → ℕ
amount (pos a) = a
amount (negsuc a) = 0

-- The last steps: a disk below its image is refused, and one above it is grown.
unfoldable pub resize : FilePath → ℤ → ℕ → Run (Unit {0})
unfolding remove truncate io attempt ◌>>=◌ pure raise
resize dest target size =
    if is_below target size
    then (best_effort (io io_failed (remove dest))
        >> raise (said (codes "requested disk size is smaller than the cloud image")))
    else if ltb size (amount target)
    then io io_failed (truncate dest (amount target))
    else pure tt

unfoldable pub tar_command : Outside → FilePath → FilePath → Command
tar_command o archive tmp =
    codes "tar" ∷ codes "-xJf" ∷ o.path_text archive ∷ codes "-C" ∷ o.path_text tmp ∷ []

-- What is done with the temporary directory.
unfoldable pub extract_disk : Outside → FilePath → FilePath → FilePath → ℤ → Run (Unit {0})
unfolding tar_command run_writing read_dir first_raw sort_names rename stat target_bytes resize
    ◌>>=◌ reads io pure raise
extract_disk o archive tmp dest gib = do
  code ← run_writing o (tar_command o archive tmp)
  require (is_zero code) (said (codes "tar failed to extract"))
  entries ← reads io_failed (read_dir tmp)
  raw ← raw_or_fail (first_raw (sort_names (names_in entries)))
  io io_failed (rename (tmp ++ raw ∷ []) dest)
  node ← reads io_failed (stat dest)
  resize dest (target_bytes gib) (node_size o dest node)

-- `materializeDisk`
unfoldable pub materialize_disk : Outside → FilePath → ℤ → Run (Unit {0})
unfolding ensure_base_archive is_there make_temp extract_disk attempt
materialize_disk o dest gib = do
  archive ← ensure_base_archive o
  there ← is_there dest
  require (not there) (said (codes "destination disk already exists"))
  io io_failed (mkdir_all (dir_of dest))
  tmp ← make_temp o
  attempt (extract_disk o archive tmp dest gib) (tidied tmp)
