-- ===== src/Backend/Cloudinit/Fetched.antt =====
-- What the download of the cloud image leaves in the cache.
use mpd_virt_macos.Base.{
  true, false, [], ◌∷◌, nat_eq, list_eq, list_beq, if◌then◌else◌, Result, ok, err, ◌≡◌, some, ◌⊎◌,
  length-append, ◌<◌, inl, inr, refl, ap, arith, length, Bool-cases, Result-cases,
}
use mpd_virt_macos.Text.{codes}
use mpd_virt_macos.Fs.{FilePath, Fs, Node, find, is_under, stat, mkdir_all}
use mpd_virt_macos.Fs.Laws.{SameAt, SameAt-trans, mkdir_all-SameAt, is_under_sibling, is_under_ne}
use mpd_virt_macos.Fs.Files.{rename, remove}
use mpd_virt_macos.Fs.Files.Laws.{rename_ok, rename_err, remove-SameAt}
use mpd_virt_macos.Text.Decimal.{ℤ}
use mpd_virt_macos.Paths.{cloud_images}
use mpd_virt_macos.Host.{Log, is_zero, succeeded}
use mpd_virt_macos.Machine.{
  Outside, Mac, Failure, io_failed, said, Run, pure, gets, continue, raise, io, ◌>>=◌, ◌>>◌,
  attempt, best_effort,
}
use mpd_virt_macos.Machine.Exec.{run_writing, allowed}
use mpd_virt_macos.Machine.Written.{IsWritten, run_writing-IsWritten}
use mpd_virt_macos.Backend.Cloudinit.Disk.{
  cached_archive_path, partial_path, curl_command, fetch, is_there, ensure_base_archive,
}

-- `curl -o` writes its output file, and no other.
abbrev pub WritesItsOutput : Outside → Type 0
WritesItsOutput o =
    (log : Log) (fs : Fs) (q : FilePath)
    → is_under (partial_path o.root) q ≡ false
    → SameAt q fs (o.leaves log (curl_command o) fs)

-- The command has exited with 0, and what it left beside the cache is now in the cache.
pub record Downloaded (o : Outside) (m m' : Mac) : Type 0 where
  pub before : Fs
  pub image : Node
  pub answered : succeeded (o.answer m.log (curl_command o)) ≡ true
  pub downloaded :
      find (partial_path o.root) (o.leaves m.log (curl_command o) before).nodes ≡ some image
  pub cached : find (cached_archive_path o.root) m'.files.nodes ≡ some image

-- Of a path that is returned: it is the cache, which was there, or has been downloaded whole. Of an
-- error: the cache is as it was.
abbrev pub IsFetched : Outside → Mac → Mac × Result Failure FilePath → Type 0
IsFetched o m (m', ok p) =
    (p ≡ cached_archive_path o.root)
    × (((m' ≡ m) × ((n : Node) × (stat (cached_archive_path o.root) m.files ≡ ok n)))
        ⊎ Downloaded o m m')
IsFetched o m (m', err e) = SameAt (cached_archive_path o.root) m.files m'.files

module _ (o : Outside) (honest : WritesItsOutput o) where
  partial_apart : is_under (partial_path o.root) (cached_archive_path o.root) ≡ false
  unfolding partial_path cached_archive_path
  partial_apart = is_under_sibling (cloud_images o.root) [] [] _ _ (λ e. omega (arith, ap length e))

  cache_apart : is_under (cached_archive_path o.root) (partial_path o.root) ≡ false
  unfolding partial_path cached_archive_path
  cache_apart = is_under_sibling (cloud_images o.root) [] [] _ _ (λ e. omega (arith, ap length e))

  -- What follows the download, on its exit code.
  after_curl : ℤ → Run FilePath
  after_curl code =
      (if is_zero code
        then io io_failed (rename (partial_path o.root) (cached_archive_path o.root))
        else (best_effort (io io_failed (remove (partial_path o.root)))
            >> raise (said (codes "curl failed to download"))))
      >> pure (cached_archive_path o.root)

  abbrev IsMoved : ℤ → Mac → Mac × Result Failure FilePath → Type 0
  IsMoved code m (m', ok p) =
      (p ≡ cached_archive_path o.root)
      × (is_zero code ≡ true)
      × ((n : Node) × (find (partial_path o.root) m.files.nodes ≡ some n)
          × (find (cached_archive_path o.root) m'.files.nodes ≡ some n))
  IsMoved code m (m', err e) = SameAt (cached_archive_path o.root) m.files m'.files

  after_curl-IsMoved : (code : ℤ) (m : Mac) → IsMoved code m (after_curl code m)
  unfolding after_curl ◌>>=◌ io raise pure attempt
  after_curl-IsMoved code m = elim (Bool-cases (is_zero code)) [
    | inl z ↦
        elim (Result-cases (rename (partial_path o.root) (cached_archive_path o.root) m.files).1) [
          | inl (x, e) ↦ rw (z, e) (refl, z, moved x e)
          | inr (x, e) ↦
              rw (z, e)
                (rw (rename_err (partial_path o.root) (cached_archive_path o.root) m.files e)
                  (refl, refl))
        ]
    | inr z ↦
        rw z
          (remove-SameAt (cached_archive_path o.root) (partial_path o.root) m.files partial_apart)
  ]
    where
      moved :
          (x : Unit {0})
          → (rename (partial_path o.root) (cached_archive_path o.root) m.files).1 ≡ ok x
          → (n : Node) × (find (partial_path o.root) m.files.nodes ≡ some n)
            × (find
                  (cached_archive_path o.root)
                  (rename (partial_path o.root) (cached_archive_path o.root) m.files).0.nodes
                ≡ some n)
      moved x e =
          rename_ok (partial_path o.root) (cached_archive_path o.root) m.files
            (is_under_ne (partial_path o.root) (cached_archive_path o.root) partial_apart)
            cache_apart e

  abbrev left_by_curl : Mac → Fs
  left_by_curl m = o.leaves m.log (curl_command o) m.files

  curl_allowed : allowed (curl_command o) ≡ true
  unfolding curl_command allowed list_beq
  curl_allowed = refl

  images_apart : length (cloud_images o.root) < length (cached_archive_path o.root)
  unfolding cached_archive_path
  images_apart = omega (
    arith,
    length-append (cloud_images o.root)
        (codes "debian-13-genericcloud-arm64-20260722-2547.tar.xz" ∷ []),
  )

  module _ (m : Mac) where
    made : Mac
    made = record m { files = (mkdir_all (cloud_images o.root) m.files).0 }

    made-SameAt : SameAt (cached_archive_path o.root) m.files made.files
    unfolding made
    made-SameAt =
        mkdir_all-SameAt (cached_archive_path o.root) (cloud_images o.root) m.files images_apart

    curled-SameAt : SameAt (cached_archive_path o.root) m.files (left_by_curl made)
    curled-SameAt =
        SameAt-trans m.files made.files (left_by_curl made) made-SameAt
          (honest made.log made.files (cached_archive_path o.root) partial_apart)

    moved-IsFetched :
        (code : ℤ) (m' : Mac) (done : Mac × Result Failure FilePath)
        → m'.files ≡ left_by_curl made
        → succeeded (o.answer made.log (curl_command o)) ≡ is_zero code
        → IsMoved code m' done
        → IsFetched o m done
    unfolding made
    moved-IsFetched code m' (m'', ok p) left ran (same, z, (n, at_partial, at_cache)) = (
      same,
      inr record {
        before = made.files;
        image = n;
        answered = rw ran z;
        downloaded = rw left at at_partial;
        cached = at_cache;
      },
    )
    moved-IsFetched code m' (m'', err e) left ran kept =
        SameAt-trans m.files (left_by_curl made) m''.files curled-SameAt (rw left at kept)

    run-IsFetched :
        (done : Mac × Result Failure ℤ)
        → IsWritten o (curl_command o) made done
        → IsFetched o m (continue done after_curl)
    run-IsFetched (m', ok code) (left, ran) =
        moved-IsFetched code m' (after_curl code m') left ran (after_curl-IsMoved code m')
    run-IsFetched (m', err e) left = rw left curled-SameAt

    fetch-IsFetched : IsFetched o m (fetch o m)
    unfolding fetch after_curl ◌>>=◌ io made
    fetch-IsFetched = elim (Result-cases (mkdir_all (cloud_images o.root) m.files).1) [
      | inl (x, e) ↦ rw e (
          run-IsFetched (run_writing o (curl_command o) made)
            (run_writing-IsWritten o (curl_command o) curl_allowed made))
      | inr (x, e) ↦ rw e made-SameAt
    ]

  -- If `curl -o` writes its output file alone: when `ensureBaseArchive` returns a path, it is that of
  -- the cache, and the cache was there before, or `curl` has exited with 0 and what it left beside the
  -- cache has been put in its place. When it fails, the cache is as it was: a download that breaks off
  -- is never taken for the archive.
  pub ensure_base_archive_lem : (m : Mac) → IsFetched o m (ensure_base_archive o m)
  unfolding ensure_base_archive is_there ◌>>=◌ gets pure
  ensure_base_archive_lem m = elim (Result-cases (stat (cached_archive_path o.root) m.files)) [
    | inl (n, e) ↦ rw e (refl, inl (refl, (n, e)))
    | inr (x, e) ↦ rw e (fetch-IsFetched m)
  ]
