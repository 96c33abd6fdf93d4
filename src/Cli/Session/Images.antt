-- ===== src/Cli/Session/Images.antt =====
-- The images of a new UTM box: making them keeps what the file operations keep at the paths that are
-- free for them.
use mpd_virt_macos.Base.{
  ℕ, false, List, [], ◌∷◌, ◌++◌, list_eq, nat_eq, list_beq, Option, none, some, refl, ◌≡◌, Result,
  Result-cases, inl, inr,
}
use mpd_virt_macos.Text.{Text, codes}
use mpd_virt_macos.Text.Decimal.{ℤ}
use mpd_virt_macos.Fs.{FilePath, Fs, write_file, mkdir_all, remove_all, dir_of}
use mpd_virt_macos.Fs.Files.{rename, remove, truncate}
use mpd_virt_macos.Paths.{cloud_images}
use mpd_virt_macos.Host.{Command}
use mpd_virt_macos.Machine.{Outside, Mac, Run, io_failed, io, ◌>>=◌, attempt, gets, pure}
use mpd_virt_macos.Machine.Exec.{run_writing, capture_writing, succeed_or, code_or}
use mpd_virt_macos.Machine.Keeps.{Keeps, Keeps-bind, Keeps-attempt, keeps_rules}
use mpd_virt_macos.Backend.Cloudinit.{
  write_each, make_hybrid, make_temp, make_cidata_iso, tidied, seed_files,
}
use mpd_virt_macos.Backend.Cloudinit.Disk.{
  is_there, partial_path, cached_archive_path, curl_command, fetch, ensure_base_archive,
  raw_or_fail, tar_command, resize, extract_disk, materialize_disk,
}
use mpd_virt_macos.Host.{Answer, not_launched, ended}
use mpd_virt_macos.Machine.{Failure}
use mpd_virt_macos.Cli.Session.{is_scp}

-- The file operations, at the paths that are free for them.
pub record Handles (o : Outside) (P : Mac → Type 0) (Free : FilePath → Type 0) : Type 1 where
  pub writing : (c : Command) → is_scp c ≡ false → Keeps P (capture_writing o c)
  pub made : (p : FilePath) → Free p → Keeps P (io io_failed (mkdir_all p))
  pub made_above : (p : FilePath) → Free p → Keeps P (io io_failed (mkdir_all (dir_of p)))
  pub written : (p : FilePath) (t : Text) → Free p → Keeps P (io io_failed (write_file p t))
  pub removed : (p : FilePath) → Free p → Keeps P (io io_failed (remove p))
  pub cleared : (p : FilePath) → Free p → Keeps P (io io_failed (remove_all p))
  pub resized : (p : FilePath) (n : ℕ) → Free p → Keeps P (io io_failed (truncate p n))
  pub moved : (p q : FilePath) → Free p → Free q → Keeps P (io io_failed (rename p q))
  pub deeper : (p r : FilePath) → Free p → Free (p ++ r)
  pub cached : Free (cloud_images o.root)
  pub temporary : (fs : Fs) → Free (o.temp_dir fs)

module _ (o : Outside) {P : Mac → Type 0} {Free : FilePath → Type 0} (h : Handles o P Free) where
  Keeps-curl : (args : Command) → Keeps P (capture_writing o (codes "curl" ∷ args))
  unfolding list_beq
  Keeps-curl args = h.writing (codes "curl" ∷ args) refl

  Keeps-tar : (args : Command) → Keeps P (capture_writing o (codes "tar" ∷ args))
  unfolding list_beq
  Keeps-tar args = h.writing (codes "tar" ∷ args) refl

  Keeps-hdiutil : (args : Command) → Keeps P (capture_writing o (codes "hdiutil" ∷ args))
  unfolding list_beq
  Keeps-hdiutil args = h.writing (codes "hdiutil" ∷ args) refl

  Keeps-succeed_or : (e : Failure) (a : Answer) → Keeps P (succeed_or e a)
  unfolding succeed_or
  Keeps-succeed_or e (not_launched t) = search keeps_rules
  Keeps-succeed_or e (ended r) = search keeps_rules

  Keeps-code_or : (a : Answer) → Keeps P (code_or a)
  Keeps-code_or (not_launched t) = search keeps_rules
  Keeps-code_or (ended r) = search keeps_rules

  Keeps-made_above : (p : FilePath) → Free p → Keeps P (io io_failed (mkdir_all (dir_of p)))
  Keeps-made_above = h.made_above

  Keeps-removed : (p : FilePath) → Free p → Keeps P (io io_failed (remove p))
  Keeps-removed = h.removed

  Keeps-cleared : (p : FilePath) → Free p → Keeps P (io io_failed (remove_all p))
  Keeps-cleared = h.cleared

  Keeps-resized : (p : FilePath) (n : ℕ) → Free p → Keeps P (io io_failed (truncate p n))
  Keeps-resized = h.resized

  Keeps-in_cache : Keeps P (io io_failed (mkdir_all (cloud_images o.root)))
  Keeps-in_cache = h.made _ h.cached

  Keeps-moved_in :
      Keeps P (io io_failed (rename (partial_path o.root) (cached_archive_path o.root)))
  unfolding partial_path cached_archive_path
  Keeps-moved_in = h.moved _ _ (h.deeper _ _ h.cached) (h.deeper _ _ h.cached)

  Keeps-partial_gone : Keeps P (io io_failed (remove (partial_path o.root)))
  unfolding partial_path
  Keeps-partial_gone = h.removed _ (h.deeper _ _ h.cached)

  Keeps-fetch : Keeps P (fetch o)
  unfolding fetch run_writing curl_command
  Keeps-fetch =
      search
        (keeps_rules, Keeps-curl, Keeps-code_or, Keeps-in_cache, Keeps-moved_in, Keeps-partial_gone)
        depth 20 fits 4000

  Keeps-ensure_base_archive : Keeps P (ensure_base_archive o)
  unfolding ensure_base_archive
  Keeps-ensure_base_archive = search (keeps_rules, Keeps-fetch)

  Keeps-raw : (n : Option Text) → Keeps P (raw_or_fail n)
  Keeps-raw none = search keeps_rules
  Keeps-raw (some n) = search keeps_rules

  -- A new temporary directory is free.
  Keeps-in_temp :
      {A : Type 0} (k : FilePath → Run A)
      → ((p : FilePath) → Free p → Keeps P (k p))
      → Keeps P (make_temp o >>= k)
  unfolding make_temp ◌>>=◌ io gets pure
  Keeps-in_temp k rest = record {
    at = λ m at_m.
        let made : P (io io_failed (mkdir_all (o.temp_dir m.files)) m).0 =
          (h.made _ (h.temporary m.files)).at m at_m in
        elim (Result-cases (mkdir_all (o.temp_dir m.files) m.files).1) [
          | inl (x, e) ↦ rw e ((rest _ (h.temporary m.files)).at _ made)
          | inr (x, e) ↦ rw e made
        ];
  }

  Keeps-tidied : (p : FilePath) (r : Result Failure (Unit {0})) → Free p → Keeps P (tidied p r)
  Keeps-tidied p r f = search (keeps_rules, Keeps-cleared)

  Keeps-resize : (p : FilePath) (t : ℤ) (n : ℕ) → Free p → Keeps P (resize p t n)
  unfolding resize
  Keeps-resize p t n f = search (keeps_rules, Keeps-removed, Keeps-resized) depth 10

  -- Whatever the name of the image that was extracted, it may be moved.
  Keeps-image_moved :
      (tmp dest : FilePath) (raw : Text)
      → Free tmp
      → Free dest
      → Keeps P (io io_failed (rename (tmp ++ raw ∷ []) dest))
  Keeps-image_moved tmp dest raw ft fd = h.moved _ _ (h.deeper _ _ ft) fd

  Keeps-extract_disk :
      (archive tmp dest : FilePath) (gib : ℤ)
      → Free tmp
      → Free dest
      → Keeps P (extract_disk o archive tmp dest gib)
  unfolding extract_disk run_writing tar_command
  Keeps-extract_disk archive tmp dest gib ft fd =
      search (keeps_rules, Keeps-tar, Keeps-code_or, Keeps-raw, Keeps-image_moved, Keeps-resize)
        depth 20 fits 4000

  Keeps-in_place :
      (archive dest : FilePath) (gib : ℤ)
      → Free dest
      → Keeps P (make_temp o >>= λ tmp. attempt (extract_disk o archive tmp dest gib) (tidied tmp))
  Keeps-in_place archive dest gib f =
      Keeps-in_temp (λ tmp. attempt (extract_disk o archive tmp dest gib) (tidied tmp))
        (λ tmp ft.
          Keeps-attempt _ _ (Keeps-extract_disk archive tmp dest gib ft f)
            (λ r. Keeps-tidied tmp r ft))

  pub Keeps-materialize_disk :
      (dest : FilePath) (gib : ℤ) → Free dest → Keeps P (materialize_disk o dest gib)
  unfolding materialize_disk is_there
  Keeps-materialize_disk dest gib f =
      search (Keeps-in_place, keeps_rules, Keeps-ensure_base_archive, Keeps-made_above) depth 20
        fits 4000

  Keeps-write_each :
      (dir : FilePath) (fs : List (Text × Text)) → Free dir → Keeps P (write_each dir fs)
  unfolding write_each
  Keeps-write_each dir [] f = search keeps_rules
  Keeps-write_each dir ((n, body) ∷ fs) f =
      Keeps-bind (io io_failed (write_file (dir ++ n ∷ []) body)) (λ u. write_each dir fs)
        (h.written _ body (h.deeper _ _ f)) (λ u. Keeps-write_each dir fs f)

  Keeps-make_hybrid :
      (work output : FilePath) (fs : List (Text × Text))
      → Free work
      → Free output
      → Keeps P (make_hybrid o work output fs)
  unfolding make_hybrid
  Keeps-make_hybrid work output fs fw f =
      search
        (
          keeps_rules, Keeps-hdiutil, Keeps-write_each, Keeps-made_above, Keeps-removed,
          Keeps-succeed_or,
        )
        depth 20 fits 4000

  pub Keeps-make_cidata_iso :
      (output : FilePath) (user key host config : Text)
      → Free output
      → Keeps P (make_cidata_iso o output user key host config)
  unfolding make_cidata_iso
  Keeps-make_cidata_iso output user key host config f =
      Keeps-in_temp
        (λ work.
          attempt (make_hybrid o work output (seed_files user key host config)) (tidied work))
        (λ work fw.
          Keeps-attempt _ _ (Keeps-make_hybrid work output (seed_files user key host config) fw f)
            (λ r. Keeps-tidied work r fw))
