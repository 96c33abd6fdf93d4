-- ===== src/Sshconfig/Apart.antt =====
-- `Write` on the other files.
use mpd_virt_macos.Base.{ℕ, false, ◌≡◌, ◌≢◌, refl, ok, err, [], Result, Result-cases, inl, inr}
use mpd_virt_macos.Text.{Text}
use mpd_virt_macos.Fs.{
  FilePath, Fs, IoError, not_exist, failed, Node, is_under, stat, read_file, write_file, mkdir_all,
  dir_of, reads, ◌>>=◌,
}
use mpd_virt_macos.Fs.Laws.{SameAt, >>-SameAt, is_under_ne, mkdir_all_apart, write_file-SameAt}
use mpd_virt_macos.Sshconfig.{rewrite, ensure_file, created, write}

module _ (q path : FilePath) (h : is_under q path ≡ false) where
  elsewhere : q ≢ path
  elsewhere = is_under_ne q path h

  created-SameAt : (r : Result IoError Node) (fs : Fs) → SameAt q fs (created path r fs).0
  created-SameAt (err not_exist) fs = write_file-SameAt q path [] fs elsewhere
  created-SameAt (err failed) fs = (refl, refl)
  created-SameAt (ok n) fs = (refl, refl)

  ensure_file-SameAt : (fs : Fs) → SameAt q fs (ensure_file path fs).0
  unfolding ensure_file
  ensure_file-SameAt fs =
      >>-SameAt (mkdir_all (dir_of path)) (λ s. created path (stat path s) s) fs q
        (mkdir_all_apart q path fs h)
        (created-SameAt (stat path (mkdir_all (dir_of path) fs).0) (mkdir_all (dir_of path) fs).0)

  replaced-SameAt :
      (id : ℕ) (ip user : Text) (fs : Fs)
      → SameAt q fs
          ((reads (read_file path) >>= λ current. write_file path (rewrite current id ip user))
            fs).0
  replaced-SameAt id ip user fs = elim (Result-cases (read_file path fs)) [
    | inl (t, e) ↦ rw e (write_file-SameAt q path (rewrite t id ip user) fs elsewhere)
    | inr (x, e) ↦ rw e (refl, refl)
  ]

  -- `Write`, whether it succeeds or not, changes nothing but at the file and at what is above it.
  pub write_apart : (id : ℕ) (ip user : Text) (fs : Fs) → SameAt q fs (write path id ip user fs).0
  unfolding write
  write_apart id ip user fs =
      >>-SameAt (ensure_file path)
        (reads (read_file path) >>= λ current. write_file path (rewrite current id ip user)) fs q
        (ensure_file-SameAt fs) (replaced-SameAt id ip user (ensure_file path fs).0)
