-- ===== src/Sshconfig/File.antt =====
-- `Write`, `Strip` and `Contains` on the file.
use mpd_virt_macos.Base.{
  ℕ, true, false, [], ◌==◌, list_eq, nat_eq, ==_eq, ◌≡◌, ◌≢◌, ◌∙◌, sym, subst, refl, ap, Bool-cases,
  inl, inr, Result, Result-cases, ok, err,
}
use mpd_virt_macos.Text.{Text, contains}
use mpd_virt_macos.Fs.{
  FilePath, Fs, IoError, not_exist, failed, read_file, write_file, mkdir_all, dir_of, Io, reads,
  ◌>>=◌,
}
use mpd_virt_macos.Fs.Laws.{
  >>_ok, read_file-write_file, read_file-SameAt, stat-read_file, dir_of_shorter, mkdir_all-SameAt,
}
use mpd_virt_macos.Vmid.Bounds.{IsBoxId}
use mpd_virt_macos.Sshconfig.{
  begin_marker, strip_block, rewrite, ensure_file, write, strip, contains_block, holds_block,
  stripped,
}
use mpd_virt_macos.Sshconfig.Kept.{contains-strip_block}
use mpd_virt_macos.Sshconfig.Rewrite.{IsPlain, contains-rewrite, rewrite_twice}

-- For a box id from 1 to 254, a successful `Strip` leaves no block of the box, whatever the file
-- held, and whether or not there is a file.
pub contains_block-strip :
    (path : FilePath) (id : ℕ) (fs : Fs)
    → IsBoxId id
    → (strip path id fs).1 ≡ ok tt
    → contains_block path id (strip path id fs).0 ≡ false
unfolding strip contains_block
contains_block-strip path id fs b h = by_text (read_file path fs) refl h
  where
    by_text :
        (r : Result IoError Text)
        → read_file path fs ≡ r
        → (stripped path id r fs).1 ≡ ok tt
        → holds_block id (read_file path (stripped path id r fs).0) ≡ false
    by_text (err not_exist) e k = rw e
    by_text (err failed) e k = cc
    by_text (ok current) e k = elim (Bool-cases (strip_block current id == current)) [
      | inl same ↦ rw same (
          rw e (
            subst (λ t. contains (begin_marker id) t ≡ false) (==_eq _ _ same)
              (contains-strip_block id b current)))
      | inr other ↦
          rw
            (
              other,
              read_file-write_file path (strip_block current id) fs (rw (other, stripped) at k),
            )
            (contains-strip_block id b current)
    ]

-- The file is there already, or it is created; a text that is there stays.
ensure_file-SameAt :
    (path : FilePath) (fs : Fs) (t : Text)
    → path ≢ []
    → read_file path fs ≡ ok t
    → read_file path (ensure_file path fs).0 ≡ ok t
ensure_file-SameAt path fs t ne h = elim (Result-cases (mkdir_all (dir_of path) fs).1) [
  | inl (x, e) ↦
      unfold ensure_file in rw (e, stat-read_file path (mkdir_all (dir_of path) fs).0 t still) still
  | inr (x, e) ↦ unfold ensure_file in rw e still
]
  where
    still : read_file path (mkdir_all (dir_of path) fs).0 ≡ ok t
    still =
        read_file-SameAt path fs (mkdir_all (dir_of path) fs).0 t
          (mkdir_all-SameAt path (dir_of path) fs (dir_of_shorter path ne)) h

module _ (path : FilePath) (id : ℕ) (ip user : Text) (fs : Fs) where
  -- The text that `Write` reads, once the file is there.
  write_steps :
      (write path id ip user fs).1 ≡ ok tt
      → (current : Text) × (read_file path (ensure_file path fs).0 ≡ ok current)
        × (write path id ip user fs
            ≡ write_file path (rewrite current id ip user) (ensure_file path fs).0)
  unfolding write
  write_steps h =
      let (step, _, later) = >>_ok (ensure_file path) replace fs h in
      elim (Result-cases (read_file path (ensure_file path fs).0)) [
        | inl (current, found) ↦ (current, found, step ∙ rw found)
        | inr (e, lost) ↦ absurd (never e (rw lost at later))
      ]
    where
      replace : Io IoError (Unit {0})
      replace = reads (read_file path) >>= λ current. write_file path (rewrite current id ip user)

      never : (e : IoError) → ◌≡◌ {A = Result IoError (Unit {0})} (err e) (ok tt) → ⊥
      never e k = cc

  -- A successful `Write` puts the new text in place of the text of the file, and the block is there.
  pub write_lem :
      (write path id ip user fs).1 ≡ ok tt
      → (current : Text) × (read_file path (ensure_file path fs).0 ≡ ok current)
        × (read_file path (write path id ip user fs).0 ≡ ok (rewrite current id ip user))
        × (contains_block path id (write path id ip user fs).0 ≡ true)
  write_lem h =
      let (current, found, same) = write_steps h in
      let back : read_file path (write path id ip user fs).0 ≡ ok (rewrite current id ip user) =
        rw same (read_file-write_file path (rewrite current id ip user) _ (rw same at h)) in
      (current, found, back, unfold contains_block in rw back (contains-rewrite current id ip user))

-- For a box id from 1 to 254, a path that is not empty, and values without a newline or a `<`:
-- after two successful writes the file holds what the second write alone makes of the text that
-- was there.
pub write_twice :
    (path : FilePath) (id : ℕ) (ip user ip' user' : Text) (fs : Fs)
    → path ≢ []
    → IsBoxId id
    → IsPlain ip
    → IsPlain user
    → (write path id ip user fs).1 ≡ ok tt
    → (write path id ip' user' (write path id ip user fs).0).1 ≡ ok tt
    → (current : Text) × (read_file path (ensure_file path fs).0 ≡ ok current)
      × (read_file path (write path id ip' user' (write path id ip user fs).0).0
          ≡ ok (rewrite current id ip' user'))
write_twice path id ip user ip' user' fs ne b hip huser h k =
    let (current, found, first, _) = write_lem path id ip user fs h in
    let (again, found', second, _) = write_lem path id ip' user' (write path id ip user fs).0 k in
    let kept =
      ensure_file-SameAt path (write path id ip user fs).0 (rewrite current id ip user) ne first in
    let same : again ≡ rewrite current id ip user = ok-injective (sym found' ∙ kept) in
    (
      current,
      found,
      second ∙ ap ok (rw same (rewrite_twice id b ip user hip huser current ip' user')),
    )
  where
    ok-injective : {s t : Text} → ◌≡◌ {A = Result IoError Text} (ok s) (ok t) → s ≡ t
    ok-injective e = cc
