-- ===== src/Ca/Issue.antt =====
-- What the steps of an issue leave: time passes, and files are written.
use mpd_virt_macos.Base.{
  ℕ, ◌+◌, ◌-◌, ◌*◌, ◌/◌, ◌≤◌, false, ◌==◌, nat_eq, Option, none, some, if◌then◌else◌, Result, ok,
  ◌≡◌, refl, arith,
}
use mpd_virt_macos.Text.{Text, codes}
use mpd_virt_macos.Fs.{FilePath, Fs, is_under, read_file, write_file, mkdir_all, dir_of}
use mpd_virt_macos.Fs.Laws.{
  SameAt, SameAt-trans, read_file-write_file, mkdir_all_apart, write_file-SameAt, is_under_ne,
}
use mpd_virt_macos.Machine.{
  Cert, Outside, Mac, Failure, io_failed, said, Run, pure, raise, gets, io, ◌>>=◌, draw,
}
use mpd_virt_macos.Machine.Keeps.{Keeps, keeps_rules}
use mpd_virt_macos.Machine.Outcome.{passed, io_ok}
use mpd_virt_macos.Ca.{
  day, days_left, or_failed, write_pem, write_key_pem, load_or_generate_root, generate_root,
  base_template, file_exists, load_root, root_days_left,
}

abbrev pub Later : ℕ → Mac → Type 0
Later t m = t ≤ m.now

module _ (o : Outside) (t : ℕ) where
  pub Later-io :
      {A E : Type 0} (f : E → Failure) (g : Fs → Fs × Result E A) → Keeps (Later t) (io f g)
  unfolding io
  Later-io f g = record { at = λ m h. h }

  pub Later-draw : {A : Type 0} (f : ℕ → Option A) (e : Failure) → Keeps (Later t) (draw o f e)
  unfolding draw
  Later-draw f e = record { at = λ m h. omega (arith, h) }

  pub Later-or_failed :
      {A : Type 0} (words : Text) (a : Option A) → Keeps (Later t) (or_failed words a)
  Later-or_failed words none = search keeps_rules
  Later-or_failed words (some a) = search keeps_rules

  pub Later-pem : (p : FilePath) (kind der : Text) → Keeps (Later t) (write_pem o p kind der)
  unfolding write_pem
  Later-pem p kind der = search (keeps_rules, Later-io)

  pub Later-key : (p : FilePath) (key : Text) → Keeps (Later t) (write_key_pem o p key)
  unfolding write_key_pem
  Later-key p key = search (keeps_rules, Later-or_failed, Later-pem)

  pub Later-base : (cn : Text) (days : ℕ) → Keeps (Later t) (base_template o cn days)
  unfolding base_template
  Later-base cn days = search (keeps_rules, Later-draw)

  Later-generate : Keeps (Later t) (generate_root o)
  unfolding generate_root
  Later-generate =
      search (keeps_rules, Later-draw, Later-or_failed, Later-base, Later-pem, Later-key) depth 20
        fits 4000

  pub Later-root : Keeps (Later t) (load_or_generate_root o)
  unfolding load_or_generate_root file_exists
  Later-root = search (keeps_rules, Later-generate)

  pub Later-load : Keeps (Later t) (load_root o)
  unfolding load_root
  Later-load = search (keeps_rules, Later-or_failed) depth 20 fits 4000

abbrev expired : Failure
expired = said (codes "mpd root CA has expired")

some_days :
    (q : ℕ) (m : Mac) (left : ℕ)
    → ((if q == 0 then raise expired else pure q) m).1 ≡ ok left
    → (1 ≤ left) × (q ≡ left) × (((if q == 0 then raise expired else pure q) m).0 ≡ m)
unfolding raise pure
some_days q m left h = ground arith

whole_days : (until now left : ℕ) → 1 ≤ left → (until - now) / day ≡ left → now + left * day ≤ until
whole_days until now left any e = omega (arith, any, e)

-- What is left of the root is left of it from now on, in whole days.
pub root_days_left_ok :
    (root : Cert) (m : Mac) (left : ℕ)
    → (root_days_left root m).1 ≡ ok left
    → (m.now + left * day ≤ root.not_after) × ((root_days_left root m).0 ≡ m)
unfolding root_days_left days_left gets ◌>>=◌
root_days_left_ok root m left h =
    let (any, same, kept) = some_days (days_left root.not_after m.now) m left h in
    (whole_days root.not_after m.now left any same, kept)

-- Behind a value that must be there.
pub some_ok :
    {A B : Type 0} (words : Text) (a : Option A) (f : A → Run B) (m : Mac) (b : B)
    → ((or_failed words a >>= f) m).1 ≡ ok b
    → (x : A) × (a ≡ some x) × ((or_failed words a >>= f) m ≡ f x m) × ((f x m).1 ≡ ok b)
unfolding pure raise ◌>>=◌
some_ok words none f m b h = cc
some_ok words (some a) f m b h = (a, refl, refl, h)

module _ (o : Outside) (p : FilePath) (kind der : Text) (m : Mac) where
  pub write_pem_ok :
      (write_pem o p kind der m).1 ≡ ok tt
      → read_file p (write_pem o p kind der m).0.files ≡ ok (o.crypto.encode_pem kind der)
  unfolding write_pem
  write_pem_ok h =
      let made = io io_failed (mkdir_all (dir_of p)) in
      let (_, _, same, written) =
        passed made (λ _. io io_failed (write_file p (o.crypto.encode_pem kind der))) m tt h in
      let (write_ok, after) =
        io_ok io_failed (write_file p (o.crypto.encode_pem kind der)) (made m).0 tt written in
      rw (same, after)
        (read_file-write_file p (o.crypto.encode_pem kind der) (made m).0.files write_ok)

  write_pem_apart :
      (q : FilePath)
      → is_under q p ≡ false
      → (write_pem o p kind der m).1 ≡ ok tt
      → SameAt q m.files (write_pem o p kind der m).0.files
  unfolding write_pem
  write_pem_apart q h ok_all =
      let made = io io_failed (mkdir_all (dir_of p)) in
      let (_, first, same, written) =
        passed made (λ _. io io_failed (write_file p (o.crypto.encode_pem kind der))) m tt ok_all in
      let (_, before) = io_ok io_failed (mkdir_all (dir_of p)) m tt first in
      let (_, after) =
        io_ok io_failed (write_file p (o.crypto.encode_pem kind der)) (made m).0 tt written in
      rw (same, after)
        (SameAt-trans m.files (made m).0.files
          (write_file p (o.crypto.encode_pem kind der) (made m).0.files).0
          (rw before (mkdir_all_apart q p m.files h))
          (write_file-SameAt q p (o.crypto.encode_pem kind der) (made m).0.files
            (is_under_ne q p h)))

pub write_key_pem_apart :
    (o : Outside) (p : FilePath) (key : Text) (m : Mac) (q : FilePath)
    → is_under q p ≡ false
    → (write_key_pem o p key m).1 ≡ ok tt
    → SameAt q m.files (write_key_pem o p key m).0.files
unfolding write_key_pem
write_key_pem_apart o p key m q h ok_all =
    let (der, _, same, written) =
      some_ok (codes "marshal key") (o.crypto.marshal_key key)
        (λ d. write_pem o p (codes "PRIVATE KEY") d) m tt ok_all in
    rw same (write_pem_apart o p (codes "PRIVATE KEY") der m q h written)
