-- ===== src/Backend/Cloudinit/Resized.antt =====
-- The size of the disk, and the image among the files of the archive.
use mpd_virt_macos.Base.{
  ℕ, ◌-◌, ◌*◌, ◌%◌, ◌^◌, ◌≤◌, ◌<◌, Bool, true, false, ◌||◌, ltb, [], ◌∷◌, ◌++◌, Option, some,
  nat_eq, list_eq, Result, ok, err, ◌≡◌, ◌≢◌, ◌⊎◌, inl, inr, refl, arith, Bool-cases, ltb→lt,
  append-nil, ◌==◌, ==_self, ==_eq, List,
}
use mpd_virt_macos.Text.{Text, codes, has_suffix, has_prefix, byte_len}
use mpd_virt_macos.Text.Decimal.{pos}
use mpd_virt_macos.Fs.{FilePath, file, directory, find, is_under}
use mpd_virt_macos.Fs.Files.{truncate, zeros}
use mpd_virt_macos.Fs.Files.Laws.{truncate_ok, truncate_directory, byte_len-zeros}
use mpd_virt_macos.Env.Laws.{byte_len-append}
use mpd_virt_macos.Machine.{Mac, Failure, io_failed, said, pure, raise, io, ◌>>=◌, attempt}
use mpd_virt_macos.Machine.Outcome.{io_ok}
use mpd_virt_macos.Backend.Cloudinit.Disk.{first_raw, target_bytes, resize}

abbrev pub gib : ℕ
gib = 2 ^ 30

-- From one gibibyte up to what the 64-bit arithmetic can hold.
abbrev pub IsSize : ℕ → Type 0
IsSize n = (1 ≤ n) × (n < 2 ^ 33)

pub target_bytes_lem : (n : ℕ) → IsSize n → target_bytes (pos n) ≡ pos (n * gib)
unfolding target_bytes
target_bytes_lem n h = rw (bits, product) (rw fits refl)
  where
    bits : n % 2 ^ 64 ≡ n
    bits = omega arith

    product : n * 2 ^ 30 % 2 ^ 64 ≡ n * 2 ^ 30
    product = omega arith

    fits : ltb (n * 2 ^ 30) (2 ^ 63) ≡ true
    fits = ground arith

-- The image `t`, and behind it zeros up to the size.
abbrev pub grown : ℕ → Text → Text
grown size t = t ++ zeros (size - byte_len t)

module _ (dest : FilePath) (target size : ℕ) (m : Mac) where
  abbrev Grows : Type 0
  Grows =
      (size < target) × (resize dest (pos target) size m ≡ io io_failed (truncate dest target) m)

  abbrev Stays : Type 0
  Stays = (size ≡ target) × (resize dest (pos target) size m ≡ (m, ok tt))

  -- A size that is not refused is not below the image.
  not_refused : (resize dest (pos target) size m).1 ≡ ok tt → Grows ⊎ Stays
  unfolding resize ◌>>=◌ raise attempt pure
  not_refused h = elim (Bool-cases (ltb target size)) [
    | inl e ↦ absurd (refused (rw e at h))
    | inr e ↦ elim (Bool-cases (ltb size target)) [
      | inl g ↦ inl (ltb→lt size target g, rw (e, g) refl)
      | inr g ↦ inr (ground arith, rw (e, g) refl)
    ]
  ]
    where
      refused :
          ◌≡◌ {A = Result Failure (Unit {0})}
            (err (said (codes "requested disk size is smaller than the cloud image")))
            (ok tt)
          → ⊥
      refused k = cc

  pub resized :
      (t : Text)
      → size ≡ byte_len t
      → find dest m.files.nodes ≡ some (file t)
      → (resize dest (pos target) size m).1 ≡ ok tt
      → (byte_len t ≤ target)
        × (find dest (resize dest (pos target) size m).0.files.nodes ≡ some (file (grown target t)))
  resized t e at h = elim (not_refused h) [
    | inl (l, same) ↦ (
      omega (arith, e),
      rw (same, (io_ok io_failed (truncate dest target) m tt (rw same at h)).1)
          (truncate_ok dest target m.files t at
            (io_ok io_failed (truncate dest target) m tt (rw same at h)).0),
    )
    | inr (l, same) ↦ (omega (arith, e), rw (same, nothing_more l) (rw (append-nil t) at))
  ]
    where
      nothing_more : size ≡ target → zeros (target - byte_len t) ≡ []
      nothing_more l =
          let gone : target - byte_len t ≡ 0 = omega (arith, e) in unfold zeros in rw gone refl

  pub no_directory :
      size < target
      → find dest m.files.nodes ≡ some directory
      → (resize dest (pos target) size m).1 ≢ ok tt
  no_directory l at h = elim (not_refused h) [
    | inl (_, same) ↦
        truncate_directory dest target m.files at
          (io_ok io_failed (truncate dest target) m tt (rw same at h)).0
    | inr (e, _) ↦ omega arith
  ]

abbrev pub is_raw : Text → Bool
is_raw n = has_suffix (codes ".raw") n || has_prefix (codes "disk.") n

pub first_raw_ok : (ns : List Text) (n : Text) → first_raw ns ≡ some n → is_raw n ≡ true
unfolding first_raw
first_raw_ok [] n h = cc
first_raw_ok (m ∷ ns) n h = elim (Bool-cases (is_raw m)) [
  | inl e ↦ let same : m ≡ n = some_injective (rw e at h) in rw (← same) e
  | inr e ↦ first_raw_ok ns n (rw e at h)
]
  where
    some_injective : ◌≡◌ {A = Option Text} (some m) (some n) → m ≡ n
    some_injective k = cc

-- A path right below `t` that is above `d` or is `d`: then `d` is above `t`, or is below it.
pub one_below :
    (d t : FilePath) (x : Text)
    → is_under d t ≡ false
    → is_under t d ≡ false
    → is_under d (t ++ x ∷ []) ≡ false
unfolding is_under
one_below [] t x h k = h
one_below (a ∷ d) [] x h k = cc
one_below (a ∷ d) (b ∷ t) x h k = elim (Bool-cases (a == b)) [
  | inl e ↦
      let back : (b == a) ≡ true = rw (==_eq a b e) (==_self b) in
      rw e (one_below d t x (rw e at h) (rw back at k))
  | inr e ↦ rw e refl
]

pub exact_size : (size : ℕ) (t : Text) → byte_len t ≤ size → byte_len (grown size t) ≡ size
exact_size size t h =
    omega (arith, byte_len-append t (zeros (size - byte_len t)), byte_len-zeros (size - byte_len t))
