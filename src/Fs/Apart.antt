-- ===== src/Fs/Apart.antt =====
-- Paths of which neither is above the other: what is done at the one leaves the other as it is.
use mpd_virt_macos.Base.{
  ℕ, true, false, [], ◌∷◌, ◌++◌, ◌==◌, nat_eq, list_eq, ==_self, ==_eq, ◌≡◌, ◌≢◌, refl, sym, arith,
  Bool-cases, inl, inr,
}
use mpd_virt_macos.Text.{Text}
use mpd_virt_macos.Fs.{FilePath, Fs, is_under, mkdir_all, write_file, remove_all, dir_of}
use mpd_virt_macos.Fs.Files.{remove, truncate}
use mpd_virt_macos.Fs.Laws.{
  SameAt, is_under_sibling, is_under_ne, find-put_dirs_apart, mkdir_all_apart, write_file-SameAt,
  remove_all-SameAt,
}
use mpd_virt_macos.Fs.Files.Laws.{remove-SameAt, truncate-SameAt}

abbrev pub Apart : FilePath → FilePath → Type 0
Apart p q = (is_under p q ≡ false) × (is_under q p ≡ false)

pub is_under_deeper : (p r q : FilePath) → is_under p q ≡ false → is_under (p ++ r) q ≡ false
unfolding is_under
is_under_deeper [] r q h = absurd (never h)
  where
    never : true ≡ false → ⊥
    never e = cc
is_under_deeper (a ∷ p) r [] h = refl
is_under_deeper (a ∷ p) r (b ∷ q) h = ground (arith, is_under_deeper p r q)

is_under_longer : (p q r : FilePath) → Apart p q → is_under p (q ++ r) ≡ false
unfolding is_under
is_under_longer [] q r (h, k) = absurd (never h)
  where
    never : true ≡ false → ⊥
    never e = cc
is_under_longer (a ∷ p) [] r (h, k) = absurd (never k)
  where
    never : true ≡ false → ⊥
    never e = cc
is_under_longer (a ∷ p) (b ∷ q) r (h, k) = elim (Bool-cases (a == b)) [
  | inl e ↦
      let same : a ≡ b = ==_eq a b e in
      rw e (is_under_longer p q r (rw e at h, rw (sym same, ==_self a) at k))
  | inr e ↦ rw e refl
]

pub Apart-deep : (p q r : FilePath) → Apart p q → Apart (p ++ r) q
Apart-deep p q r (h, k) = (is_under_deeper p r q h, is_under_longer q p r (k, h))

pub Apart-inside : (p q s : FilePath) → Apart p q → Apart p (q ++ s)
Apart-inside p q s (h, k) = (is_under_longer p q s (h, k), is_under_deeper q s p k)

pub Apart-sibling : (r p q : FilePath) (a b : Text) → a ≢ b → Apart (r ++ a ∷ p) (r ++ b ∷ q)
Apart-sibling r p q a b h =
    (is_under_sibling r p q a b h, is_under_sibling r q p b a (λ e. h (sym e)))

-- The file `q`, and each operation at a path `p` that is apart from it.
module _ (p q : FilePath) (a : Apart p q) (fs : Fs) where
  elsewhere : q ≢ p
  elsewhere = is_under_ne q p a.1

  pub made_apart : SameAt q fs (mkdir_all p fs).0
  unfolding mkdir_all
  made_apart = ground (arith, find-put_dirs_apart q [] p fs.nodes a.1)

  pub made_above_apart : SameAt q fs (mkdir_all (dir_of p) fs).0
  made_above_apart = mkdir_all_apart q p fs a.1

  pub written_apart : (t : Text) → SameAt q fs (write_file p t fs).0
  written_apart t = write_file-SameAt q p t fs elsewhere

  pub cleared_apart : SameAt q fs (remove_all p fs).0
  cleared_apart = remove_all-SameAt q p fs a.0

  pub removed_apart : SameAt q fs (remove p fs).0
  removed_apart = remove-SameAt q p fs a.0

  pub resized_apart : (n : ℕ) → SameAt q fs (truncate p n fs).0
  resized_apart n = truncate-SameAt q p n fs elsewhere
