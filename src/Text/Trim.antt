-- ===== src/Text/Trim.antt =====
-- Laws of `strings.TrimSpace`.
use mpd_virt_macos.Base.{
  ℕ, true, false, [], ◌∷◌, ◌++◌, ◌≡◌, ◌≢◌, refl, arith, All, append-nil, ap, ◌∙◌,
}
use mpd_virt_macos.Text.{Text, is_space, keep, trim_left, trim_right, trim_space}

keep-ne : (c : ℕ) (s : Text) → s ≢ [] → keep c s ≡ c ∷ s
keep-ne c [] h = absurd (h refl)
keep-ne c (d ∷ s) h = refl

pub append-ne-nil : (a b : Text) → b ≢ [] → a ++ b ≢ []
append-ne-nil [] b h = h
append-ne-nil (c ∷ a) b h = λ e. cc

pub trim_right-append : (a b : Text) → trim_right b ≢ [] → trim_right (a ++ b) ≡ a ++ trim_right b
unfolding trim_right
trim_right-append [] b h = refl
trim_right-append (c ∷ a) b h =
    rw (trim_right-append a b h) (keep-ne c (a ++ trim_right b) (append-ne-nil a (trim_right b) h))

pub trim_right_space :
    (a : Text) (c : ℕ) → is_space c ≡ true → trim_right (a ++ c ∷ []) ≡ trim_right a
unfolding trim_right
trim_right_space [] c h = ground arith
trim_right_space (d ∷ a) c h = rw (trim_right_space a c h)

trim_right-keep : (c : ℕ) (u : Text) → trim_right u ≡ u → trim_right (keep c u) ≡ keep c u
unfolding trim_right
trim_right-keep c [] h = ground arith
trim_right-keep c (d ∷ u) h = rw h

pub trim_right_idem : (s : Text) → trim_right (trim_right s) ≡ trim_right s
unfolding trim_right
trim_right_idem [] = refl
trim_right_idem (c ∷ s) = trim_right-keep c (trim_right s) (trim_right_idem s)

-- A text with no white space at either end: trimming changes nothing.
abbrev pub IsTrimmed : Text → Type 0
IsTrimmed s = trim_space s ≡ s

pub IsTrimmed-trim_right : (s : Text) → IsTrimmed s → trim_right s ≡ s
unfolding trim_space
IsTrimmed-trim_right s h = rw (← h) (trim_right_idem (trim_left s))

keep_solid : (c : ℕ) (s : Text) → is_space c ≡ false → keep c s ≡ c ∷ s
keep_solid c [] h = rw h
keep_solid c (d ∷ s) h = refl

pub trim_space-cons :
    (c : ℕ) (s : Text) → is_space c ≡ false → trim_space (c ∷ s) ≡ c ∷ trim_right s
unfolding trim_space trim_left trim_right
trim_space-cons c s h = rw h (keep_solid c (trim_right s) h)

-- A text with no white space at all.
abbrev pub IsSolid : Text → Type 0
IsSolid = All (λ c. is_space c ≡ false)

pub trim_right-IsSolid : (s : Text) → IsSolid s → trim_right s ≡ s
unfolding trim_right
trim_right-IsSolid [] h = refl
trim_right-IsSolid (c ∷ s) h = rw (trim_right-IsSolid s h.1) (keep_solid c s h.0)

pub IsSolid-IsTrimmed : (s : Text) → IsSolid s → IsTrimmed s
IsSolid-IsTrimmed [] h = unfold trim_space trim_left trim_right in refl
IsSolid-IsTrimmed (c ∷ s) h = trim_space-cons c s h.0 ∙ ap (◌∷◌ c) (trim_right-IsSolid s h.1)

-- A text that begins and ends with no white space, given in two parts.
pub IsTrimmed-append :
    (c : ℕ) (a b : Text)
    → is_space c ≡ false
    → trim_right a ≡ a
    → trim_right b ≡ b
    → IsTrimmed (c ∷ (a ++ b))
IsTrimmed-append c a [] h ha hb = trim_space-cons c (a ++ []) h ∙ rw append-nil (ap (◌∷◌ c) ha)
IsTrimmed-append c a (d ∷ b) h ha hb =
    trim_space-cons c (a ++ d ∷ b) h ∙ rw (trim_right-append a (d ∷ b) (λ e. cc)) (rw hb)
