-- ===== src/Sshconfig/Tidy.antt =====
-- Collapsing blank lines and dropping the trailing ones: what is left alone.
use mpd_virt_macos.Base.{
  Bool, true, false, ◌&&◌, List, [], ◌∷◌, ◌++◌, if◌then◌else◌, ◌≡◌, ◌∙◌, refl, ap, All, Bool-cases,
  inl, inr,
}
use mpd_virt_macos.Text.{Text}
use mpd_virt_macos.Sshconfig.{is_blank, collapse, keep_line, drop_blanks}

-- No blank line follows a blank line.
abbrev IsSpaced : Bool → List Text → Type 0
IsSpaced after_blank [] = Unit
IsSpaced after_blank (l ∷ ls) = ((is_blank l && after_blank) ≡ false) × IsSpaced (is_blank l) ls

collapse-IsSpaced : (b : Bool) (ls : List Text) → IsSpaced b (collapse b ls)
unfolding collapse
collapse-IsSpaced b [] = tt
collapse-IsSpaced b (l ∷ ls) = elim (Bool-cases (is_blank l && b)) [
  | inl e ↦ rw (e, collapse) (collapse-IsSpaced b ls)
  | inr e ↦ rw (e, collapse) (e, collapse-IsSpaced (is_blank l) ls)
]

keep_line-IsSpaced :
    (b : Bool) (l : Text) (ls : List Text)
    → (is_blank l && b) ≡ false
    → IsSpaced (is_blank l) ls
    → IsSpaced b (keep_line l ls)
keep_line-IsSpaced b [] [] h k = tt
keep_line-IsSpaced b (c ∷ l) [] h k = (h, tt)
keep_line-IsSpaced b l (m ∷ ls) h k = (h, k)

drop_blanks-IsSpaced : (b : Bool) (ls : List Text) → IsSpaced b ls → IsSpaced b (drop_blanks ls)
unfolding drop_blanks
drop_blanks-IsSpaced b [] h = tt
drop_blanks-IsSpaced b (l ∷ ls) h =
    keep_line-IsSpaced b l (drop_blanks ls) h.0 (drop_blanks-IsSpaced (is_blank l) ls h.1)

drop_blanks-keep_line :
    (l : Text) (ls : List Text)
    → drop_blanks ls ≡ ls
    → drop_blanks (keep_line l ls) ≡ keep_line l ls
unfolding drop_blanks
drop_blanks-keep_line [] [] h = refl
drop_blanks-keep_line (c ∷ l) [] h = refl
drop_blanks-keep_line l (m ∷ ls) h = rw h

drop_blanks_idem : (ls : List Text) → drop_blanks (drop_blanks ls) ≡ drop_blanks ls
unfolding drop_blanks
drop_blanks_idem [] = refl
drop_blanks_idem (l ∷ ls) = drop_blanks-keep_line l (drop_blanks ls) (drop_blanks_idem ls)

AllBlank : List Text → Type 0
AllBlank = All (λ l. is_blank l ≡ true)

collapse-AllBlank : (b : Bool) (ls : List Text) → AllBlank ls → drop_blanks (collapse b ls) ≡ []
unfolding collapse drop_blanks AllBlank
collapse-AllBlank b [] h = refl
collapse-AllBlank true ([] ∷ ls) h = collapse-AllBlank true ls h.1
collapse-AllBlank false ([] ∷ ls) h = rw (collapse-AllBlank true ls h.1)
collapse-AllBlank b ((c ∷ l) ∷ ls) h = cc

collapse_blanks :
    (b : Bool) (ls blanks : List Text)
    → IsSpaced b ls
    → AllBlank blanks
    → drop_blanks (collapse b (ls ++ blanks)) ≡ drop_blanks ls
unfolding collapse drop_blanks
collapse_blanks b [] blanks h k = collapse-AllBlank b blanks k
collapse_blanks b (l ∷ ls) blanks h k =
    rw (h.0, collapse) (ap (keep_line l) (collapse_blanks (is_blank l) ls blanks h.1 k))

abbrev pub tidy : List Text → List Text
tidy ls = drop_blanks (collapse false ls)

-- Lines that are tidy already come back, whatever blank lines follow them.
pub tidy-append_blanks :
    (ls blanks : List Text)
    → All (λ l. is_blank l ≡ true) blanks
    → tidy (tidy ls ++ blanks) ≡ tidy ls
unfolding AllBlank
tidy-append_blanks ls blanks h =
    collapse_blanks false (tidy ls) blanks
      (drop_blanks-IsSpaced false (collapse false ls) (collapse-IsSpaced false ls)) h
    ∙ drop_blanks_idem (collapse false ls)

-- What holds of every line holds of the lines that stay.
module _ {κ} (P : Text → Type κ) where
  collapse-All : (b : Bool) (ls : List Text) → All P ls → All P (collapse b ls)
  unfolding collapse
  collapse-All b [] h = tt
  collapse-All b (l ∷ ls) h = elim (Bool-cases (is_blank l && b)) [
    | inl e ↦ rw (e, collapse) (collapse-All b ls h.1)
    | inr e ↦ rw (e, collapse) (h.0, collapse-All (is_blank l) ls h.1)
  ]

  keep_line-All : (l : Text) (ls : List Text) → P l → All P ls → All P (keep_line l ls)
  keep_line-All [] [] p h = tt
  keep_line-All (c ∷ l) [] p h = (p, tt)
  keep_line-All l (m ∷ ls) p h = (p, h)

  drop_blanks-All : (ls : List Text) → All P ls → All P (drop_blanks ls)
  unfolding drop_blanks
  drop_blanks-All [] h = tt
  drop_blanks-All (l ∷ ls) h = keep_line-All l (drop_blanks ls) h.0 (drop_blanks-All ls h.1)

  pub tidy-All : (ls : List Text) → All P ls → All P (tidy ls)
  tidy-All ls h = drop_blanks-All (collapse false ls) (collapse-All false ls h)

-- The lines that are not blank.
abbrev pub solid_lines : List Text → List Text
solid_lines [] = []
solid_lines (l ∷ ls) = if is_blank l then solid_lines ls else l ∷ solid_lines ls

solid_lines-collapse : (b : Bool) (ls : List Text) → solid_lines (collapse b ls) ≡ solid_lines ls
unfolding collapse
solid_lines-collapse b [] = refl
solid_lines-collapse true ([] ∷ ls) = solid_lines-collapse true ls
solid_lines-collapse false ([] ∷ ls) = solid_lines-collapse true ls
solid_lines-collapse b ((c ∷ l) ∷ ls) = rw (solid_lines-collapse false ls)

solid_lines-keep_line :
    (l : Text) (ls : List Text) → solid_lines (keep_line l ls) ≡ solid_lines (l ∷ ls)
solid_lines-keep_line [] [] = refl
solid_lines-keep_line (c ∷ l) [] = refl
solid_lines-keep_line l (m ∷ ls) = refl

solid_lines-drop_blanks : (ls : List Text) → solid_lines (drop_blanks ls) ≡ solid_lines ls
unfolding drop_blanks
solid_lines-drop_blanks [] = refl
solid_lines-drop_blanks (l ∷ ls) =
    solid_lines-keep_line l (drop_blanks ls) ∙ rw (solid_lines-drop_blanks ls)

-- Only blank lines go.
pub solid_lines-tidy : (ls : List Text) → solid_lines (tidy ls) ≡ solid_lines ls
solid_lines-tidy ls = solid_lines-drop_blanks (collapse false ls) ∙ solid_lines-collapse false ls
