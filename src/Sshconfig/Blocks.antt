-- ===== src/Sshconfig/Blocks.antt =====
-- The loop that drops a box's block: what it drops, and what it keeps.
use mpd_virt_macos.Base.{
  ℕ, Bool, true, false, List, [], ◌∷◌, ◌++◌, ◌≡◌, ◌≢◌, refl, ap, All, All-append, Bool-cases, inl,
  inr, Lacks, append-nil,
}
use mpd_virt_macos.Text.{Text, codes, contains}
use mpd_virt_macos.Text.Search.{Lacks-test, contains-append}
use mpd_virt_macos.Vmid.{name}
use mpd_virt_macos.Vmid.Bounds.{IsBoxId, name-IsStorable}
use mpd_virt_macos.Sshconfig.{begin_marker, end_marker, outside_lines}

module _ (id : ℕ) where
  -- No line that the loop keeps holds the box's begin marker.
  pub outside_lines_clean :
      (inside : Bool) (ls : List Text)
      → All (λ l. contains (begin_marker id) l ≡ false) (outside_lines id inside ls)
  unfolding outside_lines
  outside_lines_clean true [] = tt
  outside_lines_clean false [] = tt
  outside_lines_clean false (l ∷ ls) = elim (Bool-cases (contains (begin_marker id) l)) [
    | inl e ↦ rw (e, outside_lines) (outside_lines_clean true ls)
    | inr e ↦ rw (e, outside_lines) (e, outside_lines_clean false ls)
  ]
  outside_lines_clean true (l ∷ ls) = elim (Bool-cases (contains (end_marker id) l)) [
    | inl e ↦ rw (e, outside_lines) (outside_lines_clean false ls)
    | inr e ↦ rw (e, outside_lines) (outside_lines_clean true ls)
  ]

  -- A property of all lines is a property of the lines that are kept.
  pub outside_lines-All :
      (P : Text → Type 0) (inside : Bool) (ls : List Text)
      → All P ls
      → All P (outside_lines id inside ls)
  unfolding outside_lines
  outside_lines-All P true [] h = tt
  outside_lines-All P false [] h = tt
  outside_lines-All P false (l ∷ ls) h = elim (Bool-cases (contains (begin_marker id) l)) [
    | inl e ↦ rw (e, outside_lines) (outside_lines-All P true ls h.1)
    | inr e ↦ rw (e, outside_lines) (h.0, outside_lines-All P false ls h.1)
  ]
  outside_lines-All P true (l ∷ ls) h = elim (Bool-cases (contains (end_marker id) l)) [
    | inl e ↦ rw (e, outside_lines) (outside_lines-All P false ls h.1)
    | inr e ↦ rw (e, outside_lines) (outside_lines-All P true ls h.1)
  ]

  -- Lines that hold no begin marker are kept.
  pub outside_lines-append :
      (ls ms : List Text)
      → All (λ l. contains (begin_marker id) l ≡ false) ls
      → outside_lines id false (ls ++ ms) ≡ ls ++ outside_lines id false ms
  unfolding outside_lines
  outside_lines-append [] ms h = refl
  outside_lines-append (l ∷ ls) ms h =
      rw (h.0, outside_lines) (ap (◌∷◌ l) (outside_lines-append ls ms h.1))

  outside_lines_inside :
      (body : List Text) (last : Text) (rest : List Text)
      → All (λ l. contains (end_marker id) l ≡ false) body
      → contains (end_marker id) last ≡ true
      → outside_lines id true (body ++ last ∷ rest) ≡ outside_lines id false rest
  unfolding outside_lines
  outside_lines_inside [] last rest h k = rw (k, outside_lines)
  outside_lines_inside (l ∷ body) last rest h k =
      rw (h.0, outside_lines) (outside_lines_inside body last rest h.1 k)

  -- A closed block is dropped whole.
  pub outside_lines_block :
      (first : Text) (body : List Text) (last : Text) (rest : List Text)
      → contains (begin_marker id) first ≡ true
      → All (λ l. contains (end_marker id) l ≡ false) body
      → contains (end_marker id) last ≡ true
      → outside_lines id false (first ∷ (body ++ last ∷ rest)) ≡ outside_lines id false rest
  unfolding outside_lines
  outside_lines_block first body last rest f h k =
      rw (f, outside_lines) (outside_lines_inside body last rest h k)

  -- A block with no end marker is dropped with everything below it.
  pub outside_lines_open :
      (first : Text) (body : List Text)
      → contains (begin_marker id) first ≡ true
      → All (λ l. contains (end_marker id) l ≡ false) body
      → outside_lines id false (first ∷ body) ≡ []
  unfolding outside_lines
  outside_lines_open first body f h = rw (f, outside_lines) (all_inside body h)
    where
      all_inside :
          (ls : List Text)
          → All (λ l. contains (end_marker id) l ≡ false) ls
          → outside_lines id true ls ≡ []
      all_inside [] h = refl
      all_inside (l ∷ ls) h = rw (h.0, outside_lines) (all_inside ls h.1)

pub contains_self : (s : Text) → contains s s ≡ true
contains_self s = rw append-nil at (contains-append s [] [])

module _ (id : ℕ) (b : IsBoxId id) where
  name_one_line : Lacks b'\n' (name id)
  name_one_line = (name-IsStorable id b).value.one_line

  pub begin_marker_one_line : Lacks b'\n' (begin_marker id)
  unfolding begin_marker
  begin_marker_one_line =
      All-append (λ c. c ≢ b'\n') (codes "# >>> ") (name id ++ codes " (managed by mpd-virt) >>>")
        (Lacks-test b'\n' (codes "# >>> ") refl)
        (All-append (λ c. c ≢ b'\n') (name id) (codes " (managed by mpd-virt) >>>") name_one_line
          (Lacks-test b'\n' (codes " (managed by mpd-virt) >>>") refl))

  pub end_marker_one_line : Lacks b'\n' (end_marker id)
  unfolding end_marker
  end_marker_one_line =
      All-append (λ c. c ≢ b'\n') (codes "# <<< ") (name id ++ codes " <<<")
        (Lacks-test b'\n' (codes "# <<< ") refl)
        (All-append (λ c. c ≢ b'\n') (name id) (codes " <<<") name_one_line
          (Lacks-test b'\n' (codes " <<<") refl))
