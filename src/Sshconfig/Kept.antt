-- ===== src/Sshconfig/Kept.antt =====
-- `stripBlock`: the lines that it keeps, and the text that it joins from them.
use mpd_virt_macos.Base.{
  ℕ, true, false, List, [], ◌∷◌, ◌++◌, ◌≡◌, ◌≢◌, ◌∙◌, sym, ap, refl, All, Lacks, append-nil,
}
use mpd_virt_macos.Text.{Text, codes, contains, split, join, has_prefix}
use mpd_virt_macos.Text.Lines.{split-join, split-All-Lacks}
use mpd_virt_macos.Text.Search.{contains-join, any_none}
use mpd_virt_macos.Vmid.Bounds.{IsBoxId}
use mpd_virt_macos.Sshconfig.{
  begin_marker, end_marker, outside_lines, collapse, drop_blanks, is_blank, strip_block,
}
use mpd_virt_macos.Sshconfig.Blocks.{
  outside_lines_clean, outside_lines-All, outside_lines-append, outside_lines_block,
  begin_marker_one_line,
}
use mpd_virt_macos.Sshconfig.Tidy.{
  tidy, tidy-append_blanks, tidy-All, solid_lines, solid_lines-tidy,
}

pub begin_ne_nil : (id : ℕ) → begin_marker id ≢ []
unfolding begin_marker
begin_ne_nil id = λ e. cc

pub begin_absent_nil : (id : ℕ) → contains (begin_marker id) [] ≡ false
unfolding begin_marker contains has_prefix
begin_absent_nil id = refl

-- The lines of a text that is joined from these.
abbrev pub or_empty : List Text → List Text
or_empty [] = [] ∷ []
or_empty (l ∷ ls) = l ∷ ls

module _ (id : ℕ) where
  -- The lines of `stripBlock`, before it joins them.
  abbrev pub kept : Text → List Text
  kept current = tidy (outside_lines id false (split b'\n' current))

  pub strip_block-kept :
      (current : Text) → strip_block current id ≡ join (codes "\n") (kept current)
  unfolding strip_block
  strip_block-kept current = refl

  pub kept_clean : (current : Text) → All (λ l. contains (begin_marker id) l ≡ false) (kept current)
  kept_clean current =
      tidy-All (λ l. contains (begin_marker id) l ≡ false) _
        (outside_lines_clean id false (split b'\n' current))

  kept_one_line : (current : Text) → All (Lacks b'\n') (kept current)
  kept_one_line current = tidy-All (Lacks b'\n') _ (
      outside_lines-All id (Lacks b'\n') false (split b'\n' current)
        (split-All-Lacks b'\n' current))

  split-join_kept :
      (ls : List Text) → All (Lacks b'\n') ls → split b'\n' (join (codes "\n") ls) ≡ or_empty ls
  split-join_kept [] h = unfold split join in refl
  split-join_kept (l ∷ ls) h = split-join b'\n' (l ∷ ls) (λ e. cc) h

  -- Blank lines behind the kept lines, and another pass of the loops, change nothing.
  pub tidy-kept :
      (current : Text) (blanks : List Text)
      → All (λ l. is_blank l ≡ true) blanks
      → tidy (kept current ++ blanks) ≡ kept current
  tidy-kept current blanks h =
      tidy-append_blanks (outside_lines id false (split b'\n' current)) blanks h

  -- The lines of a stripped text are the kept lines; an empty text has one empty line.
  pub split-strip_block :
      (current : Text) → split b'\n' (strip_block current id) ≡ or_empty (kept current)
  split-strip_block current =
      rw (strip_block-kept current) (split-join_kept (kept current) (kept_one_line current))

  pub outside_lines-or_empty :
      (ls : List Text)
      → All (λ l. contains (begin_marker id) l ≡ false) ls
      → outside_lines id false (or_empty ls) ≡ or_empty ls
  unfolding outside_lines
  outside_lines-or_empty [] h = rw (begin_absent_nil id, outside_lines)
  outside_lines-or_empty (l ∷ ls) h = rw append-nil at (outside_lines-append id (l ∷ ls) [] h)

  pub tidy-or_empty : (ls : List Text) → tidy (ls ++ []) ≡ ls → tidy (or_empty ls) ≡ ls
  tidy-or_empty [] h = unfold collapse drop_blanks in refl
  tidy-or_empty (l ∷ ls) h = rw append-nil at h

  -- Stripping a stripped text changes nothing.
  pub strip_block_idem :
      (current : Text) → strip_block (strip_block current id) id ≡ strip_block current id
  strip_block_idem current =
      strip_block-kept (strip_block current id)
      ∙ rw
          (
            split-strip_block current,
            outside_lines-or_empty (kept current) (kept_clean current),
            tidy-or_empty (kept current) (tidy-kept current [] tt),
          )
          (sym (strip_block-kept current))

  solid_lines-or_empty : (ls : List Text) → solid_lines (or_empty ls) ≡ solid_lines ls
  solid_lines-or_empty [] = refl
  solid_lines-or_empty (l ∷ ls) = refl

  solid_lines-append :
      (ls ms : List Text) → solid_lines (ls ++ ms) ≡ solid_lines ls ++ solid_lines ms
  solid_lines-append [] ms = refl
  solid_lines-append ([] ∷ ls) ms = solid_lines-append ls ms
  solid_lines-append ((c ∷ l) ∷ ls) ms = rw (solid_lines-append ls ms) refl

  solid_lines-kept :
      (current : Text)
      → solid_lines (split b'\n' (strip_block current id))
        ≡ solid_lines (outside_lines id false (split b'\n' current))
  solid_lines-kept current =
      rw (split-strip_block current, solid_lines-or_empty (kept current))
        (solid_lines-tidy (outside_lines id false (split b'\n' current)))

  -- A block between lines that hold no begin marker: the loop leaves these lines.
  outside_lines_between :
      (before inside after : List Text) (first last : Text)
      → All (λ l. contains (begin_marker id) l ≡ false) before
      → contains (begin_marker id) first ≡ true
      → All (λ l. contains (end_marker id) l ≡ false) inside
      → contains (end_marker id) last ≡ true
      → All (λ l. contains (begin_marker id) l ≡ false) after
      → outside_lines id false (before ++ first ∷ (inside ++ last ∷ after)) ≡ before ++ after
  unfolding outside_lines
  outside_lines_between before inside after first last h f i e k =
      outside_lines-append id before (first ∷ (inside ++ last ∷ after)) h
      ∙ ap (◌++◌ before)
          (outside_lines_block id first inside last after f i e ∙ outside_lines_alone after k)
    where
      outside_lines_alone :
          (ls : List Text)
          → All (λ l. contains (begin_marker id) l ≡ false) ls
          → outside_lines id false ls ≡ ls
      outside_lines_alone ls c = rw append-nil at (outside_lines-append id ls [] c)

  -- For a text whose lines are some before a line with the begin marker, that line, lines without the end
  -- marker, a line with the end marker, and some behind it, where none before and behind holds the begin
  -- marker: the lines of the stripped text that are not blank are those before and those behind the
  -- block that are not blank, in their order.
  pub solid_lines-strip_block :
      (before inside after : List Text) (first last : Text) (current : Text)
      → split b'\n' current ≡ before ++ first ∷ (inside ++ last ∷ after)
      → All (λ l. contains (begin_marker id) l ≡ false) before
      → contains (begin_marker id) first ≡ true
      → All (λ l. contains (end_marker id) l ≡ false) inside
      → contains (end_marker id) last ≡ true
      → All (λ l. contains (begin_marker id) l ≡ false) after
      → solid_lines (split b'\n' (strip_block current id)) ≡ solid_lines before ++ solid_lines after
  solid_lines-strip_block before inside after first last current s h f i e k =
      solid_lines-kept current
      ∙ rw (s, outside_lines_between before inside after first last h f i e k)
          (solid_lines-append before after)

module _ (id : ℕ) (b : IsBoxId id) where
  -- For a box id from 1 to 254, a stripped text does not hold the begin marker of the box,
  -- whatever the text was.
  pub contains-strip_block :
      (current : Text) → contains (begin_marker id) (strip_block current id) ≡ false
  contains-strip_block current = rw (strip_block-kept id current) (
      contains-join b'\n' (begin_marker id) (kept id current) (begin_marker_one_line id b)
        (begin_ne_nil id)
      ∙ any_none (contains (begin_marker id)) (kept id current) (kept_clean id current))
