-- ===== src/Sshconfig/Rewrite.antt =====
-- `stripBlock` and the text that `Write` puts together.
use mpd_virt_macos.Base.{
  ℕ, Bool, true, false, not, all, ◌&&◌, List, [], ◌∷◌, ◌++◌, if◌then◌else◌, ◌==◌, nat_eq, ◌≡◌, ◌≢◌,
  ◌∙◌, sym, refl, ap, arith, All, All-append, Bool-cases, inl, inr, Lacks, append_assoc,
}
use mpd_virt_macos.Text.{Text, codes, contains, split, join}
use mpd_virt_macos.Text.Decimal.{is_digit, itoa}
use mpd_virt_macos.Text.Lines.{split-append, split-join}
use mpd_virt_macos.Text.Search.{contains-append, contains_absent}
use mpd_virt_macos.Vmid.{name, zone}
use mpd_virt_macos.Vmid.Bounds.{IsBoxId, name-All, zone-All}
use mpd_virt_macos.Sshconfig.{
  begin_marker, end_marker, collapse, drop_blanks, stanzas, block_lines, render, outside_lines,
  is_blank, strip_block, rewrite,
}
use mpd_virt_macos.Sshconfig.Blocks.{
  outside_lines-append, outside_lines_block, begin_marker_one_line, end_marker_one_line,
  contains_self,
}
use mpd_virt_macos.Sshconfig.Kept.{
  begin_absent_nil, tidy-or_empty, kept, kept_clean, strip_block-kept, or_empty, split-strip_block,
  tidy-kept,
}
use mpd_virt_macos.Sshconfig.Tidy.{tidy}

-- A value that stands on one line and opens no marker: neither a newline nor `<` in it.
abbrev pub IsPlain : Text → Type 0
IsPlain = All (λ c. (c ≢ b'\n') × (c ≢ b'<'))

plain_rune : ℕ → Bool
plain_rune c = not (c == b'\n') && not (c == b'<')

IsPlain-test : (s : Text) → all plain_rune s ≡ true → IsPlain s
unfolding plain_rune
IsPlain-test [] h = tt
IsPlain-test (c ∷ s) h = (ground arith, IsPlain-test s (ground arith))

IsPlain-Lacks : (s : Text) → IsPlain s → Lacks b'\n' s × Lacks b'<' s
IsPlain-Lacks [] h = (tt, tt)
IsPlain-Lacks (c ∷ s) h = let rest = IsPlain-Lacks s h.1 in ((h.0.0, rest.0), (h.0.1, rest.1))

digit_plain : (c : ℕ) → is_digit c ≡ true → (c ≢ b'\n') × (c ≢ b'<')
unfolding is_digit
digit_plain c h = ground arith

module _ (id : ℕ) (b : IsBoxId id) where
  name-IsPlain : IsPlain (name id)
  unfolding plain_rune
  name-IsPlain =
      name-All (λ c. (c ≢ b'\n') × (c ≢ b'<')) digit_plain id b (IsPlain-test (codes "mpd-") refl)

  zone-IsPlain : IsPlain (zone id)
  unfolding plain_rune
  zone-IsPlain =
      zone-All (λ c. (c ≢ b'\n') × (c ≢ b'<')) digit_plain id b
        (IsPlain-test (codes ".mpd.test") refl)

-- A literal in front of a plain value.
IsPlain-line : (s t : Text) → all plain_rune s ≡ true → IsPlain t → IsPlain (s ++ t)
IsPlain-line s t h k = All-append (λ c. (c ≢ b'\n') × (c ≢ b'<')) s t (IsPlain-test s h) k

IsPlain-suffix : (s t : Text) → IsPlain s → all plain_rune t ≡ true → IsPlain (s ++ t)
IsPlain-suffix s t h k = All-append (λ c. (c ≢ b'\n') × (c ≢ b'<')) s t h (IsPlain-test t k)

end_marker_absent : (id : ℕ) (l : Text) → Lacks b'<' l → contains (end_marker id) l ≡ false
unfolding end_marker
end_marker_absent id l h =
    contains_absent b'<' (codes "# ") (codes "<< " ++ (name id ++ codes " <<<")) l h

split_nil : (c : ℕ) → split c [] ≡ [] ∷ []
unfolding split
split_nil c = refl

-- `Write` uses the text that it reads only through `stripBlock`.
rewrite-strip_block :
    (a c : Text) (id : ℕ) (ip user : Text)
    → strip_block a id ≡ strip_block c id
    → rewrite a id ip user ≡ rewrite c id ip user
unfolding rewrite
rewrite-strip_block a c id ip user h = rw h

tidy_nil : tidy ([] ++ []) ≡ []
unfolding collapse drop_blanks
tidy_nil = refl

is_blank-nil : (s : Text) → is_blank s ≡ true → s ≡ []
is_blank-nil [] h = refl
is_blank-nil (c ∷ s) h = cc

module _ (id : ℕ) (b : IsBoxId id) (ip user : Text) (hip : IsPlain ip) (huser : IsPlain user) where
  stanzas-IsPlain : All IsPlain (stanzas id ip user)
  unfolding stanzas plain_rune itoa
  stanzas-IsPlain =
      let host = name-IsPlain id b in
      let plain = λ (s : Text) (e : all plain_rune s ≡ true). IsPlain-test s e in
      (
        IsPlain-line (codes "Host ") _ refl host,
        (
          IsPlain-line (codes "    HostName ") _ refl hip,
          (
            IsPlain-line (codes "    User ") _ refl huser,
            (
              plain (codes "    StrictHostKeyChecking no") refl,
              (
                plain (codes "    UserKnownHostsFile /dev/null") refl,
                (
                  tt,
                  (
                    IsPlain-line (codes "Host ") _ refl
                        (IsPlain-suffix _ (codes "-runtime") host refl),
                    (
                      IsPlain-line (codes "    HostName runtime.") _ refl (zone-IsPlain id b),
                      (
                        IsPlain-line (codes "    User ") _ refl huser,
                        (
                          IsPlain-line (codes "    ProxyJump ") _ refl host,
                          (
                            plain (codes "    StrictHostKeyChecking no") refl,
                            (
                              plain (codes "    UserKnownHostsFile /dev/null") refl,
                              (
                                tt,
                                (
                                  IsPlain-line (codes "Host ") _ refl
                                      (IsPlain-suffix _ (codes "-socks") host refl),
                                  (
                                    IsPlain-line (codes "    HostName ") _ refl hip,
                                    (
                                      IsPlain-line (codes "    User ") _ refl huser,
                                      (
                                        plain (codes "    StrictHostKeyChecking no") refl,
                                        (
                                          plain (codes "    UserKnownHostsFile /dev/null") refl,
                                          (
                                            plain (codes "    DynamicForward 1080") refl,
                                            (
                                              plain (codes "    ServerAliveInterval 30") refl,
                                              (plain (codes "    ServerAliveCountMax 3") refl, tt),
                                            ),
                                          ),
                                        ),
                                      ),
                                    ),
                                  ),
                                ),
                              ),
                            ),
                          ),
                        ),
                      ),
                    ),
                  ),
                ),
              ),
            ),
          ),
        ),
      )

  plain_lines-Lacks : (ls : List Text) → All IsPlain ls → All (Lacks b'\n') ls
  plain_lines-Lacks [] h = tt
  plain_lines-Lacks (l ∷ ls) h = ((IsPlain-Lacks l h.0).0, plain_lines-Lacks ls h.1)

  plain_lines-no_end :
      (ls : List Text) → All IsPlain ls → All (λ l. contains (end_marker id) l ≡ false) ls
  plain_lines-no_end [] h = tt
  plain_lines-no_end (l ∷ ls) h =
      (end_marker_absent id l (IsPlain-Lacks l h.0).1, plain_lines-no_end ls h.1)

  block_one_line : All (Lacks b'\n') (block_lines id ip user)
  block_one_line = (
    begin_marker_one_line id b,
    All-append (Lacks b'\n') (stanzas id ip user) (end_marker id ∷ [])
        (plain_lines-Lacks (stanzas id ip user) stanzas-IsPlain) (end_marker_one_line id b, tt),
  )

  split-render : split b'\n' (render id ip user ++ codes "\n") ≡ block_lines id ip user ++ [] ∷ []
  unfolding render
  split-render =
      split-append b'\n' (join (codes "\n") (block_lines id ip user)) []
      ∙ rw (split-join b'\n' (block_lines id ip user) (λ e. cc) block_one_line)
          (unfold split in refl)

  -- The block that `render` writes is dropped whole.
  outside_lines-render : outside_lines id false (block_lines id ip user ++ [] ∷ []) ≡ [] ∷ []
  outside_lines-render = rw (append_assoc (stanzas id ip user) (end_marker id ∷ []) ([] ∷ [])) (
      outside_lines_block id (begin_marker id) (stanzas id ip user) (end_marker id) ([] ∷ [])
        (contains_self (begin_marker id)) (plain_lines-no_end (stanzas id ip user) stanzas-IsPlain)
        (contains_self (end_marker id))
      ∙ (unfold outside_lines in rw (begin_absent_nil id, outside_lines)))

  outside_lines-rewrite_blank :
      (current : Text)
      → is_blank (strip_block current id) ≡ true
      → outside_lines id false (split b'\n' (rewrite current id ip user)) ≡ [] ∷ []
  unfolding rewrite
  outside_lines-rewrite_blank current blank =
      rw (blank, is_blank-nil (strip_block current id) blank, split-render) outside_lines-render

  outside_lines-rewrite_solid :
      (current : Text)
      → is_blank (strip_block current id) ≡ false
      → outside_lines id false (split b'\n' (rewrite current id ip user))
        ≡ kept id current ++ [] ∷ [] ∷ []
  unfolding rewrite
  outside_lines-rewrite_solid current solid =
      rw
        (
          solid,
          append_assoc (strip_block current id) (codes "\n\n") (render id ip user ++ codes "\n"),
          split-append b'\n' (strip_block current id) (b'\n' ∷ (render id ip user ++ codes "\n")),
          split-append b'\n' [] (render id ip user ++ codes "\n"),
          split-render,
          split-strip_block id current,
          solid_kept (kept id current) (rw (strip_block-kept id current) at solid),
        )
        (outside_lines-append id (kept id current) _ (kept_clean id current)
          ∙ ap (◌++◌ (kept id current)) (blank_then_block))
    where
      blank_then_block :
          outside_lines id false (split b'\n' [] ++ (block_lines id ip user ++ [] ∷ []))
          ≡ [] ∷ [] ∷ []
      blank_then_block = rw (split_nil b'\n') (
          outside_lines-append id ([] ∷ []) (block_lines id ip user ++ [] ∷ [])
            (begin_absent_nil id, tt)
          ∙ ap (◌∷◌ []) outside_lines-render)

      solid_kept : (ls : List Text) → is_blank (join (codes "\n") ls) ≡ false → or_empty ls ≡ ls
      solid_kept [] h = unfold join in cc
      solid_kept (l ∷ ls) h = refl

  -- For a box id from 1 to 254, and an address and a user without a newline or a `<`: stripping
  -- the text that `Write` makes gives what stripping the text before gives, whatever that text
  -- was.
  pub strip_block-rewrite :
      (current : Text) → strip_block (rewrite current id ip user) id ≡ strip_block current id
  unfolding join
  strip_block-rewrite current = elim (Bool-cases (is_blank (strip_block current id))) [
    | inl blank ↦
        strip_block-kept id (rewrite current id ip user)
        ∙ rw (outside_lines-rewrite_blank current blank, tidy-or_empty id [] tidy_nil)
            (sym (is_blank-nil (strip_block current id) blank))
    | inr solid ↦
        strip_block-kept id (rewrite current id ip user)
        ∙ rw
            (
              outside_lines-rewrite_solid current solid,
              tidy-kept id current ([] ∷ [] ∷ []) (refl, (refl, tt)),
            )
            (sym (strip_block-kept id current))
  ]

  -- For a box id from 1 to 254, and a first address and user without a newline or a `<`: writing
  -- the block again replaces it, with the result of writing only the second one.
  pub rewrite_twice :
      (current ip' user' : Text)
      → rewrite (rewrite current id ip user) id ip' user' ≡ rewrite current id ip' user'
  rewrite_twice current ip' user' =
      rewrite-strip_block (rewrite current id ip user) current id ip' user'
        (strip_block-rewrite current)

-- The block behind the text so far.
abbrev spaced : Text → Text
spaced rebuilt = if is_blank rebuilt then rebuilt else rebuilt ++ codes "\n\n"

-- A written text holds the begin marker of its box.
pub contains-rewrite :
    (current : Text) (id : ℕ) (ip user : Text)
    → contains (begin_marker id) (rewrite current id ip user) ≡ true
unfolding rewrite render join stanzas
contains-rewrite current id ip user =
    rw (append_assoc (begin_marker id))
      (contains-append (begin_marker id) (spaced (strip_block current id)) _)
