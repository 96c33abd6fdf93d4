-- ===== src/Env/Laws.antt =====
-- What the loop reads from the lines that the two registries write.
use mpd_virt_macos.Base.{
  ℕ, ◌+◌, ◌<◌, not, all, ltb, ◌&&◌, Bool, true, false, List, [], ◌∷◌, ◌++◌, some, ◌==◌, list_eq,
  nat_eq, ◌≡◌, ◌≢◌, ◌∙◌, refl, ap, arith, Lacks, All-append, ==_ne, append_assoc,
}
use mpd_virt_macos.Text.{
  Text, is_space, trim_space, trim_right, has_prefix, drop_cr, too_long, byte_len,
}
use mpd_virt_macos.Text.Trim.{
  IsTrimmed, IsTrimmed-trim_right, IsTrimmed-append, trim_space-cons, trim_right-append, IsSolid,
  IsSolid-IsTrimmed,
}
use mpd_virt_macos.Text.Search.{cut-append}
use mpd_virt_macos.Env.{Bindings, read_line, scan_lines}

drop_cr-trim_right : (s : Text) → trim_right (drop_cr s) ≡ trim_right s
unfolding drop_cr trim_right
drop_cr-trim_right [] = refl
drop_cr-trim_right (c ∷ []) = unfold is_space in ground arith
drop_cr-trim_right (c ∷ d ∷ s) = rw (drop_cr-trim_right (d ∷ s))

-- Dropping a carriage return changes nothing that trimming does not take anyway.
trim_space-drop_cr :
    (c : ℕ) (s : Text) → is_space c ≡ false → trim_space (drop_cr (c ∷ s)) ≡ trim_space (c ∷ s)
unfolding drop_cr
trim_space-drop_cr c [] h = unfold is_space in ground arith
trim_space-drop_cr c (d ∷ s) h =
    rw (
      trim_space-cons c (drop_cr (d ∷ s)) h,
      trim_space-cons c (d ∷ s) h,
      drop_cr-trim_right (d ∷ s),
    )

-- A key of the registries: no white space, no `=`, and it begins no comment.
pub record IsKey (c : ℕ) (k : Text) : Type 0 where
  pub solid : is_space c ≡ false
  pub no_comment : c ≢ b'#'
  pub no_equals : Lacks b'=' (c ∷ k)
  pub key_solid : IsSolid (c ∷ k)

-- A value that a line can hold: no newline, and no white space around it.
pub record IsValue (v : Text) : Type 0 where
  pub one_line : Lacks b'\n' v
  pub trimmed : IsTrimmed v

abbrev pub line_of : Text → Text → Text
line_of k v = k ++ b'=' ∷ v

line_of-IsTrimmed :
    (c : ℕ) (k v : Text) → is_space c ≡ false → IsValue v → IsTrimmed (line_of (c ∷ k) v)
line_of-IsTrimmed c k v h val =
    rw (append_assoc k (b'=' ∷ []) v) at
      (IsTrimmed-append c (k ++ b'=' ∷ []) v h (ends_solid k) (IsTrimmed-trim_right v val.trimmed))
  where
    equals_solid : trim_right (b'=' ∷ []) ≡ b'=' ∷ []
    equals_solid = unfold trim_right is_space in refl

    ends_solid : (k : Text) → trim_right (k ++ b'=' ∷ []) ≡ k ++ b'=' ∷ []
    ends_solid k = trim_right-append k (b'=' ∷ []) (rw equals_solid (λ e. cc)) ∙ rw equals_solid

pub read_line-line_of :
    (c : ℕ) (k v : Text) (kv : Bindings)
    → IsKey c k
    → IsValue v
    → read_line (trim_space (drop_cr (line_of (c ∷ k) v))) kv ≡ (c ∷ k, v) ∷ kv
unfolding read_line has_prefix
read_line-line_of c k v kv key val =
    rw
      (
        trim_space-drop_cr c (k ++ b'=' ∷ v) key.solid,
        line_of-IsTrimmed c k v key.solid val,
        cut-append b'=' (c ∷ k) v key.no_equals,
        IsSolid-IsTrimmed (c ∷ k) key.key_solid,
        val.trimmed,
      )
      (ground (arith, ==_ne {A = Text} (c ∷ (k ++ b'=' ∷ v)) [] (λ e. cc), key.no_comment))

pub read_line_comment :
    (s : Text) (kv : Bindings) → read_line (trim_space (drop_cr (b'#' ∷ s))) kv ≡ kv
unfolding read_line has_prefix
read_line_comment s kv =
    let solid : is_space b'#' ≡ false = unfold is_space in refl in
    rw (trim_space-drop_cr b'#' s solid, trim_space-cons b'#' s solid)
      (ground (arith, ==_ne {A = Text} (b'#' ∷ trim_right s) [] (λ e. cc)))

pub byte_len-append : (s t : Text) → byte_len (s ++ t) ≡ byte_len s + byte_len t
unfolding byte_len
byte_len-append [] t = omega arith
byte_len-append (c ∷ s) t = omega (arith, byte_len-append s t)

pub not-too_long : (l : Text) → byte_len l < 65536 → too_long l ≡ false
unfolding too_long
not-too_long l h = ground arith

-- A line that is short enough is read, and the loop goes on.
pub scan_lines-cons :
    (l : Text) (ls : List Text) (kv kv' : Bindings)
    → byte_len l < 65536
    → read_line (trim_space (drop_cr l)) kv ≡ kv'
    → scan_lines (l ∷ ls) kv ≡ scan_lines ls kv'
scan_lines-cons l ls kv kv' h e = unfold scan_lines in rw (not-too_long l h, e)

key_rune : ℕ → Bool
key_rune c = not (is_space c) && (not (c == b'#') && not (c == b'='))

key_rune_sound : (c : ℕ) → key_rune c ≡ true → (is_space c ≡ false) × (c ≢ b'#') × (c ≢ b'=')
unfolding key_rune
key_rune_sound c h = ground arith

key_runes_sound : (s : Text) → all key_rune s ≡ true → IsSolid s × Lacks b'=' s
key_runes_sound [] h = (tt, tt)
key_runes_sound (c ∷ s) h =
    let rest : IsSolid s × Lacks b'=' s = key_runes_sound s (ground arith) in
    let first : (is_space c ≡ false) × (c ≢ b'#') × (c ≢ b'=') = key_rune_sound c (ground arith) in
    ((first.0, rest.0), (first.2, rest.1))

-- A key is decided by a test of its runes.
unfoldable pub key_test : Text → Bool
unfolding key_rune is_space byte_len
key_test [] = false
key_test (c ∷ s) = all key_rune (c ∷ s) && ltb (byte_len (c ∷ s)) 100

pub key_test_sound : (c : ℕ) (k : Text) → key_test (c ∷ k) ≡ true → IsKey c k
key_test_sound c k h = record {
  solid = (key_rune_sound c (head h)).0;
  no_comment = (key_rune_sound c (head h)).1;
  no_equals = (key_runes_sound (c ∷ k) (whole h)).1;
  key_solid = (key_runes_sound (c ∷ k) (whole h)).0;
}
  where
    whole : key_test (c ∷ k) ≡ true → all key_rune (c ∷ k) ≡ true
    whole h = unfold key_test in ground arith

    head : key_test (c ∷ k) ≡ true → key_rune c ≡ true
    head h = unfold key_test in ground arith

IsSolid-Lacks : (b : ℕ) (s : Text) → is_space b ≡ true → IsSolid s → Lacks b s
IsSolid-Lacks b [] h k = tt
IsSolid-Lacks b (c ∷ s) h k = ((λ e. ground (arith, ap is_space e, k.0)), IsSolid-Lacks b s h k.1)

pub IsSolid-IsValue : (s : Text) → IsSolid s → IsValue s
IsSolid-IsValue s h = record {
  one_line = IsSolid-Lacks b'\n' s (unfold is_space in refl) h;
  trimmed = IsSolid-IsTrimmed s h;
}

-- A value that a line can hold, and that leaves room for the key.
pub record IsStorable (v : Text) : Type 0 where
  pub value : IsValue v
  pub short : byte_len v < 65000

pub line_of_short :
    (k v : Text) → byte_len k < 100 → byte_len v < 65000 → byte_len (line_of k v) < 65536
line_of_short k v hk hv =
    let one : byte_len (b'=' ∷ v) ≡ 1 + byte_len v = unfold byte_len in refl in
    omega (arith, byte_len-append k (b'=' ∷ v), one)

-- The loop takes a line that holds a binding.
pub scan_lines-line_of :
    (k v : Text) (ls : List Text) (kv : Bindings)
    → key_test k ≡ true
    → IsStorable v
    → scan_lines (line_of k v ∷ ls) kv ≡ scan_lines ls ((k, v) ∷ kv)
scan_lines-line_of [] v ls kv key s = unfold key_test in cc
scan_lines-line_of (c ∷ k) v ls kv key s =
    scan_lines-cons (line_of (c ∷ k) v) ls kv ((c ∷ k, v) ∷ kv)
      (line_of_short (c ∷ k) v (key_short key) s.short)
      (read_line-line_of c k v kv (key_test_sound c k key) s.value)
  where
    key_short : key_test (c ∷ k) ≡ true → byte_len (c ∷ k) < 100
    key_short h = unfold key_test in ground arith

-- A binding stands on one line.
pub line_of-Lacks : (k v : Text) → key_test k ≡ true → IsStorable v → Lacks b'\n' (line_of k v)
line_of-Lacks [] v key s = unfold key_test in cc
line_of-Lacks (c ∷ k) v key s =
    All-append (λ d. d ≢ b'\n') (c ∷ k) (b'=' ∷ v)
      (IsSolid-IsValue (c ∷ k) (key_test_sound c k key).key_solid).one_line
      ((λ e. cc), s.value.one_line)

-- The loop passes over a comment.
pub scan_lines_comment :
    (s : Text) (ls : List Text) (kv : Bindings)
    → byte_len (b'#' ∷ s) < 65536
    → scan_lines ((b'#' ∷ s) ∷ ls) kv ≡ scan_lines ls kv
scan_lines_comment s ls kv h = scan_lines-cons (b'#' ∷ s) ls kv kv h (read_line_comment s kv)

pub scan_lines-nil : (kv : Bindings) → scan_lines [] kv ≡ some kv
unfolding scan_lines
scan_lines-nil kv = refl
