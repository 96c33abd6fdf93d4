-- ===== src/Text.antt =====
-- What the sources use of Go's `strings`, `strconv` and `bufio` packages. A string is the list of
-- its runes. Strings are valid UTF-8, so tests that Go makes on bytes agree with tests on runes;
-- where a length in bytes counts, it is `byte_len`.
pub mod Trim
pub mod Lines
pub mod Search
pub mod Decimal
use Prim.Native.Char.{code}
use mpd_virt_macos.Base.{
  ℕ, ◌+◌, Bool, true, false, ◌&&◌, ◌||◌, List, [], ◌∷◌, ◌++◌, Option, none, some, String, leb, ltb,
  ◌==◌, nat_eq, list_eq, if◌then◌else◌,
}

abbrev pub Text : Type 0
Text = List ℕ

-- The runes of a literal.
abbrev pub codes : String → Text
codes String.[] = []
codes (String.◌∷◌ c s) = code c ∷ codes s

abbrev within : ℕ → ℕ → ℕ → Bool
within lo hi c = leb lo c && leb c hi

-- `unicode.IsSpace`
unfoldable pub is_space : ℕ → Bool
is_space c =
    within 9 13 c
    || within 0x2000 0x200a c
    || within 0x2028 0x2029 c
    || c == 0x20
    || c == 0x85
    || c == 0xa0
    || c == 0x1680
    || c == 0x202f
    || c == 0x205f
    || c == 0x3000

-- `unicode.ToLower` on ASCII, and on the two other runes whose lower case is ASCII. The remaining
-- runes keep a lower case outside ASCII, which no caller tells apart: they stay as they are.
unfoldable pub to_lower_rune : ℕ → ℕ
to_lower_rune c =
    if within b'A' b'Z' c
    then c + 32
    else if c == 0x212a
    then b'k'
    else if c == 0x130
    then b'i'
    else c

unfoldable pub to_lower : Text → Text
unfolding to_lower_rune
to_lower [] = []
to_lower (c ∷ s) = to_lower_rune c ∷ to_lower s

unfoldable pub trim_left : Text → Text
trim_left [] = []
trim_left (c ∷ s) = if is_space c then trim_left s else c ∷ s

-- `c` in front of a text whose trailing white space is gone.
abbrev pub keep : ℕ → Text → Text
keep c [] = if is_space c then [] else c ∷ []
keep c (d ∷ s) = c ∷ d ∷ s

unfoldable pub trim_right : Text → Text
trim_right [] = []
trim_right (c ∷ s) = keep c (trim_right s)

-- `strings.TrimSpace`
unfoldable pub trim_space : Text → Text
unfolding trim_left trim_right
trim_space s = trim_right (trim_left s)

-- `strings.HasPrefix(s, p)`, with the prefix first.
unfoldable pub has_prefix : Text → Text → Bool
has_prefix [] s = true
has_prefix (p ∷ ps) [] = false
has_prefix (p ∷ ps) (c ∷ s) = p == c && has_prefix ps s

-- `strings.Contains(s, sub)`, with `sub` first.
unfoldable pub contains : Text → Text → Bool
unfolding has_prefix
contains sub [] = has_prefix sub []
contains sub (c ∷ s) = has_prefix sub (c ∷ s) || contains sub s

-- `strings.HasSuffix(s, p)`, with the suffix first.
unfoldable pub has_suffix : Text → Text → Bool
has_suffix p [] = p == []
has_suffix p (c ∷ s) = p == (c ∷ s) || has_suffix p s

-- `strings.TrimSuffix(s, p)`, with the suffix first.
unfoldable pub trim_suffix : Text → Text → Text
trim_suffix p [] = []
trim_suffix p (c ∷ s) = let rest = trim_suffix p s in if p == (c ∷ s) then [] else c ∷ rest

abbrev pub cons_head : ℕ → List Text → List Text
cons_head c [] = (c ∷ []) ∷ []
cons_head c (l ∷ ls) = (c ∷ l) ∷ ls

-- `strings.Split(s, sep)` at one rune: never empty.
unfoldable pub split : ℕ → Text → List Text
split sep [] = [] ∷ []
split sep (c ∷ s) = let rest = split sep s in if c == sep then [] ∷ rest else cons_head c rest

-- `strings.Join(parts, sep)`, with the separator first.
unfoldable pub join : Text → List Text → Text
join sep [] = []
join sep (l ∷ []) = l
join sep (l ∷ m ∷ ls) = l ++ (sep ++ join sep (m ∷ ls))

-- `strings.Cut(s, sep)` at one rune.
unfoldable pub cut : ℕ → Text → Option (Text × Text)
cut sep [] = none
cut sep (c ∷ s) =
    let rest = cut sep s in
    if c == sep then some ([], s) else elim rest [ none ↦ none | some (k, v) ↦ some (c ∷ k, v) ]

-- The fields that follow the runes in `cur`, which belong to one field.
abbrev pub close : Text → List Text → List Text
close [] fs = fs
close (c ∷ s) fs = (c ∷ s) ∷ fs

unfoldable pub fields_from : Text → Text → List Text
fields_from cur [] = close cur []
fields_from cur (c ∷ s) =
    let next = fields_from [] s in
    let more = fields_from (cur ++ c ∷ []) s in if is_space c then close cur next else more

-- `strings.Fields`
unfoldable pub fields : Text → List Text
unfolding fields_from
fields = fields_from []

-- The bytes of a rune in UTF-8, and of a text: `len(s)`.
unfoldable pub rune_len : ℕ → ℕ
rune_len c = if ltb c 0x80 then 1 else if ltb c 0x800 then 2 else if ltb c 0x10000 then 3 else 4

unfoldable pub byte_len : Text → ℕ
unfolding rune_len
byte_len [] = 0
byte_len (c ∷ s) = rune_len c + byte_len s

abbrev drop_last_empty : List Text → List Text
drop_last_empty [] = []
drop_last_empty (l ∷ []) = elim l [ [] ↦ [] | c ∷ s ↦ (c ∷ s) ∷ [] ]
drop_last_empty (l ∷ m ∷ ls) = l ∷ drop_last_empty (m ∷ ls)

-- `bufio.ScanLines` before it drops a carriage return: an empty last line is no line.
unfoldable pub raw_lines : Text → List Text
unfolding split
raw_lines s = drop_last_empty (split b'\n' s)

-- `dropCR` of `bufio`.
unfoldable pub drop_cr : Text → Text
drop_cr [] = []
drop_cr (c ∷ []) = if c == b'\r' then [] else c ∷ []
drop_cr (c ∷ d ∷ s) = c ∷ drop_cr (d ∷ s)

-- `bufio.MaxScanTokenSize`: a scanner fails on a line that does not fit with its newline.
abbrev pub max_scan_token_size : ℕ
max_scan_token_size = 65536

unfoldable pub too_long : Text → Bool
unfolding byte_len
too_long l = leb max_scan_token_size (byte_len l)
