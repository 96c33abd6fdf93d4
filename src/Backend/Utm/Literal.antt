-- ===== src/Backend/Utm/Literal.antt =====
-- A name in a script stays inside its string literal.
use mpd_virt_macos.Base.{
  ℕ, Bool, true, false, [], ◌∷◌, ◌++◌, ◌==◌, list_eq, nat_eq, ==_eq, if◌then◌else◌, Option, none,
  some, ◌≡◌, refl, Bool-cases, inl, inr, append_assoc, ◌||◌,
}
use mpd_virt_macos.Text.{Text}
use mpd_virt_macos.Backend.Utm.{replace_all, as_quote}

abbrev cons_read : ℕ → Option (Text × Text) → Option (Text × Text)
cons_read c none = none
cons_read c (some (s, rest)) = some (c ∷ s, rest)

-- How AppleScript reads a string literal behind its opening quote: up to the first quote that no
-- backslash escapes. The flag says that a backslash is pending; it escapes a backslash or a quote.
abbrev pub read_body : Bool → Text → Option (Text × Text)
read_body escaped [] = none
read_body true (c ∷ s) =
    let rest = read_body false s in if c == b'\\' || c == b'"' then cons_read c rest else none
read_body false (c ∷ s) =
    let rest = read_body false s in
    let escape = read_body true s in
    if c == b'"' then some ([], s) else if c == b'\\' then escape else cons_read c rest

-- A string literal at the start of the text: its value, and what stands behind it.
abbrev pub read_literal : Text → Option (Text × Text)
read_literal [] = none
read_literal (c ∷ s) = let body = read_body false s in if c == b'"' then body else none

abbrev escaped_text : Text → Text
escaped_text s = replace_all (replace_all s b'\\' (b'\\' ∷ b'\\' ∷ [])) b'"' (b'\\' ∷ b'"' ∷ [])

read_body-escaped_text :
    (s rest : Text) → read_body false (escaped_text s ++ b'"' ∷ rest) ≡ some (s, rest)
unfolding replace_all
read_body-escaped_text [] rest = refl
read_body-escaped_text (c ∷ s) rest = elim (Bool-cases (c == b'\\')) [
  | inl e ↦ rw (==_eq c b'\\' e) (rw (read_body-escaped_text s rest) refl)
  | inr e ↦ elim (Bool-cases (c == b'"')) [
    | inl q ↦ rw (==_eq c b'"' q) (rw (read_body-escaped_text s rest) refl)
    | inr q ↦ rw (e, q) (rw (e, q, read_body-escaped_text s rest) refl)
  ]
]

-- A text that `asQuote` renders is read by AppleScript as that text, and what follows the literal is
-- not touched: no name, however it is spelled, ends its literal early or reaches into the script.
pub read_literal-as_quote : (s rest : Text) → read_literal (as_quote s ++ rest) ≡ some (s, rest)
unfolding as_quote
read_literal-as_quote s rest =
    rw (append_assoc (escaped_text s) (b'"' ∷ []) rest) (read_body-escaped_text s rest)
