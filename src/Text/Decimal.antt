-- ===== src/Text/Decimal.antt =====
-- `strconv.Atoi`, `strconv.Itoa` and `%03d`.
use mpd_virt_macos.Base.{
  ℕ, zero, suc, ◌+◌, ◌-◌, ◌*◌, ◌/◌, ◌%◌, ◌^◌, Bool, ◌&&◌, [], ◌∷◌, ◌++◌, ◌≡◌, refl, Option, none,
  some, ltb, leb, ◌==◌, nat_eq, if◌then◌else◌,
}
use mpd_virt_macos.Text.{Text, codes}

-- Go's `int`. `negsuc n` is -(n + 1).
pub data ℤ : Type 0 where
  pos : ℕ → ℤ
  negsuc : ℕ → ℤ

unfoldable pub is_digit : ℕ → Bool
is_digit c = leb b'0' c && leb c b'9'

-- The number that digits spell behind `n`; `none` at a rune that is no digit.
unfoldable pub scan_digits : ℕ → Text → Option ℕ
unfolding is_digit
scan_digits n [] = some n
scan_digits n (c ∷ s) =
    let rest = scan_digits (n * 10 + (c - b'0')) s in if is_digit c then rest else none

unfoldable pub scan_number : Text → Option ℕ
unfolding scan_digits
scan_number [] = none
scan_number (c ∷ s) = scan_digits 0 (c ∷ s)

abbrev plus : Option ℕ → Option ℤ
plus none = none
plus (some n) = if ltb n (2 ^ 63) then some (pos n) else none

abbrev minus : Option ℕ → Option ℤ
minus none = none
minus (some zero) = some (pos 0)
minus (some (suc n)) = if ltb n (2 ^ 63) then some (negsuc n) else none

-- `strconv.Atoi`: a sign is allowed, and a number that does not fit in an `int` is an error.
unfoldable pub atoi : Text → Option ℤ
unfolding scan_number
atoi [] = none
atoi (c ∷ s) =
    if c == b'-'
    then minus (scan_number s)
    else if c == b'+'
    then plus (scan_number s)
    else plus (scan_number (c ∷ s))

unfoldable pub digits : ℕ → ℕ → Text
digits zero n = []
digits (suc f) n =
    let rest = digits f (n / 10) in
    if ltb n 10 then (b'0' + n) ∷ [] else rest ++ (b'0' + n % 10) ∷ []

-- `strconv.Itoa` at a number that is not negative: n digits are enough for n + 1.
unfoldable pub itoa : ℕ → Text
unfolding digits
itoa n = digits (suc n) n

-- `%03d`
unfoldable pub pad3 : ℕ → Text
unfolding itoa
pad3 n = if ltb n 10 then b'0' ∷ b'0' ∷ itoa n else if ltb n 100 then b'0' ∷ itoa n else itoa n

itoa_examples : (itoa 0 ≡ codes "0") × (itoa 254 ≡ codes "254") × (pad3 7 ≡ codes "007")
unfolding pad3
itoa_examples = (refl, refl, refl)

atoi_examples :
    (atoi (codes "+5") ≡ some (pos 5))
    × (atoi (codes "-3") ≡ some (negsuc 2))
    × (atoi (codes "9223372036854775808") ≡ none)
    × (atoi (codes "1_0") ≡ none)
    × (atoi [] ≡ none)
unfolding atoi
atoi_examples = (refl, refl, refl, refl, refl)
