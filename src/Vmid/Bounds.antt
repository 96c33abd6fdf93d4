-- ===== src/Vmid/Bounds.antt =====
-- Which ids `Parse` returns, and that it reads back every padded id.
use mpd_virt_macos.Base.{
  ℕ, zero, suc, ◌≤◌, Bool, true, false, ◌&&◌, [], ◌∷◌, ◌≡◌, refl, sym, ◌∙◌, ap, arith, Result, ok,
  none, some, length, all, All, All-append, ◌==◌, nat_eq, list_eq, ==_eq, Lacks, ◌≢◌,
}
use mpd_virt_macos.Text.{Text, codes, is_space, byte_len}
use mpd_virt_macos.Text.Trim.{IsSolid}
use mpd_virt_macos.Text.Decimal.{pos, negsuc, atoi, is_digit}
use mpd_virt_macos.Env.Laws.{IsStorable, IsSolid-IsValue, byte_len-append}
use mpd_virt_macos.Vmid.{ParseError, parse, pad, name, zone}
use mpd_virt_macos.Base.{Bool-cases, leb, inl, inr, ◌≤◌}

-- A box id: the third octet of 10.163.<NNN>.0/24.
abbrev pub IsBoxId : ℕ → Type 0
IsBoxId n = (1 ≤ n) × (n ≤ 254)

-- An id that `Parse` returns is from 1 to 254, and it is the number that `Atoi` reads.
pub parse_sound : (s : Text) {n : ℕ} → parse s ≡ ok n → IsBoxId n × (atoi s ≡ some (pos n))
unfolding parse
parse_sound s h = ground arith

-- `Parse` accepts every text that `Atoi` reads as a box id, and returns the id.
pub parse_complete : (s : Text) (n : ℕ) → atoi s ≡ some (pos n) → IsBoxId n → parse s ≡ ok n
unfolding parse
parse_complete s n h b = ground arith

-- Does the test hold of every number up to the bound, the bound included?
table : (ℕ → Bool) → ℕ → Bool
table test zero = test 0
table test (suc last) = table test last && test (suc last)

table-row : (test : ℕ → Bool) (last row : ℕ) → row ≤ last → table test last ≡ true → test row ≡ true
unfolding table
table-row test zero row h all_rows = rw (only row h) all_rows
  where
    only : (r : ℕ) → r ≤ 0 → r ≡ 0
    only r k = omega arith
table-row test (suc last) row h all_rows = elim (Bool-cases (leb row last)) [
  | inl b ↦ table-row test last row (ground arith) (ground arith)
  | inr b ↦ rw (top b) (ground arith)
]
  where
    top : leb row last ≡ false → row ≡ suc last
    top b = ground arith

is_read_back : ℕ → Bool
is_read_back n = elim (atoi (pad n)) [
  | none ↦ false
  | some z ↦ elim z [ pos m ↦ m == n | negsuc m ↦ false ]
]

is_read_back_sound : (n : ℕ) → is_read_back n ≡ true → atoi (pad n) ≡ some (pos n)
unfolding is_read_back
is_read_back_sound n h = ground arith

pad-table : table (λ n. is_read_back n && (all is_digit (pad n) && length (pad n) == 3)) 254 ≡ true
unfolding table is_read_back pad atoi
pad-table = refl

and_parts : (a b : Bool) → (a && b) ≡ true → (a ≡ true) × (b ≡ true)
and_parts a b h = ground arith

module _ (n : ℕ) (b : IsBoxId n) where
  row : (is_read_back n ≡ true) × ((all is_digit (pad n) && length (pad n) == 3) ≡ true)
  row = and_parts _ _ (table-row _ 254 n (omega arith) pad-table)

  pub all-is_digit-pad : all is_digit (pad n) ≡ true
  all-is_digit-pad = (and_parts _ _ row.1).0

  pub length-pad : length (pad n) ≡ 3
  length-pad = ==_eq _ _ (and_parts (all is_digit (pad n)) _ row.1).1

  -- The padded form of an id from 1 to 254 is three digits, and `Parse` reads the id back from
  -- it.
  pub parse-pad : (parse (pad n) ≡ ok n) × (length (pad n) ≡ 3) × (all is_digit (pad n) ≡ true)
  parse-pad = (parse_complete _ n (is_read_back_sound n row.0) b, length-pad, all-is_digit-pad)

-- Two box ids with one padded form are one id.
pub pad-injective : (m n : ℕ) → IsBoxId m → IsBoxId n → pad m ≡ pad n → m ≡ n
pad-injective m n bm bn e = ok-injective (sym (parse-pad m bm).0 ∙ ap parse e ∙ (parse-pad n bn).0)
  where
    ok-injective : {a b : ℕ} → ◌≡◌ {A = Result ParseError ℕ} (ok a) (ok b) → a ≡ b
    ok-injective h = cc

-- Digits are neither white space nor any other rune.
pub digits-Lacks : (c : ℕ) (s : Text) → is_digit c ≡ false → all is_digit s ≡ true → Lacks c s
digits-Lacks c [] h k = tt
digits-Lacks c (d ∷ s) h k =
    (digit_ne c d h (and_parts _ _ k).0, digits-Lacks c s h (and_parts _ _ k).1)
  where
    digit_ne : (c d : ℕ) → is_digit c ≡ false → is_digit d ≡ true → d ≢ c
    digit_ne c d h k = λ e. ground (arith, ap is_digit e)

digit-solid : (c : ℕ) → is_digit c ≡ true → is_space c ≡ false
unfolding is_digit is_space
digit-solid c h = ground arith

pub digits-IsSolid : (s : Text) → all is_digit s ≡ true → IsSolid s
digits-IsSolid [] h = tt
digits-IsSolid (c ∷ s) h = (digit-solid c (and_parts _ _ h).0, digits-IsSolid s (and_parts _ _ h).1)

pub byte_len-digits : (s : Text) → all is_digit s ≡ true → byte_len s ≡ length s
unfolding byte_len is_digit
byte_len-digits [] h = refl
byte_len-digits (c ∷ s) h = ground (arith, byte_len-digits s)

module _ (n : ℕ) (b : IsBoxId n) where
  pub pad-IsSolid : IsSolid (pad n)
  pad-IsSolid = digits-IsSolid (pad n) (all-is_digit-pad n b)

  pub name-IsSolid : IsSolid (name n)
  unfolding name
  name-IsSolid = All-append (λ c. is_space c ≡ false) (codes "mpd-") (pad n) mpd_solid pad-IsSolid
    where
      mpd_solid : IsSolid (codes "mpd-")
      mpd_solid = unfold is_space in (refl, (refl, (refl, (refl, tt))))

  pub pad-IsStorable : IsStorable (pad n)
  pad-IsStorable = record {
    value = IsSolid-IsValue (pad n) pad-IsSolid;
    short = omega (arith, byte_len-digits (pad n) (all-is_digit-pad n b), length-pad n b);
  }

  pub name-IsStorable : IsStorable (name n)
  name-IsStorable = record {
    value = IsSolid-IsValue (name n) name-IsSolid;
    short =
        unfold name in
        let four : byte_len (codes "mpd-") ≡ 4 = unfold byte_len in refl in
        omega (
          arith,
          byte_len-append (codes "mpd-") (pad n),
          four,
          pad-IsStorable.short,
          byte_len-digits (pad n) (all-is_digit-pad n b),
          length-pad n b,
        );
  }

-- The runes of a name and of a zone satisfy what digits and the literal parts satisfy.
module _ (P : ℕ → Type 0) (digit : (c : ℕ) → is_digit c ≡ true → P c) (n : ℕ) (b : IsBoxId n) where
  digits-All : (s : Text) → all is_digit s ≡ true → All P s
  digits-All [] h = tt
  digits-All (c ∷ s) h = (digit c (and_parts _ _ h).0, digits-All s (and_parts _ _ h).1)

  pub name-All : All P (codes "mpd-") → All P (name n)
  unfolding name
  name-All h = All-append P (codes "mpd-") (pad n) h (digits-All (pad n) (all-is_digit-pad n b))

  pub zone-All : All P (codes ".mpd.test") → All P (zone n)
  unfolding zone
  zone-All h =
      All-append P (pad n) (codes ".mpd.test") (digits-All (pad n) (all-is_digit-pad n b)) h
