-- ===== src/Backend/Utm/Size.antt =====
-- go/internal/backend/utm.go: the sizes of memory and disk, with Go's 64-bit `int`.
use mpd_virt_macos.Base.{
  ℕ, zero, suc, ◌+◌, ◌-◌, ◌*◌, ◌/◌, ◌%◌, ◌^◌, ◌<◌, Bool, true, false, [], ◌==◌, list_eq, nat_eq,
  if◌then◌else◌, ltb, Option, none, some, ◌≡◌, refl, sym, ap, arith,
}
use mpd_virt_macos.Text.{Text, codes, to_lower, trim_space, has_suffix, trim_suffix}
use mpd_virt_macos.Text.Decimal.{ℤ, pos, negsuc, atoi}

-- The 64 bits of an integer, as a number, and the integer that they stand for.
abbrev pub bits_of : ℤ → ℕ
bits_of (pos n) = n % 2 ^ 64
bits_of (negsuc n) = 2 ^ 64 - 1 - n % 2 ^ 64

abbrev pub of_bits : ℕ → ℤ
of_bits b = if ltb b (2 ^ 63) then pos b else negsuc (2 ^ 64 - 1 - b)

-- `n * 1024`
unfoldable pub times_1024 : ℤ → ℤ
times_1024 z = of_bits (bits_of z * 1024 % 2 ^ 64)

abbrev negated : ℕ → ℤ
negated zero = pos 0
negated (suc n) = negsuc n

-- `n / 1024`, which rounds towards zero.
unfoldable pub over_1024 : ℤ → ℤ
over_1024 (pos n) = pos (n / 1024)
over_1024 (negsuc n) = negated (suc n / 1024)

abbrev sized : (ℤ → ℤ) → Option ℤ → ℤ
sized f none = pos 0
sized f (some n) = f n

abbrev unchanged : ℤ → ℤ
unchanged n = n

-- The switch of both functions, on the text trimmed and in lower case.
abbrev by_unit : (ℤ → ℤ) → (ℤ → ℤ) → Text → ℤ
by_unit of_giga of_mega s =
    if s == []
    then pos 0
    else if has_suffix (codes "g") s
    then sized of_giga (atoi (trim_suffix (codes "g") s))
    else if has_suffix (codes "m") s
    then sized of_mega (atoi (trim_suffix (codes "m") s))
    else sized of_mega (atoi s)

unfoldable pub parse_size_mib : Text → ℤ
unfolding times_1024
parse_size_mib s = by_unit times_1024 unchanged (to_lower (trim_space s))

unfoldable pub parse_size_gib : Text → ℤ
unfolding over_1024
parse_size_gib s = by_unit unchanged over_1024 (to_lower (trim_space s))

-- From -2^53 to 2^53 - 1.
abbrev pub IsModest : ℤ → Type 0
IsModest (pos n) = n < 2 ^ 53
IsModest (negsuc n) = n < 2 ^ 53

times-pos : (n : ℕ) → n < 2 ^ 53 → times_1024 (pos n) ≡ pos (n * 1024)
unfolding times_1024
times-pos n h = rw (small, product) (rw fits refl)
  where
    small : n % 2 ^ 64 ≡ n
    small = omega arith

    product : n * 1024 % 2 ^ 64 ≡ n * 1024
    product = omega arith

    fits : ltb (n * 1024) (2 ^ 63) ≡ true
    fits = ground arith

times-negsuc : (n : ℕ) → n < 2 ^ 53 → times_1024 (negsuc n) ≡ negsuc (n * 1024 + 1023)
unfolding times_1024
times-negsuc n h = rw (small, product) (rw (large, back) refl)
  where
    small : n % 2 ^ 64 ≡ n
    small = omega arith

    product : (2 ^ 64 - 1 - n) * 1024 % 2 ^ 64 ≡ 2 ^ 64 - (n + 1) * 1024
    product = omega arith

    large : ltb (2 ^ 64 - (n + 1) * 1024) (2 ^ 63) ≡ false
    large = ground arith

    back : 2 ^ 64 - 1 - (2 ^ 64 - (n + 1) * 1024) ≡ n * 1024 + 1023
    back = omega arith

over-times : (z : ℤ) → IsModest z → over_1024 (times_1024 z) ≡ z
unfolding over_1024
over-times (pos n) h = rw (times-pos n h) (rw whole refl)
  where
    whole : n * 1024 / 1024 ≡ n
    whole = omega arith
over-times (negsuc n) h = rw (times-negsuc n h) (ap negated whole)
  where
    whole : suc (n * 1024 + 1023) / 1024 ≡ suc n
    whole = omega arith

over-sized : (o : Option ℤ) → over_1024 (sized unchanged o) ≡ sized over_1024 o
unfolding over_1024
over-sized none = refl
over-sized (some z) = refl

over-sized_times :
    (o : Option ℤ)
    → IsModest (sized unchanged o)
    → over_1024 (sized times_1024 o) ≡ sized unchanged o
unfolding over_1024
over-sized_times none h = refl
over-sized_times (some z) h = over-times z h

over-by_unit :
    (s : Text)
    → IsModest (by_unit unchanged over_1024 s)
    → over_1024 (by_unit times_1024 unchanged s) ≡ by_unit unchanged over_1024 s
over-by_unit s h =
    by_tests (s == []) (has_suffix (codes "g") s) (has_suffix (codes "m") s)
      (atoi (trim_suffix (codes "g") s)) (atoi (trim_suffix (codes "m") s)) (atoi s) h
  where
    by_tests :
        (empty giga mega : Bool) (g m n : Option ℤ)
        → IsModest (
            if empty
            then pos 0
            else if giga
            then sized unchanged g
            else if mega
            then sized over_1024 m
            else sized over_1024 n)
        → over_1024 (
            if empty
            then pos 0
            else if giga
            then sized times_1024 g
            else if mega
            then sized unchanged m
            else sized unchanged n)
          ≡ (if empty
              then pos 0
              else if giga
              then sized unchanged g
              else if mega
              then sized over_1024 m
              else sized over_1024 n)
    by_tests true giga mega g m n k = unfold over_1024 in refl
    by_tests false true mega g m n k = over-sized_times g k
    by_tests false false true g m n k = over-sized m
    by_tests false false false g m n k = over-sized n

-- The two readings of one size agree: if the size in gibibytes is from -2^53 to 2^53 - 1, what
-- `parseSizeGiB` returns is what `parseSizeMiB` returns, divided by 1024.
pub parse_size_gib_lem :
    (s : Text) → IsModest (parse_size_gib s) → parse_size_gib s ≡ over_1024 (parse_size_mib s)
unfolding parse_size_gib parse_size_mib
parse_size_gib_lem s h = sym (over-by_unit (to_lower (trim_space s)) h)
