-- ===== src/Host/Number.antt =====
-- The package's own `itoa` against `strconv.Itoa`.
use mpd_virt_macos.Base.{
  ℕ, false, true, ap, zero, suc, ◌+◌, ◌/◌, ◌%◌, ◌<◌, ◌≤◌, ltb, [], ◌∷◌, ◌++◌, ◌==◌, nat_eq,
  if◌then◌else◌, ◌≡◌, refl, sym, ◌∙◌, arith, Bool-cases, inl, inr, append_assoc, append-nil,
}
use mpd_virt_macos.Text.{Text}
use mpd_virt_macos.Text.Decimal.{ℤ, pos, negsuc, digits}
use mpd_virt_macos.Text.Decimal as Strconv
use mpd_virt_macos.Host.{itoa_loop, itoa, min_int, negated, digits_of}

itoa_loop-zero : (fuel : ℕ) (acc : Text) → itoa_loop fuel 0 acc ≡ acc
unfolding itoa_loop
itoa_loop-zero zero acc = refl
itoa_loop-zero (suc fuel) acc = refl

-- The fuel of neither loop matters, if it is enough.
itoa_loop-digits :
    (fuel gas n : ℕ) (acc : Text)
    → 0 < n
    → n ≤ fuel
    → n ≤ gas
    → itoa_loop fuel n acc ≡ digits gas n ++ acc
unfolding itoa_loop digits
itoa_loop-digits zero gas n acc h k m = absurd (omega arith)
itoa_loop-digits (suc fuel) zero n acc h k m = absurd (omega arith)
itoa_loop-digits (suc fuel) (suc gas) n acc h k m = elim (Bool-cases (ltb n 10)) [
  | inl b ↦
      rw (positive, b) (rw (small b, itoa_loop-zero fuel ((b'0' + n % 10) ∷ acc)) (rw (own b) refl))
  | inr b ↦
      rw (positive, b)
        (itoa_loop-digits fuel gas (n / 10) ((b'0' + n % 10) ∷ acc) (ground arith) (omega arith)
            (omega arith)
          ∙ sym (append_assoc (digits gas (n / 10)) ((b'0' + n % 10) ∷ []) acc))
]
  where
    positive : (n == 0) ≡ false
    positive = ground arith

    small : ltb n 10 ≡ true → n / 10 ≡ 0
    small b = ground arith

    own : ltb n 10 ≡ true → n % 10 ≡ n
    own b = ground arith

abbrev pub minus_sign : Text → Text
minus_sign s = b'-' ∷ s

-- What `itoa` prints, in the words of `strconv.Itoa`.
abbrev pub printed : ℤ → Text
printed (pos n) = Strconv.itoa n
printed (negsuc n) = if suc n == min_int then minus_sign [] else minus_sign (Strconv.itoa (suc n))

itoa_loop-itoa : (m : ℕ) → itoa_loop (suc m) (suc m) [] ≡ Strconv.itoa (suc m)
unfolding Strconv.itoa
itoa_loop-itoa m =
    itoa_loop-digits (suc m) (suc (suc m)) (suc m) [] (omega arith) (omega arith) (omega arith)
    ∙ append-nil (digits (suc (suc m)) (suc m))

-- The `itoa` of the package, which fills a buffer from its end: on a number that is not negative it is
-- `strconv.Itoa`, on a negative one above the least `int` it is a minus sign and the decimal form of
-- the amount, and on the least `int`, whose negative is itself, it is the minus sign alone.
pub itoa_lem : (z : ℤ) → itoa z ≡ printed z
unfolding itoa digits_of negated Strconv.itoa
itoa_lem (pos zero) = refl
itoa_lem (pos (suc m)) = itoa_loop-itoa m
itoa_lem (negsuc n) = elim (Bool-cases (suc n == min_int)) [
  | inl e ↦ rw e refl
  | inr e ↦ rw e (ap minus_sign (itoa_loop-itoa n))
]
