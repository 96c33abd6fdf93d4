-- ===== src/Text/Search.antt =====
-- Laws of `strings.HasPrefix`, `strings.Contains`, `strings.HasSuffix` and `strings.Cut`.
use mpd_virt_macos.Base.{
  ℕ, Bool, true, false, All, all, not, ◌==◌, ◌||◌, List, [], ◌∷◌, ◌++◌, ◌≡◌, ◌≢◌, refl, arith, any,
  Lacks, nat_eq, ==_self, some, list_eq,
}
use mpd_virt_macos.Text.{Text, has_prefix, contains, join, cut, has_suffix}

pub has_prefix-append : (p s : Text) → has_prefix p (p ++ s) ≡ true
unfolding has_prefix
has_prefix-append [] s = refl
has_prefix-append (c ∷ p) s = ground (arith, has_prefix-append p s)

-- What a prefix with no separator says of a line does not depend on the lines below.
has_prefix-line : (b : ℕ) (p s t : Text) → Lacks b p → has_prefix p (s ++ b ∷ t) ≡ has_prefix p s
unfolding has_prefix
has_prefix-line b [] s t h = refl
has_prefix-line b (c ∷ p) [] t h = ground (arith, h.0)
has_prefix-line b (c ∷ p) (d ∷ s) t h = ground (arith, has_prefix-line b p s t h.1)

pub contains-append : (sub a s : Text) → contains sub (a ++ (sub ++ s)) ≡ true
unfolding contains
contains-append [] [] [] = unfold has_prefix in refl
contains-append [] [] (c ∷ s) = unfold has_prefix in refl
contains-append (p ∷ ps) [] s = ground (arith, has_prefix-append (p ∷ ps) s)
contains-append sub (c ∷ a) s = ground (arith, contains-append sub a s)

contains-line :
    (b : ℕ) (sub s t : Text)
    → Lacks b sub
    → sub ≢ []
    → contains sub (s ++ b ∷ t) ≡ (contains sub s || contains sub t)
unfolding contains
contains-line b [] s t h n = absurd (n refl)
contains-line b (p ∷ ps) [] t h n = unfold has_prefix in ground (arith, h.0)
contains-line b (p ∷ ps) (c ∷ s) t h n =
    ground (arith, contains-line b (p ∷ ps) s t h n, has_prefix-line b (p ∷ ps) (c ∷ s) t h)

-- A text with no separator stands in joined lines exactly if it stands in one of them.
pub contains-join :
    (b : ℕ) (sub : Text) (ls : List Text)
    → Lacks b sub
    → sub ≢ []
    → contains sub (join (b ∷ []) ls) ≡ any (contains sub) ls
unfolding join
contains-join b [] ls h n = absurd (n refl)
contains-join b (p ∷ ps) [] h n = unfold contains has_prefix in refl
contains-join b (p ∷ ps) (l ∷ []) h n = ground arith
contains-join b (p ∷ ps) (l ∷ m ∷ ls) h n =
    rw (
      contains-line b (p ∷ ps) l (join (b ∷ []) (m ∷ ls)) h n,
      contains-join b (p ∷ ps) (m ∷ ls) h n,
    )

-- A text that holds `sub` holds each of its runes.
pub has_prefix-Lacks : (b : ℕ) (p s : Text) → Lacks b s → has_prefix p s ≡ true → Lacks b p
unfolding has_prefix
has_prefix-Lacks b [] s h e = tt
has_prefix-Lacks b (c ∷ p) [] h e = cc
has_prefix-Lacks b (c ∷ p) (d ∷ s) h e = ground (arith, has_prefix-Lacks b p s h.1, h.0)

pub cut-append : (b : ℕ) (k v : Text) → Lacks b k → cut b (k ++ b ∷ v) ≡ some (k, v)
unfolding cut
cut-append b [] v h = ground arith
cut-append b (c ∷ k) v h = ground (arith, cut-append b k v h.1, h.0)

pub has_suffix-append : (p s : Text) → has_suffix p (s ++ p) ≡ true
unfolding has_suffix
has_suffix-append [] [] = ground (arith, ==_self {A = Text} [])
has_suffix-append (c ∷ p) [] = ground (arith, ==_self (c ∷ p))
has_suffix-append p (c ∷ s) = ground (arith, has_suffix-append p s)

-- The runes of a literal are tested.
pub Lacks-test : (b : ℕ) (s : Text) → all (λ c. not (c == b)) s ≡ true → Lacks b s
Lacks-test b [] h = tt
Lacks-test b (c ∷ s) h = (ground arith, Lacks-test b s (ground arith))

has_prefix_absent : (b : ℕ) (p q s : Text) → Lacks b s → has_prefix (p ++ b ∷ q) s ≡ false
unfolding has_prefix
has_prefix_absent b [] q [] h = refl
has_prefix_absent b [] q (c ∷ s) h = ground (arith, h.0)
has_prefix_absent b (d ∷ p) q [] h = refl
has_prefix_absent b (d ∷ p) q (c ∷ s) h = ground (arith, has_prefix_absent b p q s h.1)

-- A text that lacks one rune of another does not contain it.
pub contains_absent : (b : ℕ) (p q s : Text) → Lacks b s → contains (p ++ b ∷ q) s ≡ false
unfolding contains
contains_absent b p q [] h = has_prefix_absent b p q [] tt
contains_absent b p q (c ∷ s) h =
    ground (arith, has_prefix_absent b p q (c ∷ s) h, contains_absent b p q s h.1)

pub any_none : (p : Text → Bool) (ls : List Text) → All (λ l. p l ≡ false) ls → any p ls ≡ false
any_none p [] h = refl
any_none p (l ∷ ls) h = rw (h.0, any_none p ls h.1)
