-- ===== src/Server/Labels.antt =====
-- Which names `Normalise` accepts, and that they are never the zone of a box.
use mpd_virt_macos.Base.{
  ℕ, true, false, all, [], ◌∷◌, ◌++◌, list_eq, nat_eq, ==_ne, ==_self, list_beq_iff, Result, ok,
  err, ◌≡◌, ◌≢◌, ◌∙◌, sym, refl, ap, arith, All, Lacks, length, length-append, Bool-cases, inl, inr,
}
use mpd_virt_macos.Text.{
  Text, codes, is_space, to_lower, to_lower_rune, trim_space, has_prefix, has_suffix, trim_suffix,
  contains,
}
use mpd_virt_macos.Text.Decimal.{is_digit}
use mpd_virt_macos.Text.Trim.{IsSolid, IsSolid-IsTrimmed}
use mpd_virt_macos.Text.Search.{contains_absent, has_suffix-append}
use mpd_virt_macos.Vmid.{pad, zone}
use mpd_virt_macos.Vmid.Bounds.{IsBoxId, all-is_digit-pad, length-pad, byte_len-digits}
use mpd_virt_macos.Server.{
  NameError, vm_zone_name, label_rune, check_label, normalise, service_host, is_vm_zone_label,
  suffix,
}
use mpd_virt_macos.Base.{All-append, ap₂, subst}
use mpd_virt_macos.Server.{root_domain}

-- A label that may name a LAN service.
pub record IsLabel (l : Text) : Type 0 where
  pub not_empty : l ≢ []
  pub runes : all label_rune l ≡ true
  pub no_zone : is_vm_zone_label l ≡ false
  pub no_hyphen_first : has_prefix (codes "-") l ≡ false
  pub no_hyphen_last : has_suffix (codes "-") l ≡ false

check_label_sound : (l m : Text) → check_label l ≡ ok m → (l ≡ m) × IsLabel l
unfolding check_label
check_label_sound l m h = ground (arith, list_beq_iff l [])

rune_facts :
    (c : ℕ) → label_rune c ≡ true → (is_space c ≡ false) × (to_lower_rune c ≡ c) × (c ≢ b'.')
unfolding label_rune is_space to_lower_rune
rune_facts c h = ground arith

-- Runes that trimming and lower case leave alone.
IsStill : Text → Type 0
IsStill = All (λ c. (is_space c ≡ false) × (to_lower_rune c ≡ c))

IsStill-runes : (l : Text) → all label_rune l ≡ true → IsStill l × Lacks b'.' l
unfolding IsStill
IsStill-runes [] h = (tt, tt)
IsStill-runes (c ∷ l) h =
    let rest = IsStill-runes l (ground arith) in
    let first = rune_facts c (ground arith) in (((first.0, first.1), rest.0), (first.2, rest.1))

IsStill-append : (s t : Text) → IsStill s → IsStill t → IsStill (s ++ t)
unfolding IsStill
IsStill-append s t h k = All-append _ s t h k

to_lower-IsStill : (s : Text) → IsStill s → to_lower s ≡ s
unfolding IsStill to_lower
to_lower-IsStill [] h = refl
to_lower-IsStill (c ∷ s) h = ap₂ ◌∷◌ h.0.1 (to_lower-IsStill s h.1)

IsStill-IsSolid : (s : Text) → IsStill s → IsSolid s
unfolding IsStill
IsStill-IsSolid [] h = tt
IsStill-IsSolid (c ∷ s) h = (h.0.0, IsStill-IsSolid s h.1)

suffix-IsStill : IsStill suffix
unfolding IsStill is_space to_lower_rune
suffix-IsStill = (
  (refl, refl),
  (
    (refl, refl),
    (
      (refl, refl),
      (
        (refl, refl),
        ((refl, refl), ((refl, refl), ((refl, refl), ((refl, refl), ((refl, refl), tt))))),
      ),
    ),
  ),
)

-- The trimmed and lowered form of a still text is the text.
lowered : (s : Text) → IsStill s → to_lower (trim_space s) ≡ s
lowered s h = rw (IsSolid-IsTrimmed s (IsStill-IsSolid s h)) (to_lower-IsStill s h)

has_suffix_absent : (b : ℕ) (q s : Text) → Lacks b s → has_suffix (b ∷ q) s ≡ false
unfolding has_suffix
has_suffix_absent b q [] h = ==_ne (b ∷ q) [] (λ e. cc)
has_suffix_absent b q (c ∷ s) h =
    rw (==_ne (b ∷ q) (c ∷ s) (λ e. h.0 (sym (heads e)))) (has_suffix_absent b q s h.1)
  where
    heads : {c d : ℕ} {s t : Text} → ◌≡◌ {A = Text} (c ∷ s) (d ∷ t) → c ≡ d
    heads e = cc

trim_suffix-append : (p s : Text) → trim_suffix p (s ++ p) ≡ s
unfolding trim_suffix
trim_suffix-append [] [] = refl
trim_suffix-append (d ∷ p) [] = rw (==_self (d ∷ p))
trim_suffix-append p (c ∷ s) =
    rw (==_ne p (c ∷ (s ++ p)) longer) (ap (◌∷◌ c) (trim_suffix-append p s))
  where
    longer : p ≢ c ∷ (s ++ p)
    longer e = omega (arith, ap length e, length-append s p)

-- `Normalise` is decided by the label, with or without the root domain behind it.
normalise-check_label :
    (l : Text)
    → IsStill l
    → Lacks b'.' l
    → (normalise l ≡ check_label l) × (normalise (service_host l) ≡ check_label l)
unfolding normalise service_host
normalise-check_label l h k = (
  rw (lowered l h, has_suffix_absent b'.' root_domain l k, contains_absent b'.' [] [] l k),
  rw (
    lowered (l ++ suffix) (IsStill-append l suffix h suffix-IsStill),
    has_suffix-append suffix l,
    trim_suffix-append suffix l,
  ),
)

check_label_complete : (l : Text) → IsLabel l → check_label l ≡ ok l
unfolding check_label
check_label_complete l h = rw (
  ==_ne l [] h.not_empty,
  contains_absent b'.' [] [] l (IsStill-runes l h.runes).1,
  h.no_zone,
  h.runes,
  h.no_hyphen_first,
  h.no_hyphen_last,
)

check_label-normalise : (s l : Text) → normalise s ≡ ok l → (m : Text) × (check_label m ≡ ok l)
unfolding normalise
check_label-normalise s l h =
    let label = to_lower (trim_space s) in
    elim (Bool-cases (has_suffix suffix label)) [
      | inl under ↦ (trim_suffix suffix label, rw under at h)
      | inr bare ↦ elim (Bool-cases (contains (codes ".") label)) [
        | inl dotted ↦ absurd (refused (rw (bare, dotted) at h))
        | inr plain ↦ (label, rw (bare, plain) at h)
      ]
    ]
  where
    refused : {x : NameError} {m : Text} → ◌≡◌ {A = Result NameError Text} (err x) (ok m) → ⊥
    refused e = cc

-- A name that `Normalise` returns is a label: not empty, of lower-case letters, digits and inner
-- hyphens, and not three digits.
pub normalise_sound : (s : Text) {l : Text} → normalise s ≡ ok l → IsLabel l
normalise_sound s {l} h =
    let (m, k) = check_label-normalise s l h in
    let (e, lab) = check_label_sound m l k in subst IsLabel e lab

-- `Normalise` accepts every label (not empty, of lower-case letters, digits and inner hyphens,
-- not three digits), bare and under the root domain, and returns it unchanged.
pub normalise_complete :
    (l : Text) → IsLabel l → (normalise l ≡ ok l) × (normalise (service_host l) ≡ ok l)
normalise_complete l h =
    let (still, dots) = IsStill-runes l h.runes in
    let (bare, full) = normalise-check_label l still dots in
    (bare ∙ check_label_complete l h, full ∙ check_label_complete l h)

digit_facts : (c : ℕ) → is_digit c ≡ true → label_rune c ≡ true
unfolding is_digit label_rune
digit_facts c h = ground arith

digits_runes : (s : Text) → all is_digit s ≡ true → all label_rune s ≡ true
digits_runes [] h = refl
digits_runes (c ∷ s) h = rw (digit_facts c (ground arith)) (digits_runes s (ground arith))

is_vm_zone_label-pad : (n : ℕ) → IsBoxId n → is_vm_zone_label (pad n) ≡ true
unfolding is_vm_zone_label
is_vm_zone_label-pad n b =
    rw (byte_len-digits (pad n) (all-is_digit-pad n b), length-pad n b) (all-is_digit-pad n b)

check_label-pad : (n : ℕ) → IsBoxId n → check_label (pad n) ≡ err vm_zone_name
unfolding check_label
check_label-pad n b = rw (
  ==_ne (pad n) [] not_empty,
  contains_absent b'.' [] [] (pad n)
      (IsStill-runes (pad n) (digits_runes (pad n) (all-is_digit-pad n b))).1,
  is_vm_zone_label-pad n b,
)
  where
    not_empty : pad n ≢ []
    not_empty e = omega (arith, ap length e, length-pad n b)

zone-service_host : (n : ℕ) → zone n ≡ service_host (pad n)
unfolding zone service_host
zone-service_host n = refl

service_host-injective : (l m : Text) → service_host l ≡ service_host m → l ≡ m
unfolding service_host
service_host-injective l m e =
    sym (trim_suffix-append suffix l) ∙ ap (trim_suffix suffix) e ∙ trim_suffix-append suffix m

-- For a box id from 1 to 254: `Normalise` refuses its padded number and its zone, and no name
-- that it accepts for a LAN server has the zone for its DNS name.
pub zones_apart :
    (n : ℕ)
    → IsBoxId n
    → (normalise (pad n) ≡ err vm_zone_name)
      × (normalise (zone n) ≡ err vm_zone_name)
      × ((s l : Text) → normalise s ≡ ok l → service_host l ≢ zone n)
zones_apart n b =
    let (still, dots) = IsStill-runes (pad n) (digits_runes (pad n) (all-is_digit-pad n b)) in
    let (bare, full) = normalise-check_label (pad n) still dots in
    (
      bare ∙ check_label-pad n b,
      rw (zone-service_host n) (full ∙ check_label-pad n b),
      λ s l h e.
          let same : l ≡ pad n = service_host-injective l (pad n) (e ∙ zone-service_host n) in
          true_ne_false (
            sym (is_vm_zone_label-pad n b)
            ∙ ap is_vm_zone_label (sym same)
            ∙ (normalise_sound s h).no_zone),
    )
  where
    true_ne_false : true ≡ false → ⊥
    true_ne_false e = cc

pub IsLabel-IsSolid : (l : Text) → IsLabel l → IsSolid l
IsLabel-IsSolid l h = IsStill-IsSolid l (IsStill-runes l h.runes).0

pub service_host-IsSolid : (l : Text) → IsLabel l → IsSolid (service_host l)
unfolding service_host
service_host-IsSolid l h =
    IsStill-IsSolid (l ++ suffix)
      (IsStill-append l suffix (IsStill-runes l h.runes).0 suffix-IsStill)
