-- ===== src/Backend/Start/Live.antt =====
-- A box that answers in time is found.
use mpd_virt_macos.Base.{
  ℕ, ◌<◌, ◌≤◌, ◌*◌, Option, some, Result, ok, err, ◌≡◌, sym, arith, ltb, Bool-cases, inl, inr, ◌∙◌,
}
use mpd_virt_macos.Text.{Text}
use mpd_virt_macos.Backend.{Backend}
use mpd_virt_macos.Backend.World.{World}
use mpd_virt_macos.Backend.State.{query_state}
use mpd_virt_macos.Backend.Locate.{LocateError, locate}
use mpd_virt_macos.Backend.Start.{budget, start, IsOutcome, start_lem}

module _ (worlds : ℕ → World) (clock : ℕ → ℕ) (before : World) (id : ℕ) (be : Backend)
    (last : Option Text) where
  abbrev limit : ℕ
  limit = budget be (query_state before id be)

  -- The search finds the address in round `k`, before which the budget was not spent.
  abbrev pub AnswersAt : ℕ → Text → Type 0
  AnswersAt k ip = (locate (worlds k) id be last ≡ ok ip) × ((j : ℕ) → j < k → clock j < limit)

  abbrev pub Found : ℕ → Type 0
  Found k =
      (n : ℕ) × (ip : Text) × ((start worlds clock before id be last).1 ≡ some (ok ip))
      × (n ≤ k)
      × (locate (worlds n) id be last ≡ ok ip)

  -- No later round decides.
  not_later :
      (k n : ℕ) (ip : Text) (r : Result LocateError Text)
      → AnswersAt k ip
      → IsOutcome worlds clock limit id be last 0 n r
      → n ≤ k
  not_later k n ip r (e, _) (_, earlier, _) = elim (Bool-cases (ltb k n)) [
    | inl b ↦ absurd (rw e at (earlier k (omega arith) (ground arith)).0)
    | inr b ↦ ground arith
  ]

  Found-outcome :
      (k n : ℕ) (ip : Text) (r : Result LocateError Text)
      → AnswersAt k ip
      → (start worlds clock before id be last).1 ≡ some r
      → IsOutcome worlds clock limit id be last 0 n r
      → Found k
  Found-outcome k n ip (ok a) h s o = (n, a, s, not_later k n ip (ok a) h o, sym o.0)
  Found-outcome k n ip (err x) h s o = elim (Bool-cases (ltb n k)) [
    | inl b ↦ absurd (too_late (h.1 n (ground arith)) (o.2 tt))
    | inr b ↦
        let here : n ≡ k = ground (arith, not_later k n ip (err x) h o) in
        absurd (never (o.0 ∙ rw here h.0))
  ]
    where
      too_late : clock n < limit → limit ≤ clock n → ⊥
      too_late a b = omega arith

      never : ◌≡◌ {A = Result LocateError Text} (err x) (ok ip) → ⊥
      never c = cc

  -- If the clock has gone on by two seconds for every round before, and in some round the search finds
  -- an address before the budget is spent: `Start` succeeds, with the address that the search found in
  -- that round or in an earlier one.
  pub start_succeeds : ((k : ℕ) → 2 * k ≤ clock k) → (k : ℕ) (ip : Text) → AnswersAt k ip → Found k
  start_succeeds tick k ip h =
      let (n, r, s, _, o, _) = start_lem worlds clock tick before id be last in
      Found-outcome k n ip r h s o
