-- ===== src/Backend/Start.antt =====
-- go/internal/backend/start.go: bringing a box up and waiting for its address. The machine may answer
-- differently at every moment: `before` is what it answers to the power verb, `worlds k` what it
-- answers in round `k` of the wait, and `clock k` the whole seconds since the start of the wait when
-- the address search of that round is over.
pub mod Live
pub mod Ended
use mpd_virt_macos.Base.{
  ℕ, ◌<◌, ◌≤◌, ◌+◌, ◌*◌, zero, suc, true, false, not, ◌&&◌, ltb, List, Option, none, some, Result,
  ok, err, ◌≡◌, refl, sym, subst, if◌then◌else◌, arith, Bool-cases, inl, inr,
}
use mpd_virt_macos.Text.{Text}
use mpd_virt_macos.Backend.{Backend, managed}
use mpd_virt_macos.Backend.World.{World}
use mpd_virt_macos.Backend.State.{VmState, query_state}
use mpd_virt_macos.Backend.Power.{Report, is_running, power_on}
use mpd_virt_macos.Backend.Locate.{LocateError, locate}
use mpd_virt_macos.Backend.Locate.Answers.{IsAnswered, locate-IsAnswered}
use mpd_virt_macos.Base.{Result-cases}

-- How long `Start` waits, in seconds, for a box that was in the state `was`.
unfoldable pub budget : Backend → VmState → ℕ
budget be was = if managed be && not (is_running was) then 90 else 20

-- 46 rounds: the longest wait is 90 seconds.
abbrev pub start_fuel : ℕ
start_fuel = 46

module _ (worlds : ℕ → World) (clock : ℕ → ℕ) where
  -- The loop of `Start`, from round `k`: the address of the box, or the error of the round in which
  -- the time was up; `none` if the fuel is.
  unfoldable pub wait_loop :
      ℕ → ℕ → ℕ → Backend → Option Text → ℕ → Option (Result LocateError Text)
  wait_loop zero limit id be last k = none
  wait_loop (suc fuel) limit id be last k =
      let more = wait_loop fuel limit id be last (suc k) in
      elim (locate (worlds k) id be last) [
        | ok ip ↦ some (ok ip)
        | err e ↦ if ltb (clock k) limit then more else some (err e)
      ]

  -- The round in which the loop returns.
  unfoldable pub ended_in : ℕ → ℕ → ℕ → Backend → Option Text → ℕ → ℕ
  ended_in zero limit id be last k = k
  ended_in (suc fuel) limit id be last k =
      let more = ended_in fuel limit id be last (suc k) in
      elim (locate (worlds k) id be last) [
        | ok ip ↦ k
        | err e ↦ if ltb (clock k) limit then more else k
      ]

  -- `Start`: what the power verb reports, and the outcome of the wait.
  unfoldable pub start :
      World → ℕ → Backend → Option Text → List Report × Option (Result LocateError Text)
  unfolding wait_loop budget
  start before id be last =
      let run = power_on before id be in
      (run.0, wait_loop start_fuel (budget be run.1) id be last 0)

  abbrev pub Fails : Result LocateError Text → Type 0
  Fails (ok ip) = ⊥
  Fails (err e) = Unit

  -- The outcome `r` is that of round `n`: every round from `k` on before it failed in time, and if it
  -- failed itself the time was up.
  abbrev pub IsOutcome : ℕ → ℕ → Backend → Option Text → ℕ → ℕ → Result LocateError Text → Type 0
  IsOutcome limit id be last k n r =
      (r ≡ locate (worlds n) id be last)
      × ((j : ℕ) → k ≤ j → j < n → Fails (locate (worlds j) id be last) × (clock j < limit))
      × (Fails r → limit ≤ clock n)

  module _ (limit id : ℕ) (be : Backend) (last : Option Text) where
    Waited : ℕ → ℕ → Type 0
    Waited fuel k =
        (n : ℕ) × (r : Result LocateError Text) × (wait_loop fuel limit id be last k ≡ some r)
        × (n < k + fuel)
        × IsOutcome limit id be last k n r

    over :
        (fuel k : ℕ) (x : LocateError)
        → locate (worlds k) id be last ≡ err x
        → ltb (clock k) limit ≡ false
        → Waited (suc fuel) k
    unfolding wait_loop Waited
    over fuel k x e b = (
      k,
      err x,
      rw (e, wait_loop) (rw b refl),
      omega arith,
      (sym e, (λ j h i. ground arith), λ f. ground arith),
    )

    answered_at :
        (fuel k : ℕ) (ip : Text) → locate (worlds k) id be last ≡ ok ip → Waited (suc fuel) k
    unfolding wait_loop Waited
    answered_at fuel k ip e = (
      k,
      ok ip,
      rw (e, wait_loop) refl,
      omega arith,
      (sym e, (λ j h i. ground arith), λ f. absurd f),
    )

    again :
        (fuel k : ℕ) (x : LocateError)
        → locate (worlds k) id be last ≡ err x
        → ltb (clock k) limit ≡ true
        → Waited fuel (suc k)
        → Waited (suc fuel) k
    unfolding wait_loop Waited
    again fuel k x e b (n, r, h, less, (found, before, late)) = (
      n,
      r,
      rw (e, wait_loop) (rw b h),
      omega arith,
      (
        found,
        (λ j p q. elim (Bool-cases (ltb k j)) [
          | inl c ↦ before j (ground arith) q
          | inr c ↦ failed_at j (ground arith)
        ]),
        late,
      ),
    )
      where
        failed_at : (j : ℕ) → j ≡ k → Fails (locate (worlds j) id be last) × (clock j < limit)
        failed_at j same = rw same (rw e tt, ground arith)

    wait_loop_lem :
        ((k : ℕ) → 2 * k ≤ clock k) → (fuel k : ℕ) → limit ≤ 2 * (k + fuel) → Waited (suc fuel) k
    wait_loop_lem tick zero k h = elim (Result-cases (locate (worlds k) id be last)) [
      | inl (ip, e) ↦ answered_at zero k ip e
      | inr (x, e) ↦ over zero k x e (ground (arith, tick k))
    ]
    wait_loop_lem tick (suc fuel) k h = elim (Result-cases (locate (worlds k) id be last)) [
      | inl (ip, e) ↦ answered_at (suc fuel) k ip e
      | inr (x, e) ↦ elim (Bool-cases (ltb (clock k) limit)) [
        | inl b ↦ again (suc fuel) k x e b (wait_loop_lem tick fuel (suc k) (omega (arith, h)))
        | inr b ↦ over (suc fuel) k x e b
      ]
    ]

  budget_le : (be : Backend) (was : VmState) → budget be was ≤ 90
  unfolding budget
  budget_le be was = ground arith

  -- If the clock has gone on by two seconds for every round before, `Start` comes to an end within
  -- its rounds. What it answers is what the search answered in some round: an address that was on offer
  -- and answered on ssh in that round, or an error, and then no address on offer answered and the budget
  -- was spent. In all rounds before that one the search failed, and the budget was not spent.
  pub start_lem :
      ((k : ℕ) → 2 * k ≤ clock k)
      → (before : World) (id : ℕ) (be : Backend) (last : Option Text)
      → (n : ℕ) × (r : Result LocateError Text) × ((start before id be last).1 ≡ some r)
        × (n < 46)
        × IsOutcome (budget be (query_state before id be)) id be last 0 n r
        × IsAnswered (worlds n) id be last r
  unfolding start Waited power_on
  start_lem tick before id be last =
      let limit = budget be (query_state before id be) in
      let (n, r, s, less, o) =
        wait_loop_lem limit id be last tick 45 0 (budget_le be (query_state before id be)) in
      let shown =
        subst (IsAnswered (worlds n) id be last) (sym o.0)
          (locate-IsAnswered (worlds n) id be last) in
      (n, r, s, less, o, shown)
