-- ===== src/Backend/Start/Ended.antt =====
-- The round in which the wait of `Start` returns.
use mpd_virt_macos.Base.{
  ℕ, zero, suc, ltb, Option, some, Result, ok, err, ◌≡◌, ◌∙◌, Bool-cases, Result-cases, inl, inr,
}
use mpd_virt_macos.Text.{Text}
use mpd_virt_macos.Backend.{Backend}
use mpd_virt_macos.Backend.World.{World}
use mpd_virt_macos.Backend.Locate.{LocateError, locate}
use mpd_virt_macos.Backend.Start.{wait_loop, ended_in}

same_outcome : (a b : Result LocateError Text) → some a ≡ some b → a ≡ b
same_outcome a b h = cc

-- What the loop returns is what the search answered in that round.
pub wait_loop-ended_in :
    (worlds : ℕ → World) (clock : ℕ → ℕ) (limit id : ℕ) (be : Backend) (last : Option Text)
    → (fuel k : ℕ) (r : Result LocateError Text)
    → wait_loop worlds clock fuel limit id be last k ≡ some r
    → locate (worlds (ended_in worlds clock fuel limit id be last k)) id be last ≡ r
unfolding wait_loop ended_in
wait_loop-ended_in worlds clock limit id be last zero k r h = cc
wait_loop-ended_in worlds clock limit id be last (suc fuel) k r h =
    elim (Result-cases (locate (worlds k) id be last)) [
      | inl (ip, e) ↦ rw (e, ended_in) (e ∙ same_outcome (ok ip) r (rw (e, wait_loop) at h))
      | inr (x, e) ↦ elim (Bool-cases (ltb (clock k) limit)) [
        | inl b ↦
            rw (e, ended_in)
              (rw b (
                wait_loop-ended_in worlds clock limit id be last fuel (suc k) r
                  (rw b at (rw (e, wait_loop) at h))))
        | inr b ↦
            rw (e, ended_in) (rw b (e ∙ same_outcome (err x) r (rw b at (rw (e, wait_loop) at h))))
      ]
    ]
