-- ===== src/Backend/Create/Boot.antt =====
-- The wait for systemd ends, and how.
use mpd_virt_macos.Base.{
  ℕ, zero, suc, ◌+◌, ◌*◌, ◌≤◌, Bool, true, ltb, [], ◌∷◌, ◌++◌, list_eq, nat_eq, list_beq,
  if◌then◌else◌, Result, ok, err, ◌≡◌, refl, ◌⊎◌, inl, inr, Bool-cases, arith,
}
use mpd_virt_macos.Text.{Text, codes, trim_space}
use mpd_virt_macos.Host.{Log}
use mpd_virt_macos.Machine.{Outside, Mac, Failure, said, pure, raise, gets, sleep, ◌>>=◌}
use mpd_virt_macos.Machine.Exec.{allowed, capture}
use mpd_virt_macos.Backend.Create.{
  is_booted, stdout_of, systemd_probe, two_seconds, systemd_loop, wait_systemd,
}

module _ (o : Outside) (name : Text) where
  -- The answer to a probe that is issued behind the commands of `log`.
  abbrev pub says_booted : Log → Bool
  says_booted log = is_booted (trim_space (stdout_of (o.answer log (systemd_probe name))))

  -- The wait came to an end: by a probe, its last command, that answered with one of the two words, or
  -- by the error once the clock had reached the deadline.
  abbrev pub IsEnded : ℕ → Mac × Result Failure (Unit {0}) → Type 0
  IsEnded deadline (m, r) =
      ((r ≡ ok tt)
        × (log : Log) × (m.log ≡ log ++ systemd_probe name ∷ [])
        × (says_booted log ≡ true))
      ⊎ ((r ≡ err (said (codes "did not finish booting systemd in time"))) × (deadline ≤ m.now))

  probed : Mac → Mac
  probed m = record m {
    log = m.log ++ systemd_probe name ∷ [];
    now = m.now + o.duration m.log (systemd_probe name);
  }

  rested : Mac → Mac
  rested m = record m { now = m.now + two_seconds }

  -- One round, in the words of the machine.
  round_lem :
      (deadline fuel : ℕ) (m : Mac)
      → systemd_loop o name deadline (suc fuel) m ≡ (
          if says_booted m.log
          then (probed m, ok tt)
          else if ltb (probed m).now deadline
          then systemd_loop o name deadline fuel (rested (probed m))
          else (probed m, err (said (codes "did not finish booting systemd in time"))))
  unfolding systemd_loop capture ◌>>=◌ gets sleep raise pure probed rested allowed list_beq
  round_lem deadline fuel m = elim (Bool-cases (says_booted m.log)) [
    | inl b ↦ rw b refl
    | inr b ↦
        rw b (elim (Bool-cases (ltb (m.now + o.duration m.log (systemd_probe name)) deadline)) [
          | inl c ↦ rw c refl
          | inr c ↦ rw c refl
        ])
  ]

  -- A round that ends the wait ends it well, so only what follows a round in time is left to show.
  round_IsEnded :
      (deadline fuel : ℕ) (m : Mac)
      → (ltb (m.now + o.duration m.log (systemd_probe name)) deadline ≡ true
          → IsEnded deadline (systemd_loop o name deadline fuel (rested (probed m))))
      → IsEnded deadline (systemd_loop o name deadline (suc fuel) m)
  unfolding probed
  round_IsEnded deadline fuel m next = elim (Bool-cases (says_booted m.log)) [
    | inl b ↦ rw (round_lem deadline fuel m, b) (inl (refl, m.log, refl, b))
    | inr b ↦ elim (Bool-cases (ltb (probed m).now deadline)) [
      | inl c ↦ rw (round_lem deadline fuel m, b, c) (next c)
      | inr c ↦ rw (round_lem deadline fuel m, b, c) (inr (refl, ground arith))
    ]
  ]

  loop_IsEnded :
      (deadline fuel : ℕ) (m : Mac)
      → deadline ≤ m.now + fuel * two_seconds
      → IsEnded deadline (systemd_loop o name deadline (suc fuel) m)
  unfolding probed rested
  loop_IsEnded deadline zero m h = round_IsEnded deadline zero m (λ c. ground arith)
  loop_IsEnded deadline (suc fuel) m h =
      round_IsEnded deadline (suc fuel) m
        (λ c. loop_IsEnded deadline fuel (rested (probed m)) (omega (arith, h)))

  -- `waitSystemd` comes to an end within its 46 rounds, whatever the answers are and however long they
  -- take: with a probe, its last command, that answered `running` or `degraded`, or with the error,
  -- and then the clock has gone on by at least 90 seconds.
  pub wait_systemd_lem : (m : Mac) → IsEnded (m.now + 90000000000) (wait_systemd o name m)
  unfolding wait_systemd ◌>>=◌ gets
  wait_systemd_lem m = loop_IsEnded (m.now + 90000000000) 45 m (omega arith)
