-- ===== src/Machine/Written.antt =====
-- What a command that writes files leaves, and how it has ended.
use mpd_virt_macos.Base.{true, Result, ok, err, ◌≡◌, refl, ap, ◌∙◌}
use mpd_virt_macos.Text.Decimal.{ℤ}
use mpd_virt_macos.Host.{Command, Answer, not_launched, ended, is_zero, succeeded}
use mpd_virt_macos.Machine.{Outside, Mac, Failure, ◌>>=◌, pure, raise}
use mpd_virt_macos.Machine.Exec.{allowed, capture, capture_writing, run_writing}

module _ (o : Outside) (c : Command) where
  -- The files are what the command has left; an exit code is the one that it has answered.
  abbrev pub IsWritten : Mac → Mac × Result Failure ℤ → Type 0
  IsWritten m (m', ok code) =
      (m'.files ≡ o.leaves m.log c m.files) × (succeeded (o.answer m.log c) ≡ is_zero code)
  IsWritten m (m', err e) = m'.files ≡ o.leaves m.log c m.files

  pub run_writing-IsWritten : allowed c ≡ true → (m : Mac) → IsWritten m (run_writing o c m)
  unfolding run_writing capture_writing capture ◌>>=◌ pure raise
  run_writing-IsWritten h m = by_answer (o.answer m.log c) refl
    where
      by_answer : (a : Answer) → o.answer m.log c ≡ a → IsWritten m (run_writing o c m)
      by_answer (not_launched t) e = rw (h, e) refl
      by_answer (ended r) e = rw (h, e) (refl, ap succeeded e)

  -- An exit code of 0 is the answer of a command that has succeeded.
  pub run_writing_code :
      allowed c ≡ true
      → (m : Mac) (code : ℤ) → (run_writing o c m).1 ≡ ok code
      → succeeded (o.answer m.log c) ≡ is_zero code
  run_writing_code h m code k = of_either (run_writing o c m) (run_writing-IsWritten h m) k
    where
      of_either :
          (done : Mac × Result Failure ℤ)
          → IsWritten m done
          → done.1 ≡ ok code
          → succeeded (o.answer m.log c) ≡ is_zero code
      of_either (m', ok own) w e = let same : own ≡ code = cc in w.1 ∙ ap is_zero same
      of_either (m', err x) w e = absurd (never e)
        where
          never : ◌≡◌ {A = Result Failure ℤ} (err x) (ok code) → ⊥
          never j = cc

  -- The files behind a command that has run.
  pub run_writing_files :
      allowed c ≡ true → (m : Mac) → (run_writing o c m).0.files ≡ o.leaves m.log c m.files
  run_writing_files h m = of_either (run_writing o c m) (run_writing-IsWritten h m)
    where
      of_either :
          (done : Mac × Result Failure ℤ)
          → IsWritten m done
          → done.0.files ≡ o.leaves m.log c m.files
      of_either (m', ok code) w = w.0
      of_either (m', err e) w = w
