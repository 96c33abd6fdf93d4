-- ===== src/Host/Install.antt =====
-- The order of the commands of `Install`.
use mpd_virt_macos.Base.{
  Bool, true, false, List, [], ◌∷◌, ◌++◌, if◌then◌else◌, Result, ok, err, ◌≡◌, refl, Bool-cases,
  inl, inr,
}
use mpd_virt_macos.Text.{Text, codes}
use mpd_virt_macos.Host.{
  Target, Command, Answer, not_launched, ended, is_zero, InstallError, mkdir, scp, chmod, Log,
  succeeded, install_step, install, ssh_args, scp_args,
}

abbrev is_ok : {E : Type 0} → Result E (Unit {0}) → Bool
is_ok (ok x) = true
is_ok (err e) = false

module _ (path_dir path_base : Text → Text) (answer : Log → Command → Answer) where
  -- Commands in order, up to the first that does not succeed: what was issued, and whether all succeeded.
  abbrev pub run_all : List Command → Log → Log × Bool
  run_all [] log = (log, true)
  run_all (c ∷ cs) log =
      let rest = run_all cs (log ++ c ∷ []) in
      if succeeded (answer log c) then rest else (log ++ c ∷ [], false)

  abbrev pub outcome : Log × Result InstallError (Unit {0}) → Log × Bool
  outcome (log, r) = (log, is_ok r)

  step_lem :
      (c : Command) (failure : Text → InstallError)
      (next : Log → Log × Result InstallError (Unit {0})) (cs : List Command) (log : Log)
      → ((l : Log) → outcome (next l) ≡ run_all cs l)
      → outcome (install_step path_dir path_base answer c failure next log) ≡ run_all (c ∷ cs) log
  step_lem c failure next cs log h = by_answer (answer log c) refl
    where
      by_answer :
          (a : Answer)
          → answer log c ≡ a
          → outcome (install_step path_dir path_base answer c failure next log)
            ≡ run_all (c ∷ cs) log
      by_answer (not_launched e) k = rw k refl
      by_answer (ended r) k = elim (Bool-cases (is_zero r.code)) [
        | inl z ↦ rw k (rw z (h (log ++ c ∷ [])))
        | inr z ↦ rw k (rw z refl)
      ]

  three_lem :
      (c d e : Command) (f g h : Text → InstallError) (log : Log)
      → outcome (
          install_step path_dir path_base answer c f
            (install_step path_dir path_base answer d g
              (install_step path_dir path_base answer e h (λ l. (l, ok tt))))
            log)
        ≡ run_all (c ∷ d ∷ e ∷ []) log
  three_lem c d e f g h log =
      step_lem c f
        (install_step path_dir path_base answer d g
          (install_step path_dir path_base answer e h (λ l. (l, ok tt))))
        (d ∷ e ∷ []) log
        (λ l.
          step_lem d g (install_step path_dir path_base answer e h (λ m. (m, ok tt))) (e ∷ []) l
            (λ m. step_lem e h (λ n. (n, ok tt)) [] m (λ n. refl)))

  -- `Install` issues `mkdir -p` for the directory, `scp` and `chmod`, in this order, and none behind one
  -- that does not launch or does not exit with 0; it succeeds if and only if all three do.
  pub install_lem :
      (t : Target) (local_path remote_path mode : Text) (log : Log)
      → outcome (install path_dir path_base answer t local_path remote_path mode log)
        ≡ run_all
            (ssh_args t (codes "mkdir -p " ++ path_dir remote_path)
              ∷ scp_args t local_path remote_path
              ∷ ssh_args t (codes "chmod " ++ (mode ++ b' ' ∷ remote_path))
              ∷ [])
            log
  unfolding install
  install_lem t local_path remote_path mode log =
      three_lem (ssh_args t (codes "mkdir -p " ++ path_dir remote_path))
        (scp_args t local_path remote_path)
        (ssh_args t (codes "chmod " ++ (mode ++ b' ' ∷ remote_path))) (mkdir (path_dir remote_path))
        (scp (path_base remote_path)) (chmod remote_path) log
