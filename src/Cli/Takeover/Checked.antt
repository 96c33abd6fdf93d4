-- ===== src/Cli/Takeover/Checked.antt =====
-- The identity checks of a takeover, against the answers of the box to a list of commands.
use mpd_virt_macos.Base.{
  ℕ, ◌+◌, Bool, true, false, ◌&&◌, List, [], ◌∷◌, ◌++◌, ◌==◌, list_eq, nat_eq, list_beq,
  if◌then◌else◌, ok, ◌≡◌, refl, ◌∙◌, ap, Bool-cases, inl, inr,
}
use mpd_virt_macos.Text.{Text, codes, trim_space}
use mpd_virt_macos.Vmid.{name}
use mpd_virt_macos.Host.{
  Target, Answer, not_launched, ended, Log, ssh_args, is_zero, succeeded, check_reachable, line,
}
use mpd_virt_macos.Host.Remote.{ssh, check, remote_line}
use mpd_virt_macos.Machine.{
  Outside, Mac, said, line_failed, Run, pure, raise, lift, require, ◌>>=◌, ◌>>◌,
}
use mpd_virt_macos.Machine.Exec.{allowed, capture, succeed_or}
use mpd_virt_macos.Ca.{is_ok}
use mpd_virt_macos.Cli.Takeover.{passes, conforms}

-- The command has exited with 0, and what it has printed is the text, but for the space around it.
abbrev pub prints : Text → Answer → Bool
prints want (not_launched e) = false
prints want (ended r) = if is_zero r.code then trim_space r.stdout == want else false

-- The commands that are put to a box, and the test of the answer to each.
abbrev pub checks : ℕ → List (Text × (Answer → Bool))
checks id =
    (codes "true", succeeded)
    ∷ (codes "hostname", prints (name id))
    ∷ (codes "sudo -n true", succeeded)
    ∷ (
      codes ". /etc/os-release && printf '%s %s' \"$ID\" \"$VERSION_CODENAME\"",
      prints (codes "debian trixie"),
    )
    ∷ (codes "systemctl is-active --quiet systemd-resolved", succeeded)
    ∷ []

-- Do the answers to all the commands, one behind the other, pass their tests?
abbrev pub all_pass : Outside → Target → Log → List (Text × (Answer → Bool)) → Bool
all_pass o t log [] = true
all_pass o t log ((c, test) ∷ cs) =
    test (o.answer log (ssh_args t c)) && all_pass o t (log ++ ssh_args t c ∷ []) cs

module _ (o : Outside) (t : Target) where
  -- The machine behind one command on the box.
  abbrev after : Text → Mac → Mac
  after c m = record m {
    log = m.log ++ ssh_args t c ∷ [];
    now = m.now + o.duration m.log (ssh_args t c);
  }

  ssh-after : (c : Text) (m : Mac) → ssh o t c m ≡ (after c m, ok (o.answer m.log (ssh_args t c)))
  unfolding ssh capture allowed ssh_args list_beq
  ssh-after c m = refl

  ssh_then :
      {A : Type 0} (c : Text) (f : Answer → Run A) (m : Mac)
      → (ssh o t c >>= f) m ≡ f (o.answer m.log (ssh_args t c)) (after c m)
  unfolding ◌>>=◌
  ssh_then c f m = rw (ssh-after c m) refl

  by_answer :
      (words : Text) (rest : Run (Unit {0})) (a : Answer) (m : Mac)
      → is_ok (((succeed_or (said words) a >>= λ r. pure tt) >> rest) m).1
        ≡ (succeeded a && is_ok (rest m).1)
  unfolding ◌>>=◌ succeed_or pure raise
  by_answer words rest (not_launched e) m = refl
  by_answer words rest (ended r) m = elim (Bool-cases (is_zero r.code)) [
    | inl e ↦ rw e refl
    | inr e ↦ rw e refl
  ]

  passes_then :
      (c words : Text) (rest : Run (Unit {0})) (m : Mac)
      → is_ok ((passes o t c words >> rest) m).1
        ≡ (succeeded (o.answer m.log (ssh_args t c)) && is_ok (rest (after c m)).1)
  unfolding passes ◌>>=◌
  passes_then c words rest m =
      rw (ssh-after c m) (by_answer words rest (o.answer m.log (ssh_args t c)) (after c m))

  check_then :
      (rest : Run (Unit {0})) (m : Mac)
      → is_ok ((check o t >> rest) m).1 ≡ (
          succeeded (o.answer m.log (ssh_args t (codes "true")))
          && is_ok (rest (after (codes "true") m)).1)
  unfolding check check_reachable ◌>>=◌ lift
  check_then rest m = elim (Bool-cases (succeeded (o.answer m.log (ssh_args t (codes "true"))))) [
    | inl e ↦ rw (ssh-after (codes "true") m, e) refl
    | inr e ↦ rw (ssh-after (codes "true") m, e) refl
  ]

  by_line :
      (want words : Text) (rest : Run (Unit {0})) (a : Answer) (m : Mac)
      → is_ok
          ((lift line_failed (line a) >>= λ got. require (got == want) (said words) >> rest) m).1
        ≡ (prints want a && is_ok (rest m).1)
  unfolding ◌>>=◌ lift line pure raise
  by_line want words rest (not_launched e) m = refl
  by_line want words rest (ended r) m = elim (Bool-cases (is_zero r.code)) [
    | inr e ↦ rw e refl
    | inl e ↦ elim (Bool-cases (trim_space r.stdout == want)) [
      | inl x ↦ rw (e, x) refl
      | inr x ↦ rw (e, x) refl
    ]
  ]

  line_then :
      (c want words : Text) (rest : Run (Unit {0})) (m : Mac)
      → is_ok ((remote_line o t c >>= λ got. require (got == want) (said words) >> rest) m).1
        ≡ (prints want (o.answer m.log (ssh_args t c)) && is_ok (rest (after c m)).1)
  unfolding remote_line ◌>>=◌
  line_then c want words rest m =
      rw (ssh-after c m) (by_line want words rest (o.answer m.log (ssh_args t c)) (after c m))

  alone :
      (words : Text) (a : Answer) (m : Mac)
      → is_ok ((succeed_or (said words) a >>= λ r. pure tt) m).1 ≡ (succeeded a && true)
  unfolding ◌>>=◌ succeed_or pure raise
  alone words (not_launched e) m = refl
  alone words (ended r) m = elim (Bool-cases (is_zero r.code)) [
    | inl e ↦ rw e refl
    | inr e ↦ rw e refl
  ]

  passes_alone :
      (c words : Text) (m : Mac)
      → is_ok (passes o t c words m).1 ≡ (succeeded (o.answer m.log (ssh_args t c)) && true)
  unfolding passes ◌>>=◌
  passes_alone c words m =
      rw (ssh-after c m) (alone words (o.answer m.log (ssh_args t c)) (after c m))

  -- The checks succeed if and only if the box has passed each of them.
  pub conforms_lem :
      (id : ℕ) (m : Mac) → is_ok (conforms o t id m).1 ≡ all_pass o t m.log (checks id)
  unfolding conforms
  conforms_lem id m =
      let release = codes ". /etc/os-release && printf '%s %s' \"$ID\" \"$VERSION_CODENAME\"" in
      let trixie = codes "debian trixie" in
      let resolved = codes "systemctl is-active --quiet systemd-resolved" in
      let m1 = after (codes "true") m in
      let m2 = after (codes "hostname") m1 in
      let m3 = after (codes "sudo -n true") m2 in
      let m4 = after release m3 in
      let r5 = passes o t resolved (codes "box is not prepared") in
      let r4 : Run (Unit {0}) = remote_line o t release >>= λ got.
      require (got == trixie) (said (codes "OS mismatch")) >> r5 in
      let r3 = passes o t (codes "sudo -n true") (codes "passwordless sudo not available") >> r4 in
      let r2 : Run (Unit {0}) = remote_line o t (codes "hostname") >>= λ got.
      require (got == name id) (said (codes "hostname mismatch")) >> r3 in
      let both = λ (c : Text) (test : Answer → Bool) (x : Mac) (b : Bool).
        test (o.answer x.log (ssh_args t c)) && b in
      check_then r2 m
      ∙ ap (both (codes "true") succeeded m) (
          line_then (codes "hostname") (name id) (codes "hostname mismatch") r3 m1
          ∙ ap (both (codes "hostname") (prints (name id)) m1) (
              passes_then (codes "sudo -n true") (codes "passwordless sudo not available") r4 m2
              ∙ ap (both (codes "sudo -n true") succeeded m2) (
                  line_then release trixie (codes "OS mismatch") r5 m3
                  ∙ ap (both release (prints trixie) m3)
                      (passes_alone resolved (codes "box is not prepared") m4))))
