-- ===== src/Cli/Session/Gate.antt =====
-- Each way to issue a command keeps the log safe.
use mpd_virt_macos.Base.{
  arith, ℕ, false, [], ◌∷◌, ◌++◌, list_eq, nat_eq, list_beq, Option, Result, ok, err, ◌≡◌, refl,
  All, All-append, Bool-cases, inl, inr,
}
use mpd_virt_macos.Text.{Text, codes}
use mpd_virt_macos.Fs.{Io}
use mpd_virt_macos.Host.{
  Target, Command, Log, InstallError, mkdir, scp, chmod, step_error, install_step, ssh_args,
  scp_args, install,
}
use mpd_virt_macos.Host.Remote.{push}
use mpd_virt_macos.Machine.{Outside, Failure, io, sleep, draw}
use mpd_virt_macos.Machine.Exec.{allowed, capture, capture_writing}
use mpd_virt_macos.Machine.Keeps.{Keeps, keeps_rules}
use mpd_virt_macos.Proxy.{Request}
use mpd_virt_macos.Proxy.Client.{call}
use mpd_virt_macos.Cli.Session.Powered.{Keeps-start_box, Keeps-stop_box}
use mpd_virt_macos.Cli.Session.{is_scp, IsShared, IsSafe, SafeLog}

module _ (o : Outside) where
  ssh_IsSafe : (t : Target) (remote : Text) → IsSafe o (ssh_args t remote)
  unfolding ssh_args allowed list_beq
  ssh_IsSafe t remote = (refl, λ h. ground arith)

  scp_IsSafe : (t : Target) (file dest : Text) → IsShared o file → IsSafe o (scp_args t file dest)
  unfolding scp_args allowed list_beq
  scp_IsSafe t file dest h = (refl, λ e. h)

  extended :
      (log : Log) (c : Command) → All (IsSafe o) log → IsSafe o c → All (IsSafe o) (log ++ c ∷ [])
  extended log c h s = All-append (IsSafe o) log (c ∷ []) h (s, tt)

  pub Keeps-capture : (c : Command) → is_scp c ≡ false → Keeps (SafeLog o) (capture o c)
  unfolding capture
  Keeps-capture c n = record {
    at = λ m h. elim (Bool-cases (allowed c)) [
      | inl e ↦ rw e (extended m.log c h (e, λ y. ground arith))
      | inr e ↦ rw e h
    ];
  }

  -- What `next` adds to a log is safe.
  record Steady (next : Log → Log × Result InstallError (Unit {0})) : Type 0 where
    at : (l : Log) → All (IsSafe o) l → All (IsSafe o) (next l).0

  step_Steady :
      (c : Command) (failure : Text → InstallError)
      (next : Log → Log × Result InstallError (Unit {0}))
      → IsSafe o c
      → Steady next
      → Steady (install_step o.path_dir o.path_base o.answer c failure next)
  step_Steady c failure next s k = record {
    at = λ log h. by_outcome log h (step_error failure (o.answer log c)) refl;
  }
    where
      by_outcome :
          (log : Log)
          → All (IsSafe o) log
          → (r : Result InstallError (Unit {0})) → step_error failure (o.answer log c) ≡ r
          → All (IsSafe o) (install_step o.path_dir o.path_base o.answer c failure next log).0
      by_outcome log h (ok x) e = rw e (k.at (log ++ c ∷ []) (extended log c h s))
      by_outcome log h (err x) e = rw e (extended log c h s)

  done_Steady : Steady (λ log. (log, ok tt))
  done_Steady = record { at = λ log h. h }

  install-Steady :
      (t : Target) (file remote mode : Text)
      → IsShared o file
      → Steady (install o.path_dir o.path_base o.answer t file remote mode)
  unfolding install
  install-Steady t file remote mode shared =
      step_Steady _ (mkdir (o.path_dir remote)) _
        (ssh_IsSafe t (codes "mkdir -p " ++ o.path_dir remote))
        (step_Steady _ (scp (o.path_base remote)) _ (scp_IsSafe t file remote shared) (
          step_Steady _ (chmod remote) _ (ssh_IsSafe t (codes "chmod " ++ (mode ++ b' ' ∷ remote)))
            done_Steady))

  pub Keeps-push :
      (t : Target) (file remote mode : Text)
      → IsShared o file
      → Keeps (SafeLog o) (push o t file remote mode)
  unfolding push
  Keeps-push t file remote mode shared = record {
    at = λ m h. (install-Steady t file remote mode shared).at m.log h;
  }

  pub Keeps-io : {E A : Type 0} (f : E → Failure) (g : Io E A) → Keeps (SafeLog o) (io f g)
  unfolding io
  Keeps-io f g = record { at = λ m h. h }

  pub Keeps-sleep : (n : ℕ) → Keeps (SafeLog o) (sleep n)
  unfolding sleep
  Keeps-sleep n = record { at = λ m h. h }

  pub Keeps-draw : {A : Type 0} (f : ℕ → Option A) (e : Failure) → Keeps (SafeLog o) (draw o f e)
  unfolding draw
  Keeps-draw f e = record { at = λ m h. h }

  pub Keeps-call : (req : Request) → Keeps (SafeLog o) (call o req)
  unfolding call
  Keeps-call req = record { at = λ m h. h }

  pub Keeps-ssh_args :
      (t : Target) (remote : Text) → Keeps (SafeLog o) (capture o (ssh_args t remote))
  unfolding ssh_args list_beq
  Keeps-ssh_args t remote = Keeps-capture (ssh_args t remote) refl

  pub Keeps-container : (args : Command) → Keeps (SafeLog o) (capture o (codes "container" ∷ args))
  unfolding list_beq
  Keeps-container args = Keeps-capture (codes "container" ∷ args) refl

  pub Keeps-prlctl : (args : Command) → Keeps (SafeLog o) (capture o (codes "prlctl" ∷ args))
  unfolding list_beq
  Keeps-prlctl args = Keeps-capture (codes "prlctl" ∷ args) refl

  pub Keeps-osascript : (args : Command) → Keeps (SafeLog o) (capture o (codes "osascript" ∷ args))
  unfolding list_beq
  Keeps-osascript args = Keeps-capture (codes "osascript" ∷ args) refl

  pub Keeps-security : (args : Command) → Keeps (SafeLog o) (capture o (codes "security" ∷ args))
  unfolding list_beq
  Keeps-security args = Keeps-capture (codes "security" ∷ args) refl

  pub Keeps-writing : (c : Command) → is_scp c ≡ false → Keeps (SafeLog o) (capture_writing o c)
  unfolding capture_writing
  Keeps-writing c n = record { at = λ m h. (Keeps-capture c n).at m h }

pub ruleset gate_rules = (
  keeps_rules, Keeps-start_box, Keeps-stop_box, Keeps-io, Keeps-sleep, Keeps-draw, Keeps-call,
  Keeps-ssh_args, Keeps-container, Keeps-prlctl, Keeps-osascript, Keeps-security,
)
