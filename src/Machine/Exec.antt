-- ===== src/Machine/Exec.antt =====
-- go/internal/exec/exec.go: the gate through which every command goes.
use mpd_virt_macos.Base.{
  ◌+◌, Bool, false, List, [], ◌∷◌, ◌++◌, any, ◌==◌, list_eq, nat_eq, if◌then◌else◌, ok,
}
use mpd_virt_macos.Text.{Text, codes}
use mpd_virt_macos.Text.Decimal.{ℤ}
use mpd_virt_macos.Host.{Answer, not_launched, ended, Exit, Command, is_zero}
use mpd_virt_macos.Machine.{Outside, Failure, not_run, Run, pure, raise, ◌>>=◌}

-- `allowed`
abbrev pub allow_list : List Text
allow_list =
    codes "ssh"
    ∷ codes "scp"
    ∷ codes "container"
    ∷ codes "prlctl"
    ∷ codes "osascript"
    ∷ codes "curl"
    ∷ codes "tar"
    ∷ codes "hdiutil"
    ∷ codes "security"
    ∷ []

unfoldable pub allowed : Command → Bool
allowed [] = false
allowed (name ∷ args) = any (λ a. a == name) allow_list

abbrev refused_launch : Text
refused_launch = codes "command is not allow-listed in internal/exec"

-- `Capture`: a command that is not on the list is not issued.
unfoldable pub capture : Outside → Command → Run Answer
unfolding allowed
capture o c m =
    if allowed c
    then (
      record m { log = m.log ++ c ∷ []; now = m.now + o.duration m.log c },
      ok (o.answer m.log c),
    )
    else (m, ok (not_launched refused_launch))

-- The test that follows most calls: the command ran, and it exited with 0.
unfoldable pub succeed_or : Failure → Answer → Run Exit
unfolding pure raise
succeed_or e (not_launched t) = raise (not_run t)
succeed_or e (ended r) = if is_zero r.code then pure r else raise e

abbrev pub capture_ok : Outside → Command → Failure → Run Exit
capture_ok o c e = capture o c >>= succeed_or e

abbrev pub code_or : Answer → Run ℤ
code_or (not_launched t) = raise (not_run t)
code_or (ended r) = pure r.code

-- `Run`: the exit code alone, the output is shown as it comes.
unfoldable pub run : Outside → Command → Run ℤ
unfolding capture ◌>>=◌
run o c = capture o c >>= code_or

-- `Capture` of a command that writes files.
unfoldable pub capture_writing : Outside → Command → Run Answer
unfolding capture allowed
capture_writing o c m =
    let done = capture o c m in
    (record done.0 { files = if allowed c then o.leaves m.log c m.files else m.files }, done.1)

-- `Run` of a command that writes files.
unfoldable pub run_writing : Outside → Command → Run ℤ
unfolding capture_writing ◌>>=◌
run_writing o c = capture_writing o c >>= code_or
