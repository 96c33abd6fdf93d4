-- ===== src/Machine/Untouched.antt =====
-- Runs that change no file.
use mpd_virt_macos.Base.{Bool-cases, inl, inr, ◌≡◌}
use mpd_virt_macos.Fs.{Fs}
use mpd_virt_macos.Host.{Command, Answer, not_launched, ended, Target}
use mpd_virt_macos.Host.Remote.{ssh, stream, remote_line, check}
use mpd_virt_macos.Text.{Text}
use mpd_virt_macos.Machine.{Outside, Mac, Failure}
use mpd_virt_macos.Machine.Exec.{allowed, capture, succeed_or, code_or, run}
use mpd_virt_macos.Machine.Keeps.{Keeps, keeps_rules}
use mpd_virt_macos.Proxy.{Request}
use mpd_virt_macos.Proxy.Client.{call}

abbrev pub FilesAre : Fs → Mac → Type 0
FilesAre fs m = m.files ≡ fs

module _ (o : Outside) (fs : Fs) where
  pub capture_untouched : (c : Command) → Keeps (FilesAre fs) (capture o c)
  unfolding capture
  capture_untouched c = record {
    at = λ m h. elim (Bool-cases (allowed c)) [ inl e ↦ rw e h | inr e ↦ rw e h ];
  }

  pub call_untouched : (req : Request) → Keeps (FilesAre fs) (call o req)
  unfolding call
  call_untouched req = record { at = λ m h. h }

  code_untouched : (a : Answer) → Keeps (FilesAre fs) (code_or a)
  code_untouched (not_launched t) = search keeps_rules
  code_untouched (ended r) = search keeps_rules

  pub succeed_untouched : (e : Failure) (a : Answer) → Keeps (FilesAre fs) (succeed_or e a)
  unfolding succeed_or
  succeed_untouched e (not_launched t) = search keeps_rules
  succeed_untouched e (ended r) = search keeps_rules

  pub ssh_untouched : (t : Target) (remote : Text) → Keeps (FilesAre fs) (ssh o t remote)
  unfolding ssh
  ssh_untouched t remote = search (keeps_rules, capture_untouched)

  pub stream_untouched : (t : Target) (remote : Text) → Keeps (FilesAre fs) (stream o t remote)
  unfolding stream run
  stream_untouched t remote = search (keeps_rules, capture_untouched, code_untouched)

  pub check_untouched : (t : Target) → Keeps (FilesAre fs) (check o t)
  unfolding check
  check_untouched t = search (keeps_rules, ssh_untouched)

  pub line_untouched : (t : Target) (remote : Text) → Keeps (FilesAre fs) (remote_line o t remote)
  unfolding remote_line
  line_untouched t remote = search (keeps_rules, ssh_untouched)
