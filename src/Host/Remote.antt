-- ===== src/Host/Remote.antt =====
-- go/internal/host/ssh.go: its calls, run on the machine.
use mpd_virt_macos.Base.{Bool, [], Result}
use mpd_virt_macos.Fs.{FilePath, write_file}
use mpd_virt_macos.Fs.Files.{remove}
use mpd_virt_macos.Text.{Text, codes}
use mpd_virt_macos.Text.Decimal.{ℤ}
use mpd_virt_macos.Host.{Target, Answer, ssh_args, reachable, check_reachable, line, install}
use mpd_virt_macos.Machine.{
  Outside, host_failed, line_failed, install_failed, Failure, io_failed, Run, pure, lift, gets, io,
  attempt, best_effort, result_of, ◌>>=◌, ◌>>◌,
}
use mpd_virt_macos.Machine.Exec.{capture, run}

-- `Run`
unfoldable pub ssh : Outside → Target → Text → Run Answer
unfolding capture ssh_args
ssh o t remote = capture o (ssh_args t remote)

-- `Stream`
unfoldable pub stream : Outside → Target → Text → Run ℤ
unfolding run ssh_args
stream o t remote = run o (ssh_args t remote)

-- `Reachable`
unfoldable pub probe : Outside → Target → Run Bool
unfolding ssh reachable ◌>>=◌
probe o t = ssh o t (codes "true") >>= λ a. pure (reachable a)

-- `CheckReachable`
unfoldable pub check : Outside → Target → Run (Unit {0})
unfolding ssh check_reachable ◌>>=◌
check o t = ssh o t (codes "true") >>= λ a. lift host_failed (check_reachable t a)

-- `Line`
unfoldable pub remote_line : Outside → Target → Text → Run Text
unfolding ssh line ◌>>=◌
remote_line o t remote = ssh o t remote >>= λ a. lift line_failed (line a)

-- `Install`; `ssh` and `scp` are on the list of `exec`, and no wait depends on how long they take.
unfoldable pub push : Outside → Target → Text → Text → Text → Run (Unit {0})
unfolding install
push o t local_path remote_path mode m =
    let done = install o.path_dir o.path_base o.answer t local_path remote_path mode m.log in
    (record m { log = done.0 }, result_of install_failed done.1)

-- The deferred removal of the temporary file; the outcome is passed on.
abbrev forgotten : FilePath → Result Failure (Unit {0}) → Run (Unit {0})
forgotten tmp r = best_effort (io io_failed (remove tmp)) >> lift (λ e. e) r

-- `WriteRemote`. `os.CreateTemp` makes a file that was not there.
unfoldable pub write_remote : Outside → Target → Text → Text → Text → Run (Unit {0})
unfolding push write_file remove io gets attempt ◌>>=◌
write_remote o t content remote_path mode = do
  tmp ← gets (λ m. o.temp_file m.files)
  io io_failed (write_file tmp [])
  attempt (io io_failed (write_file tmp content) >> push o t (o.path_text tmp) remote_path mode)
      (forgotten tmp)
