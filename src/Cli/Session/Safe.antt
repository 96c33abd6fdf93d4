-- ===== src/Cli/Session/Safe.antt =====
-- What the commands of a user issue and send out.
use mpd_virt_macos.Base.{List, [], ◌∷◌, none, some}
use mpd_virt_macos.Machine.{Outside, Mac}
use mpd_virt_macos.Cli.Session.{
  SafeLog, Verb, takeover, start, update, stop, create, delete, list, uninstall, server_add,
  server_list, server_sync, server_delete, server_cert, ca_export, execute, session,
}
use mpd_virt_macos.Cli.Session.Effects.{Effects}
use mpd_virt_macos.Cli.Session.Powered.{Keeps-start_box, Keeps-stop_box}
use mpd_virt_macos.Cli.Session.Gate.{
  Keeps-capture, Keeps-push, Keeps-sleep, Keeps-draw, Keeps-call, Keeps-io,
}
use mpd_virt_macos.Cli.Session.Rooted.{Keeps-load_or_generate_root}
use mpd_virt_macos.Cli.Session.Logged.{Keeps-write_pem, forged, handled}
use mpd_virt_macos.Cli.Session.Images.{Keeps-make_cidata_iso, Keeps-materialize_disk}
use mpd_virt_macos.Cli.Session.Commands.{IsMild, Keeps-execute}

module _ (o : Outside) where
  logged : Effects o (SafeLog o)
  logged = record {
    captured = Keeps-capture o;
    pushed = Keeps-push o;
    started = Keeps-start_box o;
    halted = Keeps-stop_box o;
    slept = Keeps-sleep o;
    drawn = Keeps-draw o;
    called = Keeps-call o;
    rooted = Keeps-load_or_generate_root o (forged o);
    issued = λ p kind der i. Keeps-write_pem o p kind der;
    ca_dir_made = λ id. Keeps-io o _ _;
    signed = λ name body. Keeps-io o _ _;
    box_saved = λ e. Keeps-io o _ _;
    box_removed = λ id. Keeps-io o _ _;
    block_written = λ id ip user. Keeps-io o _ _;
    block_stripped = λ id. Keeps-io o _ _;
    server_saved = λ e. Keeps-io o _ _;
    server_removed = λ name. Keeps-io o _ _;
    hosts_written = Keeps-io o _ _;
    staging_made = λ name. Keeps-io o _ _;
    staging_removed = λ name. Keeps-io o _ _;
    seed_removed = λ name n. Keeps-io o _ _;
    seed_made = λ name n user key host config.
        Keeps-make_cidata_iso o (handled o) _ user key host config tt;
    disk_made = λ name n gib. Keeps-materialize_disk o (handled o) _ gib tt;
    state_wiped = Keeps-io o _ _;
  }

  all-IsMild : (v : Verb) → IsMild o logged v
  all-IsMild (takeover arg address user flag) = tt
  all-IsMild (start arg flag) = tt
  all-IsMild (update arg flag) = tt
  all-IsMild (stop arg) = tt
  all-IsMild (create ssh_dir arg flag user key opts) = tt
  all-IsMild (delete arg typed sure keep_vm) = tt
  all-IsMild list = tt
  all-IsMild (uninstall typed sure) = tt
  all-IsMild (server_add arg ip) = tt
  all-IsMild (server_list only) = tt
  all-IsMild (server_sync only) = tt
  all-IsMild (server_delete arg typed sure) = tt
  all-IsMild (server_cert arg extra force) = tt
  all-IsMild (ca_export none) = tt
  all-IsMild (ca_export (some p)) = λ pem. Keeps-io o _ _

  -- Whatever commands a user types, and however each ends, the log stays safe: each command on it is
  -- on the allow-list, and each `scp` sends the root certificate, the hosts file, or the certificate or
  -- key of a box's own intermediate.
  pub session_lem : (vs : List Verb) (m : Mac) → SafeLog o m → SafeLog o (session o vs m)
  unfolding session
  session_lem [] m h = h
  session_lem (v ∷ vs) m h =
      session_lem vs (execute o v m).0 ((Keeps-execute o logged v (all-IsMild v)).at m h)
