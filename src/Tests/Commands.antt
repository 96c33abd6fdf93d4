-- ===== src/Tests/Commands.antt =====
-- The commands on a machine whose box answers.
use mpd_virt_macos.Base.{true, false, [], ◌∷◌, list_beq, none, some, ok, err, ◌≡◌, refl, arith}
use mpd_virt_macos.Text.{to_lower, fields, cut, codes, is_space, join, split, contains, trim_space}
use mpd_virt_macos.Fs.{
  find, put, blocked_from, read_dir, put_dirs, is_under, read_file, mkdir_all, write_file,
}
use mpd_virt_macos.Paths.{conf, ca_root, servers, lan_hosts, vm_env, vm_dir}
use mpd_virt_macos.Registry
use mpd_virt_macos.Vmid.{name, pad, zone}
use mpd_virt_macos.Sshconfig
use mpd_virt_macos.Sshconfig.{
  ensure_file, contains_block, strip_block, begin_marker, render, stanzas, end_marker,
}
use mpd_virt_macos.Server.{known, load_each, load_all, hosts_text, hosts_body, write_hosts_file}
use mpd_virt_macos.Backend.{managed, utm, generic, parallels, text_of}
use mpd_virt_macos.Host.{Command}
use mpd_virt_macos.Backend.Start
use mpd_virt_macos.Backend.Start.{wait_loop, budget}
use mpd_virt_macos.Backend.State.{query_state, normalize_state, parse_parallels_state}
use mpd_virt_macos.Backend.Power.{power_on, power_on_from, power, power_argv}
use mpd_virt_macos.Backend.Locate.{
  parallels_ip, parse_parallels_ip, strip_mask, locate, add, add_each, add_backend, candidates,
}
use mpd_virt_macos.Backend.Queries.{state_query, address_query, searches, issue_all, time_of}
use mpd_virt_macos.Backend.Create.{wait_systemd}
use mpd_virt_macos.Backend.Create.Boot.{IsEnded, wait_systemd_lem}
use mpd_virt_macos.Cli.Session.{SafeLog, takeover, ca_export, session}
use mpd_virt_macos.Cli.Session.Safe.{session_lem}
use mpd_virt_macos.Cli.Takeover.{start_box, box_target, run_takeover}
use mpd_virt_macos.Cli.Takeover.Records.{OnRecord, run_takeover_lem, run_takeover_refused}
use mpd_virt_macos.Cli.Takeover.Checked.{checks, all_pass}
use mpd_virt_macos.Cli.Lifecycle.{delete_box}
use mpd_virt_macos.Cli.Lifecycle.Removal.{delete_box_lem}
use mpd_virt_macos.Machine.{Outside, Mac, Failure}
use mpd_virt_macos.Tests.Boxes.{box, box-IsEntry}
use mpd_virt_macos.Tests.Power.{booting, boots}
use mpd_virt_macos.Tests.Fake.{fake, idle, says}

session_lem_example : SafeLog fake (
    session fake
      (takeover (codes "42") (some (codes "10.0.0.5")) (codes "ann") (codes "utm")
        ∷ ca_export none
        ∷ [])
      idle)
session_lem_example =
    session_lem fake
      (takeover (codes "42") (some (codes "10.0.0.5")) (codes "ann") (codes "utm")
        ∷ ca_export none
        ∷ [])
      idle tt

wait_systemd_lem_example :
    IsEnded fake (codes "mpd-042") 90000000000 (wait_systemd fake (codes "mpd-042") idle)
wait_systemd_lem_example = wait_systemd_lem fake (codes "mpd-042") idle

taken_over : (run_takeover fake 42 (codes "10.0.0.5") (codes "ann") utm idle).1 ≡ ok tt
unfolding run_takeover list_beq is_space find put blocked_from read_dir put_dirs conf ca_root
    servers lan_hosts vm_env ensure_file Sshconfig.write known load_each load_all hosts_text
    hosts_body write_hosts_file join Registry.save
taken_over = refl

run_takeover_lem_example :
    OnRecord fake 42
      (codes "10.0.0.5")
      (codes "ann")
      utm
      (run_takeover fake 42 (codes "10.0.0.5") (codes "ann") utm idle).0.files
run_takeover_lem_example =
    run_takeover_lem fake 42 (codes "10.0.0.5") (codes "ann") utm idle
      (unfold text_of in box-IsEntry) apart taken_over
  where
    apart : is_under (vm_env fake.root 42) fake.ssh_config ≡ false
    apart = unfold is_under vm_env list_beq in refl

-- Every command prints the same text, also `hostname`.
abbrev stranger : Outside
stranger = record fake { answer = λ log c. says (codes "other") }

not_it :
    all_pass stranger (box_target (codes "10.0.0.5") (codes "ann")) idle.log (checks 42) ≡ false
unfolding list_beq is_space trim_space name
not_it = refl

run_takeover_refused_example :
    (e : Failure) × ((run_takeover stranger 42 (codes "10.0.0.5") (codes "ann") utm idle).1 ≡ err e)
    × ((run_takeover stranger 42 (codes "10.0.0.5") (codes "ann") utm idle).0.files ≡ idle.files)
run_takeover_refused_example =
    run_takeover_refused stranger 42 (codes "10.0.0.5") (codes "ann") utm idle not_it

-- The box 42 answers in the fourth round of the wait.
abbrev late : Outside
late = record fake { before = λ log. booting; rounds = λ log k. boots k }

abbrev search_command : Command
search_command = codes "prlctl" ∷ codes "list" ∷ codes "mpd-042" ∷ codes "-f" ∷ codes "--json" ∷ []

-- Three commands of a second each, four searches, and the six seconds of the wait.
started : start_box late 42 parallels idle ≡ (
  record idle {
    log =
        (codes "prlctl" ∷ codes "list" ∷ codes "mpd-042" ∷ codes "-a" ∷ codes "--json" ∷ [])
        ∷ (codes "prlctl" ∷ codes "resume" ∷ codes "mpd-042" ∷ [])
        ∷ (codes "prlctl" ∷ codes "start" ∷ codes "mpd-042" ∷ [])
        ∷ search_command
        ∷ search_command
        ∷ search_command
        ∷ search_command
        ∷ [];
    now = 9000000000;
  },
  ok (codes "10.0.0.4"),
)
unfolding start_box list_beq Start.start Start.ended_in wait_loop budget query_state normalize_state
    power_on power_on_from power power_argv locate add add_each add_backend candidates state_query
    address_query searches issue_all time_of name pad to_lower trim_space parse_parallels_state
    is_space read_file find vm_env blocked_from parallels_ip parse_parallels_ip fields strip_mask
    cut managed
started = refl

-- The machine with the box 42 on record.
abbrev adopted : Mac
adopted = record idle {
  files =
      (Sshconfig.write fake.ssh_config 42 box.ip box.user
        (Registry.save fake.root box idle.files).0).0;
}

deleted : (delete_box fake 42 generic true adopted).1 ≡ ok tt
unfolding delete_box list_beq find put blocked_from put_dirs vm_env ensure_file Sshconfig.write
    Registry.save read_file mkdir_all vm_dir write_file pad strip_block join split Sshconfig.rewrite
    contains begin_marker render stanzas end_marker zone
deleted = refl

delete_box_lem_example :
    (Registry.exists fake.root 42 (delete_box fake 42 generic true adopted).0.files ≡ false)
    × (contains_block fake.ssh_config 42 (delete_box fake 42 generic true adopted).0.files ≡ false)
delete_box_lem_example =
    delete_box_lem fake 42 generic true adopted (omega arith, omega arith) apart deleted
  where
    apart : is_under (vm_dir fake.root 42) fake.ssh_config ≡ false
    apart = unfold is_under vm_dir list_beq in refl
