-- ===== src/Tests/Power.antt =====
-- The power verbs, the search for an address and the wait, on a machine with one box.
use mpd_virt_macos.Base.{
  ℕ, ◌<◌, ◌*◌, true, false, if◌then◌else◌, [], ◌∷◌, ◌==◌, list_eq, nat_eq, list_beq, none, some,
  Result, ok, ◌≡◌, refl, arith,
}
use mpd_virt_macos.Text.{Text, codes}
use mpd_virt_macos.Backend.{parallels, utm, generic, managed}
use mpd_virt_macos.Backend.World.{World, refused}
use mpd_virt_macos.Backend.State.{query_state, normalize_state}
use mpd_virt_macos.Backend.Power.{
  power_on, power_on_from, power, utm_power, utm_verb_script, power_off, is_stopped,
}
use mpd_virt_macos.Backend.Power.Verbs.{issued, on_commands, verb_line, power_on_lem, power_off_lem}
use mpd_virt_macos.Backend.Locate.{LocateError, locate, add, add_each, add_backend, candidates}
use mpd_virt_macos.Backend.Locate.Priority.{answer, first_live, offered, locate_lem}
use mpd_virt_macos.Backend.Locate.Answers.{IsAnswered}
use mpd_virt_macos.Backend.Start.Live.{Found, start_succeeds}
use mpd_virt_macos.Backend.Start.{start, wait_loop, budget, IsOutcome, start_lem}
use mpd_virt_macos.Text.{to_lower, to_lower_rune, trim_space, is_space, has_suffix, trim_suffix}
use mpd_virt_macos.Text.Decimal.{atoi}
use mpd_virt_macos.Vmid.{name, pad}
use mpd_virt_macos.Backend.Utm.{as_quote, replace_all, utm_script, utm_start_script}
use mpd_virt_macos.Backend.Utm.Literal.{read_literal, read_literal-as_quote}
use mpd_virt_macos.Backend.Utm.Size.{
  over_1024, parse_size_gib, parse_size_mib, IsModest, parse_size_gib_lem,
}
use mpd_virt_macos.Base.{◌++◌}

-- Parallels has the box 42, suspended, and refuses to resume it; only the address of the name answers.
abbrev pub machine : World
machine = record {
  container_inspect = λ s. none;
  prlctl_list_full =
      λ s. some (record { vm_name = codes "mpd-042"; status = []; ip_configured = codes "-" } ∷ []);
  prlctl_list_all = λ s.
      some
        (record { vm_name = codes "mpd-042"; status = codes "suspended"; ip_configured = [] } ∷ []);
  utm_vm_exists = λ s. false;
  utm_vm_status = λ s. [];
  resolve_host = λ s. codes "10.0.0.3" ∷ codes "10.0.0.4" ∷ [];
  ssh_reachable = λ ip. ip == codes "10.0.0.4";
  run_verb = λ argv. refused;
}

-- The same machine before the box has an address.
abbrev pub booting : World
booting = record machine { ssh_reachable = λ ip. false }

locate_lem_example :
    answer (locate machine 42 parallels (some (codes "10.0.0.1")))
    ≡ first_live machine (offered machine 42 parallels (some (codes "10.0.0.1")))
locate_lem_example = locate_lem machine 42 parallels (some (codes "10.0.0.1"))

power_on_lem_example :
    issued (power_on machine 42 parallels).0
    ≡ on_commands machine 42 parallels (query_state machine 42 parallels)
power_on_lem_example = power_on_lem machine 42 parallels

power_off_lem_example : issued (power_off machine 42 parallels) ≡ (
    if is_stopped (query_state machine 42 parallels)
    then []
    else verb_line 42 parallels (codes "stop"))
power_off_lem_example = power_off_lem machine 42 parallels

-- UTM has the box 42, stopped.
abbrev utm_machine : World
utm_machine = record machine { utm_vm_exists = λ s. true; utm_vm_status = λ s. codes "stopped" }

utm_starts :
    issued (power_on utm_machine 42 utm).0
    ≡ (codes "osascript"
        ∷ codes "-e"
        ∷ codes "tell application \"UTM\"\n\tstart virtual machine named \"mpd-042\"\nend tell"
        ∷ [])
      ∷ []
unfolding list_beq power_on power_on_from power utm_power utm_verb_script utm_start_script
    utm_script as_quote replace_all query_state pad normalize_state name to_lower trim_space
    to_lower_rune is_space
utm_starts = refl

abbrev pub boots : ℕ → World
boots n = if n == 3 then machine else booting

abbrev twice : ℕ → ℕ
twice n = 2 * n

start_lem_example :
    (n : ℕ) × (r : Result LocateError Text) × ((start boots twice booting 42 parallels none).1
      ≡ some r)
    × (n < 46)
    × IsOutcome boots twice
        (budget parallels (query_state booting 42 parallels))
        42
        parallels
        none
        0
        n
        r
    × IsAnswered (boots n) 42 parallels none r
start_lem_example = start_lem boots twice (λ k. omega arith) booting 42 parallels none

-- The box answers in the fourth round.
start_value : (start boots twice booting 42 generic none).1 ≡ some (ok (codes "10.0.0.4"))
unfolding start locate add add_each add_backend candidates wait_loop budget power_on power_on_from
    power query_state managed list_beq
start_value = refl

start_succeeds_example : Found boots twice booting 42 generic none 3
start_succeeds_example =
    start_succeeds boots twice booting 42 generic none (λ k. omega arith) 3 (codes "10.0.0.4")
      (answers, in_time)
  where
    answers : locate (boots 3) 42 generic none ≡ ok (codes "10.0.0.4")
    answers = unfold locate add add_each add_backend candidates list_beq in refl

    in_time : (j : ℕ) → j < 3 → twice j < budget generic (query_state booting 42 generic)
    in_time j h = unfold budget query_state managed in omega (arith, h)

-- A name with a quote and a backslash in it.
abbrev odd_name : Text
odd_name = b'a' ∷ b'"' ∷ b'\\' ∷ b'b' ∷ []

read_literal-as_quote_example :
    read_literal (as_quote odd_name ++ codes " by force") ≡ some (odd_name, codes " by force")
read_literal-as_quote_example = read_literal-as_quote odd_name (codes " by force")

parse_size_gib_lem_example : parse_size_gib (codes "80G") ≡ over_1024 (parse_size_mib (codes "80G"))
parse_size_gib_lem_example = parse_size_gib_lem (codes "80G") modest
  where
    modest : IsModest (parse_size_gib (codes "80G"))
    modest =
        unfold parse_size_gib to_lower to_lower_rune trim_space is_space has_suffix trim_suffix atoi
          list_beq in
        omega arith
