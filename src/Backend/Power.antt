-- ===== src/Backend/Power.antt =====
-- go/internal/backend/start.go: the power verbs. A run is the list of what it reports, in order; the
-- commands among them are those that were issued.
pub mod Verbs
use mpd_virt_macos.Base.{
  ℕ, Bool, true, false, ◌&&◌, ◌||◌, List, [], ◌∷◌, ◌++◌, Option, none, some, if◌then◌else◌, ◌==◌,
  list_eq, nat_eq,
}
use mpd_virt_macos.Text.{Text, codes}
use mpd_virt_macos.Vmid.{name}
use mpd_virt_macos.Backend.{Backend, generic, parallels, container, utm, proxmox, other}
use mpd_virt_macos.Backend.World.{World, Outcome, unavailable, refused, succeeded}
use mpd_virt_macos.Backend.Utm.{utm_start_script, utm_stop_script}
use mpd_virt_macos.Backend.State.{
  VmState, unknown, running, stopped, suspended, paused, query_state,
}

pub data Report : Type 0 where
  already : VmState → Report
  command : List Text → Report
  not_here : Text → Report
  refusal : Text → Report

abbrev is_unknown : VmState → Bool
is_unknown unknown = true
is_unknown _ = false

abbrev pub word_of : VmState → Text
word_of unknown = []
word_of running = codes "running"
word_of stopped = codes "stopped"
word_of suspended = codes "suspended"
word_of paused = codes "paused"

unfoldable pub refusal_note : ℕ → VmState → Text → Text
refusal_note id was want =
    if is_unknown was
    then codes "the box may already be " ++ want
    else name id ++ (codes " is " ++ word_of was)

unfoldable pub power_argv : ℕ → Backend → Text → Option (List Text)
power_argv id container verb = some (codes "container" ∷ verb ∷ name id ∷ [])
power_argv id parallels verb = some (codes "prlctl" ∷ verb ∷ name id ∷ [])
power_argv id utm verb = none
power_argv id generic verb = none
power_argv id proxmox verb = none
power_argv id (other s) verb = none

-- The switch of `utmPower`: only `start` and `stop` have a script.
unfoldable pub utm_verb_script : Text → Text → Option Text
utm_verb_script name verb =
    if verb == codes "start"
    then some (utm_start_script name)
    else if verb == codes "stop"
    then some (utm_stop_script name)
    else none

-- The command of `runOsascript`.
abbrev pub osascript_argv : Text → List Text
osascript_argv script = codes "osascript" ∷ codes "-e" ∷ script ∷ []

abbrev pub utm_note : Outcome → List Report
utm_note succeeded = []
utm_note refused = refusal (codes "the box may already be in that state") ∷ []
utm_note unavailable = refusal (codes "the box may already be in that state") ∷ []

abbrev utm_run : World → Option Text → List Report
utm_run w none = []
utm_run w (some script) =
    command (osascript_argv script) ∷ utm_note (w.run_verb (osascript_argv script))

-- `utmPower`: the outcome of the script is reported and swallowed.
unfoldable pub utm_power : World → ℕ → Text → List Report
unfolding utm_verb_script
utm_power w id verb = utm_run w (utm_verb_script (name id) verb)

abbrev ended : List Text → Text → Outcome → List Report × Bool
ended argv note succeeded = (command argv ∷ [], true)
ended argv note refused = (command argv ∷ refusal note ∷ [], false)
ended argv note unavailable = (command argv ∷ not_here note ∷ [], false)

abbrev run_argv : World → Text → Option (List Text) → List Report × Bool
run_argv w note none = ([], true)
run_argv w note (some argv) = ended argv note (w.run_verb argv)

abbrev is_utm : Backend → Bool
is_utm utm = true
is_utm _ = false

-- `power`: the reports, and whether the verb succeeded.
unfoldable pub power : World → ℕ → Backend → Text → VmState → Text → List Report × Bool
unfolding power_argv utm_power
power w id be verb was want =
    if is_utm be
    then (utm_power w id verb, true)
    else run_argv w (refusal_note id was want) (power_argv id be verb)

abbrev pub is_running : VmState → Bool
is_running running = true
is_running _ = false

abbrev pub is_stopped : VmState → Bool
is_stopped stopped = true
is_stopped _ = false

abbrev is_parked : VmState → Bool
is_parked suspended = true
is_parked paused = true
is_parked _ = false

abbrev is_parallels : Backend → Bool
is_parallels parallels = true
is_parallels _ = false

-- `powerOn` once the state is known.
unfoldable pub power_on_from : World → ℕ → Backend → VmState → List Report
unfolding power
power_on_from w id be st =
    let start = (power w id be (codes "start") st (codes "running")).0 in
    let resume = power w id be (codes "resume") st (codes "running") in
    if is_running st
    then already running ∷ []
    else if is_parallels be && is_parked st
    then (if resume.1 then resume.0 else resume.0 ++ start)
    else start

-- `powerOn`: the reports, and the state beforehand.
unfoldable pub power_on : World → ℕ → Backend → List Report × VmState
unfolding power_on_from
power_on w id be = let st = query_state w id be in (power_on_from w id be st, st)

unfoldable pub power_off_from : World → ℕ → Backend → VmState → List Report
unfolding power
power_off_from w id be st =
    if is_stopped st
    then already stopped ∷ []
    else (power w id be (codes "stop") st (codes "stopped")).0

unfoldable pub power_off : World → ℕ → Backend → List Report
unfolding power_off_from
power_off w id be = power_off_from w id be (query_state w id be)
