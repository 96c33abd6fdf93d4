-- ===== src/Backend/Power/Verbs.antt =====
-- Which commands the power verbs issue, in which state of the box.
use mpd_virt_macos.Base.{
  ℕ, Bool, true, false, ◌&&◌, List, [], ◌∷◌, ◌++◌, some, list_eq, nat_eq, list_beq, ◌≡◌, refl,
  if◌then◌else◌, arith,
}
use mpd_virt_macos.Text.{Text, codes}
use mpd_virt_macos.Vmid.{name}
use mpd_virt_macos.Backend.{Backend, generic, parallels, container, utm, proxmox, other, managed}
use mpd_virt_macos.Backend.World.{World, Outcome, unavailable, refused, succeeded}
use mpd_virt_macos.Backend.State.{
  VmState, unknown, running, stopped, suspended, paused, query_state,
}
use mpd_virt_macos.Backend.Utm.{as_quote, utm_start_script, utm_stop_script}
use mpd_virt_macos.Backend.Power.{
  Report, already, command, not_here, refusal, power, power_on, power_on_from, power_off,
  power_off_from, ended, refusal_note, is_stopped, is_parallels, utm_note, utm_verb_script,
  utm_power, osascript_argv,
}

-- The commands among the reports, in order.
abbrev pub issued : List Report → List (List Text)
issued [] = []
issued (command argv ∷ rs) = argv ∷ issued rs
issued (already st ∷ rs) = issued rs
issued (not_here note ∷ rs) = issued rs
issued (refusal note ∷ rs) = issued rs

issued-append : (rs ss : List Report) → issued (rs ++ ss) ≡ issued rs ++ issued ss
issued-append [] ss = refl
issued-append (command argv ∷ rs) ss = rw (issued-append rs ss) refl
issued-append (already st ∷ rs) ss = issued-append rs ss
issued-append (not_here note ∷ rs) ss = issued-append rs ss
issued-append (refusal note ∷ rs) ss = issued-append rs ss

-- The script that tells UTM to do a verb on the virtual machine with a name.
abbrev pub utm_line : Text → Text → Text
utm_line verb name =
    codes "tell application \"UTM\"\n\t"
    ++ (verb ++ (codes " virtual machine named " ++ (as_quote name ++ codes "\nend tell")))

-- The command line of a power verb, for the backends that this machine can power.
abbrev pub verb_line : ℕ → Backend → Text → List (List Text)
verb_line id container verb = (codes "container" ∷ verb ∷ name id ∷ []) ∷ []
verb_line id parallels verb = (codes "prlctl" ∷ verb ∷ name id ∷ []) ∷ []
verb_line id utm verb = (codes "osascript" ∷ codes "-e" ∷ utm_line verb (name id) ∷ []) ∷ []
verb_line id generic verb = []
verb_line id proxmox verb = []
verb_line id (other s) verb = []

abbrev is_succeeded : Outcome → Bool
is_succeeded succeeded = true
is_succeeded _ = false

issued-ended :
    (argv : List Text) (note : Text) (o : Outcome)
    → (issued (ended argv note o).0 ≡ argv ∷ []) × ((ended argv note o).1 ≡ is_succeeded o)
issued-ended argv note succeeded = (refl, refl)
issued-ended argv note refused = (refl, refl)
issued-ended argv note unavailable = (refl, refl)

utm_ended : (argv : List Text) (o : Outcome) → issued (command argv ∷ utm_note o) ≡ argv ∷ []
utm_ended argv succeeded = refl
utm_ended argv refused = refl
utm_ended argv unavailable = refl

utm_start_lem :
    (name : Text) → utm_verb_script name (codes "start") ≡ some (utm_line (codes "start") name)
unfolding utm_verb_script utm_start_script list_beq
utm_start_lem name = refl

utm_stop_lem :
    (name : Text) → utm_verb_script name (codes "stop") ≡ some (utm_line (codes "stop") name)
unfolding utm_verb_script utm_stop_script list_beq
utm_stop_lem name = refl

issued-power :
    (w : World) (id : ℕ) (be : Backend) (verb : Text) (was : VmState) (want : Text)
    → utm_verb_script (name id) verb ≡ some (utm_line verb (name id))
    → issued (power w id be verb was want).0 ≡ verb_line id be verb
unfolding power utm_power
issued-power w id container verb was want h =
    (issued-ended (codes "container" ∷ verb ∷ name id ∷ []) (refusal_note id was want)
      (w.run_verb (codes "container" ∷ verb ∷ name id ∷ []))).0
issued-power w id parallels verb was want h =
    (issued-ended (codes "prlctl" ∷ verb ∷ name id ∷ []) (refusal_note id was want)
      (w.run_verb (codes "prlctl" ∷ verb ∷ name id ∷ []))).0
issued-power w id utm verb was want h = rw h (
    utm_ended (osascript_argv (utm_line verb (name id)))
      (w.run_verb (osascript_argv (utm_line verb (name id)))))
issued-power w id generic verb was want h = refl
issued-power w id proxmox verb was want h = refl
issued-power w id (other s) verb was want h = refl

abbrev pub resume_line : ℕ → List Text
resume_line id = codes "prlctl" ∷ codes "resume" ∷ name id ∷ []

-- `resume`, and `start` behind it if that fails.
abbrev pub resumed : World → ℕ → List (List Text)
resumed w id =
    resume_line id
    ∷ (if is_succeeded (w.run_verb (resume_line id))
        then []
        else verb_line id parallels (codes "start"))

-- What is to be issued to bring up a box in each state.
abbrev pub on_commands : World → ℕ → Backend → VmState → List (List Text)
on_commands w id be running = []
on_commands w id parallels suspended = resumed w id
on_commands w id parallels paused = resumed w id
on_commands w id be st = verb_line id be (codes "start")

issued-start :
    (w : World) (id : ℕ) (be : Backend) (st : VmState)
    → issued (power w id be (codes "start") st (codes "running")).0
      ≡ verb_line id be (codes "start")
issued-start w id be st =
    issued-power w id be (codes "start") st (codes "running") (utm_start_lem (name id))

resume_ended :
    (w : World) (id : ℕ) (st : VmState) (o : Outcome)
    → (o ≡ w.run_verb (resume_line id))
    → issued (
        let resume = ended (resume_line id) (refusal_note id st (codes "running")) o in
        if resume.1
        then resume.0
        else resume.0 ++ (power w id parallels (codes "start") st (codes "running")).0)
      ≡ resume_line id ∷ (if is_succeeded o then [] else verb_line id parallels (codes "start"))
resume_ended w id st succeeded e = refl
resume_ended w id st refused e = rw (issued-start w id parallels st) refl
resume_ended w id st unavailable e = rw (issued-start w id parallels st) refl

&&_false : (b : Bool) → (b && false) ≡ false
&&_false true = refl
&&_false false = refl

issued-power_on_from :
    (w : World) (id : ℕ) (be : Backend) (st : VmState)
    → issued (power_on_from w id be st) ≡ on_commands w id be st
unfolding power_on_from
issued-power_on_from w id be running = refl
issued-power_on_from w id be unknown =
    rw (&&_false (is_parallels be)) (issued-start w id be unknown)
issued-power_on_from w id be stopped =
    rw (&&_false (is_parallels be)) (issued-start w id be stopped)
issued-power_on_from w id parallels suspended =
    resume_ended w id suspended (w.run_verb (resume_line id)) refl
issued-power_on_from w id generic suspended = issued-start w id generic suspended
issued-power_on_from w id container suspended = issued-start w id container suspended
issued-power_on_from w id utm suspended = issued-start w id utm suspended
issued-power_on_from w id proxmox suspended = issued-start w id proxmox suspended
issued-power_on_from w id (other s) suspended = issued-start w id (other s) suspended
issued-power_on_from w id parallels paused =
    resume_ended w id paused (w.run_verb (resume_line id)) refl
issued-power_on_from w id generic paused = issued-start w id generic paused
issued-power_on_from w id container paused = issued-start w id container paused
issued-power_on_from w id utm paused = issued-start w id utm paused
issued-power_on_from w id proxmox paused = issued-start w id proxmox paused
issued-power_on_from w id (other s) paused = issued-start w id (other s) paused

-- `powerOn` issues nothing for a box that runs; for a Parallels box that is suspended or paused it
-- issues `resume`, and behind it `start` only if that does not succeed; for any other state it
-- issues the backend's `start`, which for UTM is the script that starts the virtual machine with
-- the name of the box, and nothing for a backend that this machine cannot power.
pub power_on_lem :
    (w : World) (id : ℕ) (be : Backend)
    → issued (power_on w id be).0 ≡ on_commands w id be (query_state w id be)
unfolding power_on
power_on_lem w id be = issued-power_on_from w id be (query_state w id be)

-- `powerOff` issues nothing for a box that is stopped, and otherwise one `stop`, which for UTM is
-- the script that stops the virtual machine with the name of the box, and which is none for a
-- backend that this machine cannot power.
pub power_off_lem :
    (w : World) (id : ℕ) (be : Backend)
    → issued (power_off w id be)
      ≡ (if is_stopped (query_state w id be) then [] else verb_line id be (codes "stop"))
unfolding power_off power_off_from
power_off_lem w id be =
    elim (query_state w id be)
      as (λ st.
        issued (power_off_from w id be st)
        ≡ (if is_stopped st then [] else verb_line id be (codes "stop"))) [
          | stopped ↦ refl
          | st ↦ issued-power w id be (codes "stop") st (codes "stopped") (utm_stop_lem (name id))
        ]

-- Both verbs issue no command at all for a backend that is not `managed`.
unmanaged_silent :
    (w : World) (id : ℕ) (be : Backend)
    → managed be ≡ false
    → (issued (power_on w id be).0 ≡ []) × (issued (power_off w id be) ≡ [])
unfolding managed query_state
unmanaged_silent w id generic h = (power_on_lem w id generic, power_off_lem w id generic)
unmanaged_silent w id proxmox h = (power_on_lem w id proxmox, power_off_lem w id proxmox)
unmanaged_silent w id (other s) h = (power_on_lem w id (other s), power_off_lem w id (other s))
unmanaged_silent w id container h = ground arith
unmanaged_silent w id parallels h = ground arith
unmanaged_silent w id utm h = ground arith
