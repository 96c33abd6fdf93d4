-- ===== src/Cli/Session/Powered.antt =====
-- The commands of the start and the stop of a box keep the log safe.
use mpd_virt_macos.Base.{
  arith, ℕ, zero, suc, Bool, true, false, [], list_eq, nat_eq, list_beq, if◌then◌else◌, refl, All,
  All-append,
}
use mpd_virt_macos.Text.{Text, codes}
use mpd_virt_macos.Backend.{Backend, container, parallels, utm, generic, proxmox, other}
use mpd_virt_macos.Backend.World.{World}
use mpd_virt_macos.Backend.State.{
  VmState, running, stopped, suspended, paused, unknown, query_state,
}
use mpd_virt_macos.Backend.Power.{is_stopped}
use mpd_virt_macos.Backend.Power.Verbs.{
  verb_line, on_commands, resumed, power_on_lem, power_off_lem,
}
use mpd_virt_macos.Backend.Start
use mpd_virt_macos.Backend.Queries.{state_query, address_query, searches, issue_all}
use mpd_virt_macos.Host.{Log}
use mpd_virt_macos.Machine.{Outside}
use mpd_virt_macos.Machine.Exec.{allowed}
use mpd_virt_macos.Machine.Keeps.{Keeps}
use mpd_virt_macos.Cli.Takeover.{start_box}
use mpd_virt_macos.Cli.Lifecycle.{stop_box}
use mpd_virt_macos.Cli.Session.{IsSafe, SafeLog}

module _ (o : Outside) where
  verbs_IsSafe : (id : ℕ) (be : Backend) (verb : Text) → All (IsSafe o) (verb_line id be verb)
  unfolding allowed list_beq
  verbs_IsSafe id container verb = ((refl, λ h. ground arith), tt)
  verbs_IsSafe id parallels verb = ((refl, λ h. ground arith), tt)
  verbs_IsSafe id utm verb = ((refl, λ h. ground arith), tt)
  verbs_IsSafe id generic verb = tt
  verbs_IsSafe id proxmox verb = tt
  verbs_IsSafe id (other s) verb = tt

  All-if :
      (b : Bool) (xs ys : Log)
      → All (IsSafe o) xs
      → All (IsSafe o) ys
      → All (IsSafe o) (if b then xs else ys)
  All-if true xs ys hx hy = hx
  All-if false xs ys hx hy = hy

  resumed-IsSafe : (w : World) (id : ℕ) → All (IsSafe o) (resumed w id)
  unfolding allowed list_beq
  resumed-IsSafe w id = (
    (refl, λ h. ground arith),
    All-if _ [] (verb_line id parallels (codes "start")) tt
        (verbs_IsSafe id parallels (codes "start")),
  )

  starts_IsSafe :
      (w : World) (id : ℕ) (be : Backend) (st : VmState) → All (IsSafe o) (on_commands w id be st)
  starts_IsSafe w id be running = tt
  starts_IsSafe w id parallels suspended = resumed-IsSafe w id
  starts_IsSafe w id parallels paused = resumed-IsSafe w id
  starts_IsSafe w id be unknown = verbs_IsSafe id be (codes "start")
  starts_IsSafe w id be stopped = verbs_IsSafe id be (codes "start")
  starts_IsSafe w id generic suspended = tt
  starts_IsSafe w id container suspended = verbs_IsSafe id container (codes "start")
  starts_IsSafe w id utm suspended = verbs_IsSafe id utm (codes "start")
  starts_IsSafe w id proxmox suspended = tt
  starts_IsSafe w id (other s) suspended = tt
  starts_IsSafe w id generic paused = tt
  starts_IsSafe w id container paused = verbs_IsSafe id container (codes "start")
  starts_IsSafe w id utm paused = verbs_IsSafe id utm (codes "start")
  starts_IsSafe w id proxmox paused = tt
  starts_IsSafe w id (other s) paused = tt

  state_query-IsSafe : (id : ℕ) (be : Backend) → All (IsSafe o) (state_query id be)
  unfolding state_query allowed list_beq
  state_query-IsSafe id container = ((refl, λ h. ground arith), tt)
  state_query-IsSafe id parallels = ((refl, λ h. ground arith), tt)
  state_query-IsSafe id utm = ((refl, λ h. ground arith), tt)
  state_query-IsSafe id generic = tt
  state_query-IsSafe id proxmox = tt
  state_query-IsSafe id (other s) = tt

  address_query-IsSafe : (id : ℕ) (be : Backend) → All (IsSafe o) (address_query id be)
  unfolding address_query allowed list_beq
  address_query-IsSafe id container = ((refl, λ h. ground arith), tt)
  address_query-IsSafe id parallels = ((refl, λ h. ground arith), tt)
  address_query-IsSafe id utm = ((refl, λ h. ground arith), tt)
  address_query-IsSafe id generic = tt
  address_query-IsSafe id proxmox = tt
  address_query-IsSafe id (other s) = tt

  searches-IsSafe : (id : ℕ) (be : Backend) (n : ℕ) → All (IsSafe o) (searches id be n)
  unfolding searches
  searches-IsSafe id be zero = address_query-IsSafe id be
  searches-IsSafe id be (suc n) =
      All-append (IsSafe o) (address_query id be) (searches id be n) (address_query-IsSafe id be)
        (searches-IsSafe id be n)

  pub Keeps-start_box : (id : ℕ) (be : Backend) → Keeps (SafeLog o) (start_box o id be)
  unfolding start_box Start.start issue_all
  Keeps-start_box id be = record {
    at = λ m h.
        All-append (IsSafe o) _ _
          (All-append (IsSafe o) m.log _ h (
            All-append (IsSafe o) (state_query id be) _ (state_query-IsSafe id be) (
              rw (power_on_lem (o.before m.log) id be)
                (starts_IsSafe (o.before m.log) id be (query_state (o.before m.log) id be)))))
          (searches-IsSafe id be _);
  }

  pub Keeps-stop_box : (id : ℕ) (be : Backend) → Keeps (SafeLog o) (stop_box o id be)
  unfolding stop_box issue_all
  Keeps-stop_box id be = record {
    at = λ m h. All-append (IsSafe o) m.log _ h (
        All-append (IsSafe o) (state_query id be) _ (state_query-IsSafe id be) (
          rw (power_off_lem (o.before m.log) id be) (
            All-if (is_stopped (query_state (o.before m.log) id be)) []
              (verb_line id be (codes "stop")) tt (verbs_IsSafe id be (codes "stop")))));
  }
