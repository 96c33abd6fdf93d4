-- ===== src/Cli/Session/Boxes.antt =====
-- The operations of takeover, start, stop, update, delete and uninstall keep what their parts keep.
use mpd_virt_macos.Base.{
  ℕ, zero, suc, Bool, true, List, [], ◌∷◌, list_eq, nat_eq, Option, none, some, Result, ok, err,
  refl, inl, inr, if◌then◌else◌,
}
use mpd_virt_macos.Text.{Text}
use mpd_virt_macos.Backend.{Backend, container, parallels, utm, generic, proxmox, other}
use mpd_virt_macos.Backend.Delete
use mpd_virt_macos.Backend.Utm.Create.{require_utm, osascript, utm_delete}
use mpd_virt_macos.Host.{Target}
use mpd_virt_macos.Machine.{Outside, Mac, Failure, pure, ◌>>=◌, sleep}
use mpd_virt_macos.Machine.Keeps.{Keeps, Keeps-bind, Keeps-if, Keeps-pure}
use mpd_virt_macos.Proxy.Client
use mpd_virt_macos.Registry
use mpd_virt_macos.Cli.Reach.{
  wire, wire_if, setup_reachability, resolves, verify_again, verify_reachable,
}
use mpd_virt_macos.Cli.Trust.{stale_for, stale_ca_present, check_ca_trust, report_ca_trust_store}
use mpd_virt_macos.Cli.Takeover.{
  step, passes, conforms, push_ca, provision, record_box, run_takeover, address_or_start,
  recorded_backend,
}
use mpd_virt_macos.Cli.Lifecycle.{
  verify_if, moved_to, wired_or, delete_box, stop_one, stop_each, uninstall_all,
}
use mpd_virt_macos.Cli.Session.Effects.{Effects, effect_rules}
use mpd_virt_macos.Cli.Session.Flows.{
  Keeps-succeed_or, Keeps-stream, Keeps-check, Keeps-remote_line, Keeps-push_lan_hosts,
  Keeps-load_or_generate_vm, Keeps-root_fingerprint,
}

module _ (o : Outside) {P : Mac → Type 0} (g : Effects o P) where
  Keeps-wire : (t : Target) (id : ℕ) (ip pub_key : Text) → Keeps P (wire o t id ip pub_key)
  unfolding wire Client.add
  Keeps-wire t id ip pub_key =
      search (effect_rules, Keeps-stream, Keeps-remote_line) depth 20 fits 4000

  Keeps-wire_if :
      (t : Target) (id : ℕ) (ip : Text) (r : Result Failure Text) → Keeps P (wire_if o t id ip r)
  Keeps-wire_if t id ip (err e) = search effect_rules
  Keeps-wire_if t id ip (ok k) = Keeps-wire t id ip k

  pub Keeps-setup_reachability :
      (t : Target) (id : ℕ) (ip : Text) → Keeps P (setup_reachability o t id ip)
  unfolding setup_reachability Client.pubkey
  Keeps-setup_reachability t id ip = search (effect_rules, Keeps-wire_if)

  Keeps-resolves : (id : ℕ) → Keeps P (resolves o id)
  unfolding resolves
  Keeps-resolves id = search effect_rules

  Keeps-verify_again : (id fuel : ℕ) → Keeps P (verify_again o id fuel)
  unfolding verify_again
  Keeps-verify_again id zero = search effect_rules
  Keeps-verify_again id (suc fuel) =
      Keeps-bind (sleep 1000000000)
        (λ u. resolves o id >>= λ found. if found then pure true else verify_again o id fuel)
        (g.slept 1000000000)
        (λ u.
          Keeps-bind (resolves o id) (λ found. if found then pure true else verify_again o id fuel)
            (Keeps-resolves id)
            (λ found.
              Keeps-if found (pure true) (verify_again o id fuel) (Keeps-pure true)
                (Keeps-verify_again id fuel)))

  Keeps-verify_reachable : (id : ℕ) → Keeps P (verify_reachable o id)
  unfolding verify_reachable
  Keeps-verify_reachable id = search (effect_rules, Keeps-verify_again)

  pub Keeps-verify_if : (id : ℕ) (wired : Bool) → Keeps P (verify_if o id wired)
  Keeps-verify_if id wired = search (effect_rules, Keeps-verify_reachable)

  pub Keeps-wired_or : (r : Result Failure Bool) → Keeps P (wired_or r)
  Keeps-wired_or (ok wired) = search effect_rules
  Keeps-wired_or (err e) = search effect_rules

  Keeps-stale_for : (r : Result Failure Text) → Keeps P (stale_for o r)
  Keeps-stale_for (err e) = search effect_rules
  Keeps-stale_for (ok want) = search effect_rules

  pub Keeps-check_ca_trust : Keeps P (check_ca_trust o)
  unfolding check_ca_trust stale_ca_present
  Keeps-check_ca_trust = search (effect_rules, Keeps-stale_for, Keeps-root_fingerprint) depth 10

  Keeps-step : (t : Target) (remote : Text) → Keeps P (step o t remote)
  unfolding step
  Keeps-step t remote = search (effect_rules, Keeps-stream)

  Keeps-passes : (t : Target) (remote words : Text) → Keeps P (passes o t remote words)
  unfolding passes
  Keeps-passes t remote words = search (effect_rules, Keeps-succeed_or)

  Keeps-conforms : (t : Target) (id : ℕ) → Keeps P (conforms o t id)
  unfolding conforms
  Keeps-conforms t id =
      search (effect_rules, Keeps-check, Keeps-remote_line, Keeps-passes) depth 20 fits 4000

  Keeps-push_ca : (t : Target) (id : ℕ) → Keeps P (push_ca o t id)
  unfolding push_ca
  Keeps-push_ca t id = search (
    effect_rules,
    g.pushed t _ _ _ (inl refl),
    g.pushed t _ _ _ (inr (inr (inl (id, refl)))),
    g.pushed t _ _ _ (inr (inr (inr (id, refl)))),
  )

  Keeps-provision : (t : Target) (id : ℕ) → Keeps P (provision o t id)
  unfolding provision
  Keeps-provision t id =
      search (effect_rules, Keeps-step, Keeps-push_ca, Keeps-push_lan_hosts) depth 20 fits 4000

  Keeps-record_box : (id : ℕ) (ip user : Text) (be : Backend) → Keeps P (record_box o id ip user be)
  unfolding record_box
  Keeps-record_box id ip user be = search effect_rules

  pub Keeps-run_takeover :
      (id : ℕ) (ip user : Text) (be : Backend) → Keeps P (run_takeover o id ip user be)
  unfolding run_takeover
  Keeps-run_takeover id ip user be =
      search
        (
          effect_rules, Keeps-conforms, Keeps-load_or_generate_vm, Keeps-provision,
          Keeps-record_box, Keeps-setup_reachability, Keeps-check_ca_trust,
        )
        depth 20 fits 4000

  pub Keeps-recorded_backend : (id : ℕ) (flag : Text) → Keeps P (recorded_backend o id flag)
  Keeps-recorded_backend id flag = search effect_rules

  pub Keeps-address_or_start :
      (id : ℕ) (be : Backend) (address : Option Text) → Keeps P (address_or_start o id be address)
  Keeps-address_or_start id be none = search effect_rules
  Keeps-address_or_start id be (some ip) = search effect_rules

  pub Keeps-moved_to : (e : Registry.Entry) (user ip : Text) → Keeps P (moved_to o e user ip)
  unfolding moved_to
  Keeps-moved_to e user ip = search effect_rules

  pub Keeps-osascript : (script : Text) → Keeps P (osascript o script)
  unfolding osascript
  Keeps-osascript script = search (effect_rules, Keeps-succeed_or)

  pub Keeps-require_utm : Keeps P require_utm
  unfolding require_utm
  Keeps-require_utm = search effect_rules

  Keeps-utm_delete : (id : ℕ) → Keeps P (utm_delete o id)
  unfolding utm_delete
  Keeps-utm_delete id = search (effect_rules, Keeps-require_utm, Keeps-osascript) depth 10

  Keeps-delete : (id : ℕ) (be : Backend) → Keeps P (Delete.delete o id be)
  unfolding Delete.delete
  Keeps-delete id container = search (effect_rules, Keeps-succeed_or)
  Keeps-delete id parallels = search (effect_rules, Keeps-succeed_or) depth 10
  Keeps-delete id utm = Keeps-utm_delete id
  Keeps-delete id proxmox = search effect_rules
  Keeps-delete id generic = search effect_rules
  Keeps-delete id (other s) = search effect_rules

  pub Keeps-delete_box :
      (id : ℕ) (be : Backend) (keep_vm : Bool) → Keeps P (delete_box o id be keep_vm)
  unfolding delete_box Client.remove
  Keeps-delete_box id be keep_vm = search (effect_rules, Keeps-delete) depth 12 fits 4000

  Keeps-stop_one : (e : Registry.Entry) → Keeps P (stop_one o e)
  unfolding stop_one
  Keeps-stop_one e = search effect_rules

  Keeps-stop_each : (es : List Registry.Entry) → Keeps P (stop_each o es)
  unfolding stop_each
  Keeps-stop_each [] = search effect_rules
  Keeps-stop_each (e ∷ es) =
      Keeps-bind (stop_one o e) (λ u. stop_each o es) (Keeps-stop_one e) (λ u. Keeps-stop_each es)

  pub Keeps-uninstall_all : (es : List Registry.Entry) → Keeps P (uninstall_all o es)
  unfolding uninstall_all report_ca_trust_store
  Keeps-uninstall_all es = search (effect_rules, Keeps-stop_each)
