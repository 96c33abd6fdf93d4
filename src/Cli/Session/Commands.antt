-- ===== src/Cli/Session/Commands.antt =====
-- Every command keeps what its parts keep.
use mpd_virt_macos.Base.{
  Bool, List, [], ◌∷◌, ◌++◌, list_eq, nat_eq, Option, none, some, Result, ok, err, if◌then◌else◌,
}
use mpd_virt_macos.Text.{Text}
use mpd_virt_macos.Fs.{FilePath, write_file}
use mpd_virt_macos.Server
use mpd_virt_macos.Server.{normalise, service_host}
use mpd_virt_macos.EtcHosts.{member}
use mpd_virt_macos.Text.Decimal.{ℤ, pos, negsuc}
use mpd_virt_macos.Machine.{io_failed, io, Outside, bad_name, lift, Mac, Failure}
use mpd_virt_macos.Machine.Keeps.{Keeps, Keeps-bind, Keeps-lift}
use mpd_virt_macos.Cli.Takeover
use mpd_virt_macos.Cli.Listing.{list_boxes}
use mpd_virt_macos.Cli.Lifecycle
use mpd_virt_macos.Cli.Servers
use mpd_virt_macos.Cli.Servers.{
  register, etc_hosts_reminder, all_sans, reminder_for, plenty, still_valid, written_to,
}
use mpd_virt_macos.Cli.Session.{
  Verb, takeover, start, update, stop, create, delete, list, uninstall, server_add, server_list,
  server_sync, server_delete, server_cert, ca_export, execute,
}
use mpd_virt_macos.Cli.Session.Effects.{Effects, leaf_cert, leaf_key, effect_rules}
use mpd_virt_macos.Cli.Session.Flows.{
  Keeps-stream, Keeps-push_lan_hosts, Keeps-sync_lan_hosts, Keeps-sync_command, Keeps-issue_leaf,
  Keeps-days_until_expiry,
}
use mpd_virt_macos.Cli.Session.Boxes.{
  Keeps-setup_reachability, Keeps-verify_if, Keeps-wired_or, Keeps-check_ca_trust,
  Keeps-run_takeover, Keeps-recorded_backend, Keeps-address_or_start, Keeps-moved_to,
  Keeps-delete_box, Keeps-uninstall_all,
}
use mpd_virt_macos.Cli.Session.Fresh.{Keeps-read_pub_key, Keeps-create}
use mpd_virt_macos.Ca.{file_exists}

module _ (o : Outside) {P : Mac → Type 0} (g : Effects o P) where
  Keeps-reminder : Keeps P (etc_hosts_reminder o)
  unfolding etc_hosts_reminder
  Keeps-reminder = search effect_rules

  Keeps-register : (e : Server.Entry) → Keeps P (register o e)
  unfolding register
  Keeps-register e = search effect_rules depth 12

  Keeps-all_sans : (sans raws : List Text) → Keeps P (all_sans sans raws)
  unfolding all_sans
  Keeps-all_sans sans [] = search effect_rules
  Keeps-all_sans sans (r ∷ raws) =
      Keeps-bind (lift bad_name (normalise r))
        (λ label.
          all_sans
            (if member sans (service_host label) then sans else sans ++ service_host label ∷ [])
            raws)
        (Keeps-lift bad_name (normalise r))
        (λ label.
          Keeps-all_sans
            (if member sans (service_host label) then sans else sans ++ service_host label ∷ [])
            raws)

  Keeps-plenty : (r : Result Failure ℤ) → Keeps P (plenty r)
  Keeps-plenty (ok (pos n)) = search effect_rules
  Keeps-plenty (ok (negsuc n)) = search effect_rules
  Keeps-plenty (err e) = search effect_rules

  Keeps-still_valid : (p : FilePath) (force : Bool) → Keeps P (still_valid o p force)
  unfolding still_valid file_exists
  Keeps-still_valid p force = search (effect_rules, Keeps-days_until_expiry, Keeps-plenty)

  -- The file that the export of the root CA is written to, which the user names.
  abbrev pub Exports : Option FilePath → Type 0
  Exports none = Unit
  Exports (some p) = (pem : Text) → Keeps P (io io_failed (write_file p pem))

  abbrev pub IsMild : Verb → Type 0
  IsMild (ca_export p) = Exports p
  IsMild v = Unit

  Keeps-written_to : (pem : Text) (p : Option FilePath) → Exports p → Keeps P (written_to pem p)
  Keeps-written_to pem none k = search effect_rules
  Keeps-written_to pem (some p) k = k pem

  Keeps-server_add : (arg ip : Text) → Keeps P (Servers.server_add o arg ip)
  unfolding Servers.server_add
  Keeps-server_add arg ip = search (effect_rules, Keeps-register, Keeps-reminder) depth 12

  Keeps-reminder_for : (only : Bool) (es : List Server.Entry) → Keeps P (reminder_for o only es)
  Keeps-reminder_for only [] = search effect_rules
  Keeps-reminder_for only (e ∷ es) = search (effect_rules, Keeps-reminder)

  Keeps-server_list : (only : Bool) → Keeps P (Servers.server_list o only)
  unfolding Servers.server_list
  Keeps-server_list only = search (effect_rules, Keeps-reminder_for)

  Keeps-server_delete :
      (arg : Text) (typed : Option Text) (sure : Bool)
      → Keeps P (Servers.server_delete o arg typed sure)
  unfolding Servers.server_delete
  Keeps-server_delete arg typed sure = search effect_rules depth 12

  Keeps-server_cert :
      (arg : Text) (extra : List Text) (force : Bool)
      → Keeps P (Servers.server_cert o arg extra force)
  unfolding Servers.server_cert
  Keeps-server_cert arg extra force =
      search
        (effect_rules, Keeps-all_sans, Keeps-still_valid, Keeps-issue_leaf, leaf_cert, leaf_key)
        depth 12

  Keeps-ca_export : (p : Option FilePath) → Exports p → Keeps P (Servers.ca_export o p)
  unfolding Servers.ca_export
  Keeps-ca_export p k = search (effect_rules, Keeps-written_to) depth 12

  pub Keeps-execute : (v : Verb) → IsMild v → Keeps P (execute o v)
  unfolding execute list_boxes Takeover.takeover Lifecycle.start Lifecycle.update Lifecycle.stop
      Lifecycle.delete Lifecycle.uninstall Lifecycle.create
  Keeps-execute (takeover arg address user flag) k =
      search (effect_rules, Keeps-recorded_backend, Keeps-address_or_start, Keeps-run_takeover)
        depth 12
  Keeps-execute (start arg flag) k =
      search
        (
          effect_rules, Keeps-moved_to, Keeps-sync_lan_hosts, Keeps-setup_reachability,
          Keeps-verify_if, Keeps-check_ca_trust,
        )
        depth 20 fits 4000
  Keeps-execute (update arg flag) k =
      search
        (
          effect_rules, Keeps-push_lan_hosts, Keeps-stream, Keeps-setup_reachability,
          Keeps-wired_or, Keeps-verify_if,
        )
        depth 20 fits 4000
  Keeps-execute (create ssh_dir arg flag user key opts) k =
      search (effect_rules, Keeps-read_pub_key, Keeps-create, Keeps-run_takeover) depth 12
  Keeps-execute (stop arg) k = search effect_rules depth 12
  Keeps-execute (delete arg typed sure keep_vm) k = search (effect_rules, Keeps-delete_box) depth 12
  Keeps-execute list k = search effect_rules
  Keeps-execute (uninstall typed sure) k = search (effect_rules, Keeps-uninstall_all) depth 12
  Keeps-execute (server_sync only) k = Keeps-sync_command o g only
  Keeps-execute (server_add arg ip) k = search (effect_rules, Keeps-server_add)
  Keeps-execute (server_list only) k = search (effect_rules, Keeps-server_list)
  Keeps-execute (server_delete arg typed sure) k = Keeps-server_delete arg typed sure
  Keeps-execute (server_cert arg extra force) k = Keeps-server_cert arg extra force
  Keeps-execute (ca_export path) k = search (effect_rules, Keeps-ca_export path k)
