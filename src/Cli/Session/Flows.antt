-- ===== src/Cli/Session/Flows.antt =====
-- The operations on a box and on the CA keep what its parts keep.
use mpd_virt_macos.Base.{ℕ, List, [], ◌∷◌, list_eq, nat_eq, Option, none, some, refl, inl, inr}
use mpd_virt_macos.Text.{Text}
use mpd_virt_macos.Fs.{FilePath}
use mpd_virt_macos.Host.{Target, Answer, not_launched, ended}
use mpd_virt_macos.Host.Remote.{ssh, stream, probe, check, remote_line}
use mpd_virt_macos.Machine.{Cert, Outside, Mac, Failure}
use mpd_virt_macos.Machine.Exec.{succeed_or, code_or, run}
use mpd_virt_macos.Machine.Keeps.{Keeps, Keeps-bind, keeps_rules}
use mpd_virt_macos.Ca.{
  vm_cert_path, vm_key_path, or_failed, write_pem, write_key_pem, base_template, file_exists,
  load_root, root_days_left, generate_vm, load_or_generate_vm, issue_leaf_for, issue_leaf,
  days_until_expiry, root_fingerprint,
}
use mpd_virt_macos.Registry
use mpd_virt_macos.Cli.LanHosts.{
  push_lan_hosts, republish, sync_lan_hosts, sync_box, sync_boxes, chosen, server_sync,
  sync_command,
}
use mpd_virt_macos.Cli.Session.Effects.{Effects, Issue, vm_cert, vm_key, effect_rules}

module _ {P : Mac → Type 0} where
  pub Keeps-or_failed : {A : Type 0} (words : Text) (a : Option A) → Keeps P (or_failed words a)
  Keeps-or_failed words none = search keeps_rules
  Keeps-or_failed words (some a) = search keeps_rules

  pub Keeps-succeed_or : (e : Failure) (a : Answer) → Keeps P (succeed_or e a)
  unfolding succeed_or
  Keeps-succeed_or e (not_launched t) = search keeps_rules
  Keeps-succeed_or e (ended r) = search keeps_rules

  pub Keeps-code_or : (a : Answer) → Keeps P (code_or a)
  Keeps-code_or (not_launched t) = search keeps_rules
  Keeps-code_or (ended r) = search keeps_rules

module _ (o : Outside) {P : Mac → Type 0} (g : Effects o P) where
  pub Keeps-ssh : (t : Target) (remote : Text) → Keeps P (ssh o t remote)
  unfolding ssh
  Keeps-ssh t remote = search effect_rules

  pub Keeps-stream : (t : Target) (remote : Text) → Keeps P (stream o t remote)
  unfolding stream run
  Keeps-stream t remote = search (effect_rules, Keeps-code_or)

  pub Keeps-probe : (t : Target) → Keeps P (probe o t)
  unfolding probe
  Keeps-probe t = search effect_rules

  pub Keeps-check : (t : Target) → Keeps P (check o t)
  unfolding check
  Keeps-check t = search effect_rules

  pub Keeps-remote_line : (t : Target) (remote : Text) → Keeps P (remote_line o t remote)
  unfolding remote_line
  Keeps-remote_line t remote = search effect_rules

  Keeps-write_pem : (p : FilePath) (kind der : Text) → Issue o p → Keeps P (write_pem o p kind der)
  Keeps-write_pem = g.issued

  Keeps-write_key_pem : (p : FilePath) (key : Text) → Issue o p → Keeps P (write_key_pem o p key)
  unfolding write_key_pem
  Keeps-write_key_pem p key i = search (effect_rules, Keeps-or_failed, Keeps-write_pem)

  Keeps-base_template : (cn : Text) (days : ℕ) → Keeps P (base_template o cn days)
  unfolding base_template
  Keeps-base_template cn days = search effect_rules

  Keeps-file_exists : (p : FilePath) → Keeps P (file_exists p)
  unfolding file_exists
  Keeps-file_exists p = search effect_rules

  Keeps-load_root : Keeps P (load_root o)
  unfolding load_root
  Keeps-load_root = search (effect_rules, Keeps-or_failed) depth 20 fits 4000

  Keeps-root_days_left : (root : Cert) → Keeps P (root_days_left root)
  unfolding root_days_left
  Keeps-root_days_left root = search effect_rules

  Keeps-vm_cert :
      (id : ℕ) (kind der : Text) → Keeps P (write_pem o (vm_cert_path o.root id) kind der)
  Keeps-vm_cert id kind der = g.issued (vm_cert_path o.root id) kind der (vm_cert id)

  Keeps-vm_key : (id : ℕ) (key : Text) → Keeps P (write_key_pem o (vm_key_path o.root id) key)
  Keeps-vm_key id key = Keeps-write_key_pem (vm_key_path o.root id) key (vm_key id)

  Keeps-generate_vm : (id : ℕ) → Keeps P (generate_vm o id)
  unfolding generate_vm
  Keeps-generate_vm id =
      search
        (
          effect_rules,
          Keeps-load_root,
          Keeps-root_days_left,
          Keeps-or_failed,
          Keeps-base_template,
          Keeps-vm_cert id,
          Keeps-vm_key id,
        )
        depth 30 fits 8000

  pub Keeps-load_or_generate_vm : (id : ℕ) → Keeps P (load_or_generate_vm o id)
  unfolding load_or_generate_vm
  Keeps-load_or_generate_vm id = search (effect_rules, Keeps-generate_vm)

  Keeps-issue_leaf_for :
      (s : Text) (sans : List Text) (cert key : FilePath)
      → Issue o cert
      → Issue o key
      → Keeps P (issue_leaf_for o s sans cert key)
  unfolding issue_leaf_for
  Keeps-issue_leaf_for s sans cert key ic ik =
      search
        (
          effect_rules, Keeps-load_root, Keeps-root_days_left, Keeps-or_failed, Keeps-write_pem,
          Keeps-write_key_pem,
        )
        depth 30 fits 8000

  pub Keeps-issue_leaf :
      (sans : List Text) (cert key : FilePath)
      → Issue o cert
      → Issue o key
      → Keeps P (issue_leaf o sans cert key)
  unfolding issue_leaf
  Keeps-issue_leaf [] cert key ic ik = search effect_rules
  Keeps-issue_leaf (s ∷ sans) cert key ic ik = Keeps-issue_leaf_for s sans cert key ic ik

  pub Keeps-days_until_expiry : (p : FilePath) → Keeps P (days_until_expiry o p)
  unfolding days_until_expiry
  Keeps-days_until_expiry p = search (effect_rules, Keeps-or_failed) depth 20 fits 4000

  pub Keeps-root_fingerprint : Keeps P (root_fingerprint o)
  unfolding root_fingerprint
  Keeps-root_fingerprint = search (effect_rules, Keeps-or_failed) depth 20 fits 4000

  pub Keeps-push_lan_hosts : (t : Target) → Keeps P (push_lan_hosts o t)
  unfolding push_lan_hosts
  Keeps-push_lan_hosts t =
      search (effect_rules, Keeps-remote_line, g.pushed t _ _ _ (inr (inl refl))) depth 20 fits 4000

  Keeps-republish : (t : Target) → Keeps P (republish o t)
  unfolding republish
  Keeps-republish t = search (effect_rules, Keeps-stream)

  pub Keeps-sync_lan_hosts : (t : Target) → Keeps P (sync_lan_hosts o t)
  unfolding sync_lan_hosts
  Keeps-sync_lan_hosts t = search (effect_rules, Keeps-push_lan_hosts, Keeps-republish)

  Keeps-sync_box : (e : Registry.Entry) → Keeps P (sync_box o e)
  unfolding sync_box
  Keeps-sync_box e = search (effect_rules, Keeps-check, Keeps-sync_lan_hosts)

  Keeps-sync_boxes : (es : List Registry.Entry) → Keeps P (sync_boxes o es)
  unfolding sync_boxes
  Keeps-sync_boxes [] = search effect_rules
  Keeps-sync_boxes (e ∷ es) =
      Keeps-bind (sync_box o e) (λ u. sync_boxes o es) (Keeps-sync_box e) (λ u. Keeps-sync_boxes es)

  Keeps-chosen : (only : Option ℕ) (boxes : List Registry.Entry) → Keeps P (chosen o only boxes)
  Keeps-chosen none boxes = search effect_rules
  Keeps-chosen (some id) boxes = search effect_rules

  Keeps-server_sync : (only : Option ℕ) → Keeps P (server_sync o only)
  unfolding server_sync
  Keeps-server_sync only = search (effect_rules, Keeps-chosen, Keeps-sync_boxes) depth 20 fits 4000

  pub Keeps-sync_command : (arg : Option Text) → Keeps P (sync_command o arg)
  unfolding sync_command
  Keeps-sync_command none = Keeps-server_sync none
  Keeps-sync_command (some arg) = search (effect_rules, Keeps-server_sync)
