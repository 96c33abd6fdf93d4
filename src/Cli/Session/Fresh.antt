-- ===== src/Cli/Session/Fresh.antt =====
-- Making a new box keeps what its parts keep.
use mpd_virt_macos.Base.{
  ℕ, zero, suc, Bool, true, false, ltb, List, [], ◌∷◌, ◌++◌, list_eq, nat_eq, Option, none, some,
  Result, ok, err, if◌then◌else◌,
}
use mpd_virt_macos.Text.{Text, codes, trim_space}
use mpd_virt_macos.Text.Decimal.{ℤ}
use mpd_virt_macos.Vmid.{name}
use mpd_virt_macos.Fs.Files.{remove}
use mpd_virt_macos.Fs.{remove_all, FilePath}
use mpd_virt_macos.Backend.{Backend, container, parallels, utm, generic, proxmox, other}
use mpd_virt_macos.Backend.Create.{
  CreateOpts, container_exists, systemd_loop, wait_systemd, in_container, is_booted, stdout_of,
  systemd_probe, two_seconds, launched, exec_steps, seed_identity, seed_resolver, container_create,
}
use mpd_virt_macos.Backend.Cloudinit.{make_cidata_iso}
use mpd_virt_macos.Backend.Cloudinit.Disk.{materialize_disk}
use mpd_virt_macos.Backend.Utm.Create.{
  raw_name, staging_of, utm_vm_exists, says_yes, utm_vm_status, status_or_nil, poll, poll_for,
  wait_reachable, wait_cloud_init, wait_stopped, first_boot, or_clean_up, utm_create,
}
use mpd_virt_macos.Backend.Delete
use mpd_virt_macos.Host.{Target, Answer, not_launched, ended, Command}
use mpd_virt_macos.Machine.{
  Outside, Mac, ◌>>◌, Failure, Run, io_failed, pure, raise, said, gets, io, sleep, ◌>>=◌, attempt,
}
use mpd_virt_macos.Machine.Exec.{capture, capture_ok}
use mpd_virt_macos.Machine.Keeps.{Keeps, Keeps-bind, Keeps-attempt}
use mpd_virt_macos.Cli.Lifecycle.{found_or_fail, key_path, read_pub_key}
use mpd_virt_macos.Cli.Session.Effects.{Effects, effect_rules}
use mpd_virt_macos.Cli.Session.Flows.{Keeps-succeed_or, Keeps-probe}
use mpd_virt_macos.Cli.Session.Boxes.{Keeps-osascript}

module _ (o : Outside) {P : Mac → Type 0} (g : Effects o P) where
  Keeps-found : (p : Option FilePath) → Keeps P (found_or_fail p)
  Keeps-found none = search effect_rules
  Keeps-found (some p) = search effect_rules

  Keeps-key_path : (dir : FilePath) (flag : Option FilePath) → Keeps P (key_path dir flag)
  unfolding key_path
  Keeps-key_path dir none = search (effect_rules, Keeps-found)
  Keeps-key_path dir (some p) = search effect_rules

  pub Keeps-read_pub_key :
      (dir : FilePath) (flag : Option FilePath) → Keeps P (read_pub_key dir flag)
  unfolding read_pub_key
  Keeps-read_pub_key dir flag = search (effect_rules, Keeps-key_path) depth 10

  Keeps-systemd_loop :
      (name : Text) (deadline fuel : ℕ) → Keeps P (systemd_loop o name deadline fuel)
  unfolding systemd_loop
  Keeps-systemd_loop name deadline zero = search effect_rules
  Keeps-systemd_loop name deadline (suc fuel) =
      systemd_round (systemd_loop o name deadline fuel) (Keeps-systemd_loop name deadline fuel)
    where
      systemd_round :
          (rest : Run (Unit {0}))
          → Keeps P rest
          → Keeps P (
              capture o (systemd_probe name) >>= λ a. gets (λ m. m.now) >>= λ now.
              if is_booted (trim_space (stdout_of a))
              then pure tt
              else if ltb now deadline
              then (sleep two_seconds >> rest)
              else raise (said (codes "did not finish booting systemd in time")))
      systemd_round rest k = search effect_rules depth 20 fits 4000

  Keeps-exec_steps : (name : Text) (steps : List Command) → Keeps P (exec_steps o name steps)
  unfolding exec_steps
  Keeps-exec_steps name [] = search effect_rules
  Keeps-exec_steps name (s ∷ steps) =
      Keeps-bind (capture_ok o (in_container name s) (said (codes "provisioning failed")))
        (λ u. exec_steps o name steps) (search (effect_rules, Keeps-succeed_or))
        (λ u. Keeps-exec_steps name steps)

  Keeps-launched : (a : Answer) → Keeps P (launched a)
  Keeps-launched (not_launched e) = search effect_rules
  Keeps-launched (ended r) = search effect_rules

  Keeps-seed_resolver : (name : Text) → Keeps P (seed_resolver o name)
  unfolding seed_resolver
  Keeps-seed_resolver name =
      search (effect_rules, Keeps-succeed_or, Keeps-launched) depth 20 fits 4000

  Keeps-container_create : (id : ℕ) (opts : CreateOpts) → Keeps P (container_create o id opts)
  unfolding container_create container_exists wait_systemd seed_identity
  Keeps-container_create id opts =
      search
        (effect_rules, Keeps-succeed_or, Keeps-systemd_loop, Keeps-exec_steps, Keeps-seed_resolver)
        depth 20 fits 8000

  Keeps-says_yes : (r : Result Failure Text) → Keeps P (says_yes r)
  Keeps-says_yes (ok out) = search effect_rules
  Keeps-says_yes (err e) = search effect_rules

  Keeps-status_or_nil : (r : Result Failure Text) → Keeps P (status_or_nil r)
  Keeps-status_or_nil (ok out) = search effect_rules
  Keeps-status_or_nil (err e) = search effect_rules

  Keeps-utm_vm_exists : (name : Text) → Keeps P (utm_vm_exists o name)
  unfolding utm_vm_exists
  Keeps-utm_vm_exists name = search (effect_rules, Keeps-osascript, Keeps-says_yes)

  Keeps-utm_vm_status : (name : Text) → Keeps P (utm_vm_status o name)
  unfolding utm_vm_status
  Keeps-utm_vm_status name = search (effect_rules, Keeps-osascript, Keeps-status_or_nil)

  Keeps-poll :
      (test : Run Bool) (nap deadline fuel : ℕ)
      → Keeps P test
      → Keeps P (poll test nap deadline fuel)
  unfolding poll
  Keeps-poll test nap deadline zero k = search effect_rules
  Keeps-poll test nap deadline (suc fuel) k =
      poll_round (poll test nap deadline fuel) (Keeps-poll test nap deadline fuel k)
    where
      poll_round :
          (rest : Run Bool)
          → Keeps P rest
          → Keeps P (
              gets (λ m. m.now) >>= λ now.
              if ltb now deadline
              then (test >>= λ up. if up then pure true else (sleep nap >> rest))
              else pure false)
      poll_round rest r = search effect_rules depth 20 fits 4000

  Keeps-wait_reachable : (t : Target) (timeout : ℕ) → Keeps P (wait_reachable o t timeout)
  unfolding wait_reachable poll_for
  Keeps-wait_reachable t timeout = search (effect_rules, Keeps-poll, Keeps-probe) depth 12

  Keeps-wait_cloud_init : (t : Target) (timeout : ℕ) → Keeps P (wait_cloud_init o t timeout)
  unfolding wait_cloud_init poll_for
  Keeps-wait_cloud_init t timeout = search (effect_rules, Keeps-poll) depth 12

  Keeps-wait_stopped : (name : Text) (timeout : ℕ) → Keeps P (wait_stopped o name timeout)
  unfolding wait_stopped poll_for
  Keeps-wait_stopped name timeout = search (effect_rules, Keeps-poll, Keeps-utm_vm_status) depth 12

  Keeps-first_boot :
      (id : ℕ) (t : Target) (seed : FilePath)
      → Keeps P (io io_failed (remove seed))
      → Keeps P (first_boot o id t seed)
  unfolding first_boot
  Keeps-first_boot id t seed k =
      search
        (
          effect_rules, Keeps-osascript, Keeps-wait_reachable, Keeps-wait_cloud_init,
          Keeps-wait_stopped,
        )
        depth 30 fits 8000

  Keeps-clean_up :
      (id : ℕ) (staging : FilePath) (r : Result Failure (Unit {0}))
      → Keeps P (io io_failed (remove_all staging))
      → Keeps P (or_clean_up o id staging r)
  Keeps-clean_up id staging (ok x) k = search effect_rules
  Keeps-clean_up id staging (err e) k = search (effect_rules, Keeps-osascript) depth 12

  Keeps-disk :
      (id : ℕ) (gib : ℤ) → Keeps P (materialize_disk o (staging_of o id ++ raw_name id ∷ []) gib)
  Keeps-disk id gib = g.disk_made (name id) (raw_name id) gib

  Keeps-seed :
      (id : ℕ) (user key host config : Text)
      → Keeps P (make_cidata_iso o (staging_of o id ++ codes "seed.iso" ∷ []) user key host config)
  Keeps-seed id = g.seed_made (name id) (codes "seed.iso")

  Keeps-booted :
      (id : ℕ) (t : Target)
      → Keeps P (
          attempt
            (first_boot o id t (staging_of o id ++ codes "seed.iso" ∷ []))
            (or_clean_up o id (staging_of o id)))
  Keeps-booted id t =
      Keeps-attempt _ _ (Keeps-first_boot id t _ (g.seed_removed (name id) (codes "seed.iso")))
        (λ r. Keeps-clean_up id (staging_of o id) r (g.staging_removed (name id)))

  Keeps-utm_create : (id : ℕ) (opts : CreateOpts) → Keeps P (utm_create o id opts)
  unfolding utm_create
  Keeps-utm_create id opts =
      search
        (effect_rules, Keeps-utm_vm_exists, Keeps-disk, Keeps-seed, Keeps-osascript, Keeps-booted)
        depth 30 fits 20000

  pub Keeps-create :
      (id : ℕ) (be : Backend) (opts : CreateOpts) → Keeps P (Delete.create o id be opts)
  unfolding Delete.create
  Keeps-create id container opts = Keeps-container_create id opts
  Keeps-create id utm opts = Keeps-utm_create id opts
  Keeps-create id parallels opts = search effect_rules
  Keeps-create id proxmox opts = search effect_rules
  Keeps-create id generic opts = search effect_rules
  Keeps-create id (other s) opts = search effect_rules
