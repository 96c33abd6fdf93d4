-- ===== src/Backend/Utm/Create.antt =====
-- go/internal/backend/utm.go: making and destroying a UTM box.
use mpd_virt_macos.Base.{
  ℕ, zero, suc, ◌+◌, ◌*◌, Bool, true, false, not, ltb, [], ◌∷◌, ◌++◌, ◌==◌, list_eq, nat_eq,
  if◌then◌else◌, Result, ok, err,
}
use mpd_virt_macos.Text.{Text, codes, trim_space}
use mpd_virt_macos.Text.Decimal.{ℤ, pos, negsuc, itoa}
use mpd_virt_macos.Fs.{FilePath, stat, mkdir_all, remove_all}
use mpd_virt_macos.Fs.Files.{remove}
use mpd_virt_macos.Paths.{utm_staging}
use mpd_virt_macos.Vmid.{name}
use mpd_virt_macos.Host.{Target, succeeded}
use mpd_virt_macos.Host.Remote.{ssh, probe}
use mpd_virt_macos.Machine.{
  Outside, Failure, io_failed, said, Run, pure, raise, gets, io, ◌>>=◌, ◌>>◌, attempt, best_effort,
  require, sleep,
}
use mpd_virt_macos.Machine.Exec.{capture, capture_ok, succeed_or}
use mpd_virt_macos.Backend.Locate.{utm_canonical_ip}
use mpd_virt_macos.Backend.Cloudinit.{make_cidata_iso}
use mpd_virt_macos.Backend.Cloudinit.Disk.{materialize_disk}
use mpd_virt_macos.Backend.Create.{CreateOpts}
use mpd_virt_macos.Backend.Utm.{
  as_quote, utm_create_script, utm_balloon_script, utm_start_script, utm_kill_script,
  utm_delete_script, utm_detach_zero_drives_script, utm_network_config,
}
use mpd_virt_macos.Backend.Utm.Size.{parse_size_mib, parse_size_gib}

abbrev utm_app : FilePath
utm_app = codes "Applications" ∷ codes "UTM.app" ∷ []

abbrev found : {E A : Type 0} → Result E A → Bool
found (ok a) = true
found (err e) = false

-- `requireUTM`
unfoldable pub require_utm : Run (Unit {0})
unfolding gets stat ◌>>=◌ pure raise
require_utm = do
  there ← gets (λ m. found (stat utm_app m.files))
  require there (said (codes "/Applications/UTM.app not found"))

-- `runOsascript`
unfoldable pub osascript : Outside → Text → Run Text
unfolding capture succeed_or ◌>>=◌ trim_space
osascript o script = do
  r ← capture_ok o (codes "osascript" ∷ codes "-e" ∷ script ∷ []) (said (codes "osascript failed"))
  pure (trim_space r.stdout)

unfoldable pub exists_script : Text → Text
unfolding as_quote
exists_script name =
    codes "tell application \"UTM\"\n\ttry\n\t\tset _ to id of virtual machine named "
    ++ (as_quote name
        ++ codes "\n\t\treturn \"yes\"\n\ton error\n\t\treturn \"no\"\n\tend try\nend tell")

abbrev pub says_yes : Result Failure Text → Run Bool
says_yes (ok out) = pure (out == codes "yes")
says_yes (err e) = pure false

-- `utmVMExists`
unfoldable pub utm_vm_exists : Outside → Text → Run Bool
unfolding osascript attempt exists_script
utm_vm_exists o name = attempt (osascript o (exists_script name)) says_yes

unfoldable pub status_script : Text → Text
unfolding as_quote
status_script name =
    codes "tell application \"UTM\"\n\treturn (status of virtual machine named "
    ++ (as_quote name ++ codes ") as string\nend tell")

abbrev pub status_or_nil : Result Failure Text → Run Text
status_or_nil (ok out) = pure out
status_or_nil (err e) = pure []

-- `utmVMStatus`
unfoldable pub utm_vm_status : Outside → Text → Run Text
unfolding osascript attempt status_script
utm_vm_status o name = attempt (osascript o (status_script name)) status_or_nil

-- The loops of `waitReachable`, `waitCloudInitDone` and `waitVMStopped`: probe, then sleep, until the
-- deadline, which is tested first.
unfoldable pub poll : Run Bool → ℕ → ℕ → ℕ → Run Bool
unfolding ◌>>=◌ sleep gets pure
poll test nap deadline zero = pure false
poll test nap deadline (suc fuel) = do
  now ← gets (λ m. m.now)
  if ltb now deadline
      then (test >>= λ up. if up then pure true else (sleep nap >> poll test nap deadline fuel))
      else pure false

abbrev seconds : ℕ → ℕ
seconds n = n * 1000000000

unfoldable pub poll_for : Run Bool → ℕ → ℕ → ℕ → Run Bool
unfolding poll
poll_for test nap timeout fuel = do
  now ← gets (λ m. m.now)
  poll test (seconds nap) (now + seconds timeout) fuel

-- `waitReachable`: a round for every three seconds.
unfoldable pub wait_reachable : Outside → Target → ℕ → Run Bool
unfolding poll_for probe
wait_reachable o t timeout = poll_for (probe o t) 3 timeout (suc timeout)

-- `waitCloudInitDone`
unfoldable pub wait_cloud_init : Outside → Target → ℕ → Run (Unit {0})
unfolding poll_for ssh
wait_cloud_init o t timeout = do
  booted ←
      poll_for
        (ssh o t (codes "test -f /var/lib/cloud/instance/boot-finished") >>= λ a.
          pure (succeeded a))
        5 timeout (suc timeout)
  require booted (said (codes "cloud-init didn't finish"))

-- `waitVMStopped`
unfoldable pub wait_stopped : Outside → Text → ℕ → Run (Unit {0})
unfolding poll_for utm_vm_status
wait_stopped o name timeout = do
  off ← poll_for (utm_vm_status o name >>= λ s. pure (s == codes "stopped")) 2 timeout (suc timeout)
  require off (said (codes "UTM VM did not reach state=stopped"))

-- What follows the creation of the virtual machine.
unfoldable pub first_boot : Outside → ℕ → Target → FilePath → Run (Unit {0})
unfolding osascript wait_reachable wait_cloud_init wait_stopped utm_balloon_script utm_start_script
    utm_detach_zero_drives_script name remove
first_boot o id t seed_path = do
  osascript o (utm_balloon_script (name id))
  osascript o (utm_start_script (name id))
  up ← wait_reachable o t 300
  require up (said (codes "UTM VM did not come up"))
  wait_cloud_init o t 300
  best_effort (ssh o t (codes "sudo shutdown -h now"))
  wait_stopped o (name id) 120
  best_effort (io io_failed (remove seed_path))
  osascript o (utm_detach_zero_drives_script (name id))
  osascript o (utm_start_script (name id))
  back ← wait_reachable o t 180
  require back (said (codes "UTM VM did not come back"))

-- The deferred cleanup: a failure removes the half-built machine, and is passed on.
abbrev pub or_clean_up : Outside → ℕ → FilePath → Result Failure (Unit {0}) → Run (Unit {0})
or_clean_up o id staging (ok x) = best_effort (io io_failed (remove_all staging))
or_clean_up o id staging (err e) = do
  best_effort (osascript o (utm_delete_script (name id)))
  best_effort (io io_failed (remove_all staging))
  raise e

abbrev is_zero_size : ℤ → Bool
is_zero_size (pos zero) = true
is_zero_size (pos (suc n)) = false
is_zero_size (negsuc n) = false

abbrev disk_size : ℤ → ℤ
disk_size n = if is_zero_size n then pos 80 else n

-- `%d`
abbrev decimal : ℤ → Text
decimal (pos n) = itoa n
decimal (negsuc n) = b'-' ∷ itoa (suc n)

abbrev pub raw_name : ℕ → Text
raw_name id = name id ++ codes ".raw"

abbrev pub staging_of : Outside → ℕ → FilePath
staging_of o id = utm_staging o.root (name id)

-- `utmCreate`
unfoldable pub utm_create : Outside → ℕ → CreateOpts → Run Text
unfolding require_utm utm_vm_exists parse_size_mib parse_size_gib utm_canonical_ip utm_create_script
    utm_network_config ◌>>=◌ attempt pure
utm_create o id opts = do
  require_utm
  exists ← utm_vm_exists o (name id)
  require (not exists) (said (codes "UTM already has a VM of that name"))
  require (not (is_zero_size (parse_size_mib opts.memory))) (said (codes "cannot parse --memory"))
  best_effort (io io_failed (remove_all (staging_of o id)))
  io io_failed (mkdir_all (staging_of o id))
  materialize_disk o (staging_of o id ++ raw_name id ∷ []) (disk_size (parse_size_gib opts.disk))
  make_cidata_iso o (staging_of o id ++ codes "seed.iso" ∷ []) opts.user opts.pub_key (name id)
      (utm_network_config (utm_canonical_ip id))
  osascript o (
      utm_create_script (name id) (decimal (parse_size_mib opts.memory)) 4
        (o.path_text (staging_of o id ++ raw_name id ∷ []))
        (o.path_text (staging_of o id ++ codes "seed.iso" ∷ [])))
  attempt
      (first_boot o id (record { user = opts.user; address = utm_canonical_ip id })
        (staging_of o id ++ codes "seed.iso" ∷ []))
      (or_clean_up o id (staging_of o id))
  pure (utm_canonical_ip id)

-- `utmDelete`
unfoldable pub utm_delete : Outside → ℕ → Run (Unit {0})
unfolding require_utm osascript utm_kill_script utm_delete_script utm_staging name remove_all
utm_delete o id = do
  require_utm
  best_effort (osascript o (utm_kill_script (name id)))
  osascript o (utm_delete_script (name id))
  best_effort (io io_failed (remove_all (utm_staging o.root (name id))))
