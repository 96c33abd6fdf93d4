-- ===== src/Cli/Servers.antt =====
-- go/internal/cli/server.go and ca.go: the commands on LAN servers, and the export of the root CA.
pub mod Registered
use mpd_virt_macos.Base.{
  ℕ, suc, Bool, true, false, not, ◌&&◌, ◌||◌, ltb, List, [], ◌∷◌, ◌++◌, map, ◌==◌, list_eq, nat_eq,
  Option, none, some, if◌then◌else◌, Result, ok, err,
}
use mpd_virt_macos.Text.{Text, codes, trim_space, to_lower, join}
use mpd_virt_macos.Text.Decimal.{ℤ, pos, negsuc}
use mpd_virt_macos.Fs.{FilePath, Fs, stat, read_file, write_file}
use mpd_virt_macos.Server.{
  Entry, dir, host, service_host, exists, normalise, save, load, remove, write_hosts_file, load_all,
}
use mpd_virt_macos.EtcHosts.{member, missing_entries}
use mpd_virt_macos.Ca.{
  load_or_generate_root, issue_leaf, days_until_expiry, file_exists, root_cert_path,
}
use mpd_virt_macos.Machine.{
  Outside, Mac, Failure, io_failed, bad_name, no_server, said, Run, pure, raise, lift, gets, reads,
  io, ◌>>=◌, ◌>>◌, attempt, require,
}

unfoldable pub cert_path : FilePath → Text → FilePath
unfolding dir
cert_path root name = dir root name ++ codes "cert.pem" ∷ []

unfoldable pub key_path : FilePath → Text → FilePath
unfolding dir
key_path root name = dir root name ++ codes "key.pem" ∷ []

unfoldable pub sans_path : FilePath → Text → FilePath
unfolding dir
sans_path root name = dir root name ++ codes "sans" ∷ []

abbrev etc_hosts : FilePath
etc_hosts = codes "etc" ∷ codes "hosts" ∷ []

abbrev text_or_nil : {E : Type 0} → Result E Text → Text
text_or_nil (ok t) = t
text_or_nil (err e) = []

-- `etcHostsReminder`: the entries that /etc/hosts does not map, which it prints.
unfoldable pub etc_hosts_reminder : Outside → Run (List Entry)
unfolding load_all read_file missing_entries ◌>>=◌ gets reads
etc_hosts_reminder o = do
  entries ← reads io_failed (load_all o.root)
  gets (λ m. missing_entries (text_or_nil (read_file etc_hosts m.files)) entries)

-- What `server add` records.
unfoldable pub register : Outside → Entry → Run (Unit {0})
unfolding exists save write_hosts_file io gets ◌>>=◌ pure raise
register o e = do
  known ← gets (λ m. exists o.root e.name m.files)
  require (not known) (said (codes "server already exists"))
  io io_failed (save o.root e)
  io io_failed (write_hosts_file o.root)

-- `ValidateIP`
abbrev pub validate_ip : Outside → Text → Run (Unit {0})
validate_ip o ip = require (o.parse_ip ip) (said (codes "not an IPv4 or IPv6 address"))

-- The add command.
unfoldable pub server_add : Outside → Text → Text → Run (List Entry)
unfolding normalise register etc_hosts_reminder
server_add o arg ip = do
  name ← lift bad_name (normalise arg)
  validate_ip o ip
  register o (record { name = name; ip = ip })
  etc_hosts_reminder o

-- The reminder of the list command, if it lists anything and prints more than hosts entries.
abbrev pub reminder_for : Outside → Bool → List Entry → Run (List Entry)
reminder_for o etc_hosts_only [] = pure []
reminder_for o etc_hosts_only (e ∷ es) = if etc_hosts_only then pure [] else etc_hosts_reminder o

-- The list command: the entries that it prints, and the reminder.
unfoldable pub server_list : Outside → Bool → Run (List Entry × List Entry)
unfolding load_all etc_hosts_reminder
server_list o etc_hosts_only = do
  entries ← reads io_failed (load_all o.root)
  missing ← reminder_for o etc_hosts_only entries
  pure (entries, missing)

-- `confirmYesNo`, on the line that was read.
unfoldable pub confirm_yes_no : Option Text → Bool
unfolding to_lower trim_space
confirm_yes_no none = false
confirm_yes_no (some line) =
    to_lower (trim_space line) == codes "y" || to_lower (trim_space line) == codes "yes"

-- The delete command.
unfoldable pub server_delete : Outside → Text → Option Text → Bool → Run (Unit {0})
unfolding normalise load confirm_yes_no remove write_hosts_file ◌>>=◌ io
server_delete o arg typed assume_yes = do
  name ← lift bad_name (normalise arg)
  e ← reads no_server (load o.root name)
  if assume_yes || confirm_yes_no typed
      then (io io_failed (remove o.root name) >> io io_failed (write_hosts_file o.root))
      else pure tt

-- The names of a certificate: each extra one goes through `Normalise`, and none is there twice.
unfoldable pub all_sans : List Text → List Text → Run (List Text)
unfolding normalise member service_host lift ◌>>=◌
all_sans sans [] = pure sans
all_sans sans (raw ∷ raws) = do
  label ← lift bad_name (normalise raw)
  all_sans (if member sans (service_host label) then sans else sans ++ service_host label ∷ []) raws

abbrev pub plenty : Result Failure ℤ → Run Bool
plenty (ok (pos n)) = pure (ltb 30 n)
plenty (ok (negsuc n)) = pure false
plenty (err e) = pure false

-- Is the certificate that is there good for more than thirty days?
unfoldable pub still_valid : Outside → FilePath → Bool → Run Bool
unfolding file_exists days_until_expiry attempt ◌>>=◌
still_valid o p force = do
  there ← file_exists p
  if there && not force then attempt (days_until_expiry o p) plenty else pure false

abbrev signature : List Text → Text
signature sans = join (codes "\n") (map (λ s. codes "DNS:" ++ s) sans) ++ codes "\n"

-- The cert command.
unfoldable pub server_cert : Outside → Text → List Text → Bool → Run (Unit {0})
unfolding normalise load host all_sans still_valid issue_leaf write_file cert_path key_path
    sans_path join
server_cert o arg extra force = do
  name ← lift bad_name (normalise arg)
  e ← reads no_server (load o.root name)
  sans ← all_sans (host e ∷ []) extra
  valid ← still_valid o (cert_path o.root name) force
  if valid
      then pure tt
      else (issue_leaf o sans (cert_path o.root name) (key_path o.root name)
          >> io io_failed (write_file (sans_path o.root name) (signature sans)))

abbrev pub written_to : Text → Option FilePath → Run (Unit {0})
written_to pem none = pure tt
written_to pem (some p) = io io_failed (write_file p pem)

-- `caExport`: what is printed, if no path is given.
unfoldable pub ca_export : Outside → Option FilePath → Run Text
unfolding load_or_generate_root read_file write_file root_cert_path ◌>>=◌
ca_export o path = do
  load_or_generate_root o
  pem ← reads io_failed (read_file (root_cert_path o.root))
  written_to pem path
  pure pem
