-- ===== src/Cli/Servers/Registered.antt =====
-- What `server add` leaves.
use mpd_virt_macos.Base.{Bool, true, false, not, List, ok, arith, ◌≡◌, refl}
use mpd_virt_macos.Text.{Text, codes}
use mpd_virt_macos.Server.{Entry, exists, normalise, save, load, write_hosts_file}
use mpd_virt_macos.Server.RoundTrip.{IsEntry, load-save_server}
use mpd_virt_macos.Server.Apart.{hosts_SameAt, load-SameAt}
use mpd_virt_macos.Machine.{Outside, Mac, io_failed, bad_name, said, Run, require, io, ◌>>◌}
use mpd_virt_macos.Machine.Keeps.{Keeps, keeps_rules}
use mpd_virt_macos.Machine.Untouched.{FilesAre}
use mpd_virt_macos.Machine.Outcome.{passed, gets_then, io_ok, required, lift_then}
use mpd_virt_macos.Cli.Servers.{register, etc_hosts_reminder, server_add}

abbrev saved : Outside → Entry → Run (Unit {0})
saved o e = io io_failed (save o.root e) >> io io_failed (write_hosts_file o.root)

-- The two steps of the registration on the files.
saved_ok :
    (o : Outside) (e : Entry) (m : Mac)
    → IsEntry e
    → (saved o e m).1 ≡ ok tt
    → load o.root e.name (saved o e m).0.files ≡ ok e
saved_ok o e m w h =
    let first = io io_failed (save o.root e) in
    let (_, done, same, rest) = passed first (λ _. io io_failed (write_hosts_file o.root)) m tt h in
    let (save_ok, after) = io_ok io_failed (save o.root e) m tt done in
    let (_, final) = io_ok io_failed (write_hosts_file o.root) (first m).0 tt rest in
    rw (same, final, after)
      (load-SameAt o.root e.name (save o.root e m.files).0
        (write_hosts_file o.root (save o.root e m.files).0).0
        (hosts_SameAt o.root e.name (save o.root e m.files).0) e
        (load-save_server e w o.root m.files save_ok))

register_ok :
    (o : Outside) (e : Entry) (m : Mac)
    → IsEntry e
    → (register o e m).1 ≡ ok tt
    → (exists o.root e.name m.files ≡ false) × (load o.root e.name (register o e m).0.files ≡ ok e)
unfolding register
register_ok o e m w h =
    let taken = said (codes "server already exists") in
    let known = exists o.root e.name m.files in
    let asked = λ (k : Bool). require (not k) taken >> saved o e in
    let first = gets_then (λ x. exists o.root e.name x.files) asked m in
    let (fresh, same, rest) = required (not known) taken (saved o e) m tt (rw first at h) in
    (ground (arith, fresh), rw (first, same) (saved_ok o e m w rest))

reminder_untouched : (o : Outside) (m : Mac) → (etc_hosts_reminder o m).0.files ≡ m.files
unfolding etc_hosts_reminder
reminder_untouched o m = flow.at m refl
  where
    flow : Keeps (FilesAre m.files) (etc_hosts_reminder o)
    flow = search keeps_rules

-- For a name that `Normalise` accepts, and an entry that can be stored: when `server add` succeeds,
-- then the name was not registered before, the address is one that `net.ParseIP` accepts, and `Load`
-- gives the entry, even though the hosts file was written behind it.
pub server_add_lem :
    (o : Outside) (arg ip name : Text) (m : Mac) (missing : List Entry)
    → normalise arg ≡ ok name
    → IsEntry (record { name = name; ip = ip })
    → (server_add o arg ip m).1 ≡ ok missing
    → (exists o.root name m.files ≡ false)
      × (o.parse_ip ip ≡ true)
      × (load o.root name (server_add o arg ip m).0.files ≡ ok (record { name = name; ip = ip }))
unfolding server_add
server_add_lem o arg ip name m missing named w h =
    let e : Entry = record { name = name; ip = ip } in
    let bad = said (codes "not an IPv4 or IPv6 address") in
    let last = λ (n : Text). register o (record { name = n; ip = ip }) >> etc_hosts_reminder o in
    let checked = λ (n : Text). require (o.parse_ip ip) bad >> last n in
    let start = lift_then bad_name (normalise arg) checked m name named in
    let (valid, e1, h1) = required (o.parse_ip ip) bad (last name) m missing (rw start at h) in
    let (_, done, e2, h2) = passed (register o e) (λ _. etc_hosts_reminder o) m missing h1 in
    let (fresh, there) = register_ok o e m w done in
    (fresh, valid, rw (start, e1, e2, reminder_untouched o (register o e m).0) there)
