-- ===== src/Tests/Issued.antt =====
-- A LAN server is added, and a certificate is issued for it.
use mpd_virt_macos.Base.{false, [], ◌∷◌, list_beq, ok, true, ◌≡◌, refl, arith}
use mpd_virt_macos.Text.{
  codes, is_space, has_suffix, to_lower, trim_space, contains, byte_len, cut, drop_cr, fields,
  fields_from, has_prefix, join, raw_lines, rune_len, split, to_lower_rune, too_long, trim_suffix,
}
use mpd_virt_macos.Fs.{
  FilePath, find, put, blocked_from, put_dirs, is_under, mkdir_all, write_file, read_dir,
  child_name, children, dir_of, read_file, stat,
}
use mpd_virt_macos.Paths.{ca_root, servers, conf, lan_hosts}
use mpd_virt_macos.Server.{
  normalise, exists, load, dir, check_label, is_vm_zone_label, label_rune, env_file, hosts_body,
  known, body, entry_of, host, hosts_text, insert_name, load_all, load_each, registered, save,
  service_host, sort_names, text_leb, write_hosts_file,
}
use mpd_virt_macos.Server.Labels.{normalise_complete}
use mpd_virt_macos.Env.{scan_env, binding, read_line, scan_lines}
use mpd_virt_macos.EtcHosts.{hosts_has, maps_line, member, missing_entries}
use mpd_virt_macos.Text.Decimal.{is_digit}
use mpd_virt_macos.Ca.{hour, issue_leaf}
use mpd_virt_macos.Ca.Leaf.{Issued, issue_leaf_lem}
use mpd_virt_macos.Cli.Servers.{cert_path, key_path, server_add, etc_hosts_reminder}
use mpd_virt_macos.Cli.Servers.Registered.{server_add_lem}
use mpd_virt_macos.Tests.Servers.{home, nas, nas-IsEntry}
use mpd_virt_macos.Tests.Fake.{fake, idle}

abbrev cert : FilePath
cert = cert_path home (codes "nas-1")

abbrev key : FilePath
key = key_path home (codes "nas-1")

issued : (issue_leaf fake (codes "nas-1.mpd.test" ∷ []) cert key idle).1 ≡ ok tt
unfolding issue_leaf cert_path key_path dir servers list_beq find put blocked_from put_dirs ca_root
issued = refl

issue_leaf_lem_example :
    Issued fake
      (codes "nas-1.mpd.test")
      []
      cert
      hour
      idle
      (issue_leaf fake (codes "nas-1.mpd.test" ∷ []) cert key idle).0
issue_leaf_lem_example =
    issue_leaf_lem fake (codes "nas-1.mpd.test") [] cert key hour idle (λ n d. omega arith) apart
      issued
  where
    apart : is_under cert key ≡ false
    apart = unfold is_under cert_path key_path dir servers list_beq in refl

added : (server_add fake (codes "nas-1") (codes "10.0.0.9") idle).1 ≡ ok (nas ∷ [])
unfolding server_add list_beq is_space find put blocked_from put_dirs servers dir has_suffix
    to_lower trim_space contains check_label is_vm_zone_label byte_len label_rune env_file mkdir_all
    write_file conf hosts_body known read_dir etc_hosts_reminder binding read_line scan_lines
    hosts_has maps_line member missing_entries child_name children dir_of read_file stat lan_hosts
    body entry_of host hosts_text insert_name load_all load_each registered save service_host
    sort_names text_leb write_hosts_file is_digit cut drop_cr fields fields_from has_prefix join
    raw_lines rune_len split to_lower_rune too_long trim_suffix load scan_env
added = refl

accepted : normalise (codes "nas-1") ≡ ok (codes "nas-1")
accepted = (normalise_complete (codes "nas-1") nas-IsEntry.label).0

server_add_lem_example :
    (exists home (codes "nas-1") idle.files ≡ false)
    × (fake.parse_ip (codes "10.0.0.9") ≡ true)
    × (load home (codes "nas-1") (server_add fake (codes "nas-1") (codes "10.0.0.9") idle).0.files
        ≡ ok nas)
server_add_lem_example =
    server_add_lem fake (codes "nas-1") (codes "10.0.0.9") (codes "nas-1") idle (nas ∷ []) accepted
      nas-IsEntry added
