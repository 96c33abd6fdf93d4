-- ===== src/Tests/Servers.antt =====
-- LAN servers and the hosts file.
use mpd_virt_macos.Base.{false, [], ◌∷◌, ◌++◌, ok, err, ◌≡◌, ◌≢◌, refl, arith, list_beq}
use mpd_virt_macos.Text.{
  Text, codes, is_space, to_lower, to_lower_rune, byte_len, has_prefix, has_suffix, contains,
  trim_space, trim_suffix,
}
use mpd_virt_macos.Text.Decimal.{is_digit}
use mpd_virt_macos.Fs.{
  FilePath, Fs, directory, find, put, blocked_from, mkdir_all, write_file, put_dirs, dir_of,
}
use mpd_virt_macos.Vmid.{pad, zone}
use mpd_virt_macos.Server.{
  Entry, vm_zone_name, normalise, check_label, label_rune, is_vm_zone_label, service_host, save,
  load, hosts_text, dir, env_file,
}
use mpd_virt_macos.Paths.{servers}
use mpd_virt_macos.Server.Labels.{IsLabel, normalise_sound, normalise_complete, zones_apart}
use mpd_virt_macos.Server.RoundTrip.{IsEntry, load-save_server}
use mpd_virt_macos.EtcHosts.{missing_entries}
use mpd_virt_macos.EtcHosts.Rendered.{IsHost, missing_entries-pasted}
use mpd_virt_macos.Tests.Boxes.{IsStorable-test, IsSolid-test}

abbrev pub home : FilePath
home = codes "home" ∷ []

abbrev pub empty_home : Fs
empty_home = record { nodes = (home, directory) ∷ []; denied = λ p. false }

abbrev pub nas : Entry
nas = record { name = codes "nas-1"; ip = codes "10.0.0.9" }

nas-IsLabel : IsLabel (codes "nas-1")
unfolding label_rune is_vm_zone_label has_prefix has_suffix is_digit byte_len list_beq
nas-IsLabel = record {
  not_empty = λ e. cc;
  runes = refl;
  no_zone = refl;
  no_hyphen_first = refl;
  no_hyphen_last = refl;
}

normalise_sound_example : IsLabel (codes "nas-1")
normalise_sound_example = normalise_sound (codes " NAS-1.mpd.test") accepted
  where
    accepted : normalise (codes " NAS-1.mpd.test") ≡ ok (codes "nas-1")
    accepted =
        unfold normalise check_label to_lower to_lower_rune is_space list_beq contains has_prefix
          has_suffix is_vm_zone_label label_rune trim_suffix is_digit trim_space byte_len in
        refl

normalise_complete_example :
    (normalise (codes "nas-1") ≡ ok (codes "nas-1"))
    × (normalise (service_host (codes "nas-1")) ≡ ok (codes "nas-1"))
normalise_complete_example = normalise_complete (codes "nas-1") nas-IsLabel

zones_apart_example :
    (normalise (pad 42) ≡ err vm_zone_name)
    × (normalise (zone 42) ≡ err vm_zone_name)
    × ((s l : Text) → normalise s ≡ ok l → service_host l ≢ zone 42)
zones_apart_example = zones_apart 42 (omega arith, omega arith)

pub nas-IsEntry : IsEntry nas
nas-IsEntry = record {
  label = nas-IsLabel;
  short_name = unfold byte_len in omega arith;
  ip_storable =
      IsStorable-test (codes "10.0.0.9") (unfold is_space in refl) (unfold byte_len in omega arith);
  ip_ne_nil = λ e. cc;
}

nas_saved : (save home nas empty_home).1 ≡ ok tt
unfolding save mkdir_all write_file find put put_dirs blocked_from list_beq dir_of dir servers
    env_file
nas_saved = refl

load-save_server_example : load home (codes "nas-1") (save home nas empty_home).0 ≡ ok nas
load-save_server_example = load-save_server nas nas-IsEntry home empty_home nas_saved

nas-IsHost : IsHost nas
nas-IsHost = record {
  label = nas-IsLabel;
  ip_solid = IsSolid-test (codes "10.0.0.9") (unfold is_space in refl);
  ip_ne_nil = λ e. cc;
  no_comment = ground arith;
}

missing_entries-pasted_example :
    missing_entries
      (codes "127.0.0.1 localhost" ++ b'\n' ∷ (hosts_text (nas ∷ []) ++ codes "# end"))
      (nas ∷ [])
    ≡ []
missing_entries-pasted_example =
    missing_entries-pasted (codes "127.0.0.1 localhost") (codes "# end") (nas ∷ []) (nas-IsHost, tt)
