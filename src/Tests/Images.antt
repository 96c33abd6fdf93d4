-- ===== src/Tests/Images.antt =====
-- The images of a new UTM box, and a session behind which the root CA is as it was.
use mpd_virt_macos.Base.{
  ◌*◌, false, true, List, [], ◌∷◌, ◌==◌, nat_eq, list_eq, list_beq, ==_ne, if◌then◌else◌, none,
  some, ok, ◌≡◌, refl, sym, ◌∙◌, arith,
}
use mpd_virt_macos.Text.{Text, codes}
use mpd_virt_macos.Text.Decimal.{pos}
use mpd_virt_macos.Fs.{FilePath, Fs, file, find, put, blocked_from, is_under, put_dirs, dir_of}
use mpd_virt_macos.Fs.Laws.{SameAt, find-put, is_under_ne}
use mpd_virt_macos.Paths.{ca_root}
use mpd_virt_macos.Host.{Command}
use mpd_virt_macos.Machine.{Outside, Mac}
use mpd_virt_macos.Ca.{root_cert_path, root_key_path}
use mpd_virt_macos.Backend.Create.{CreateOpts}
use mpd_virt_macos.Backend.Cloudinit.Disk.{
  curl_command, partial_path, ensure_base_archive, materialize_disk,
}
use mpd_virt_macos.Backend.Cloudinit.Fetched.{WritesItsOutput, IsFetched, ensure_base_archive_lem}
use mpd_virt_macos.Backend.Cloudinit.Materialized.{Materialized, materialize_disk_lem}
use mpd_virt_macos.Backend.Cloudinit.Resized.{gib}
use mpd_virt_macos.Cli.Session.{Verb, create, delete, uninstall, ca_export, server_cert, session}
use mpd_virt_macos.Cli.Session.Anchor.{Anchored, root_kept}
use mpd_virt_macos.Cli.Session.Sheltered.{StaysOut}
use mpd_virt_macos.Cli.Session.Confined.{session_confined}
use mpd_virt_macos.Fs.Apart.{Apart}
use mpd_virt_macos.Tests.Servers.{home}
use mpd_virt_macos.Tests.Fake.{fake, idle}

abbrev tool : Command → Text
tool [] = []
tool (a ∷ c) = a

-- `curl` leaves an archive, and `tar` an image.
abbrev left : Command → Fs → Fs
left c fs =
    if tool c == codes "curl"
    then record fs { nodes = put (partial_path fake.root) (file (codes "xz")) fs.nodes }
    else if tool c == codes "tar"
    then record fs {
      nodes = put (codes "tmp" ∷ codes "t1" ∷ codes "disk.raw" ∷ []) (file (codes "img")) fs.nodes;
    }
    else fs

abbrev online : Outside
online = record fake { leaves = λ log c fs. left c fs }

writes_its_output : WritesItsOutput online
unfolding curl_command list_beq
writes_its_output log fs q h =
    let elsewhere = is_under_ne (partial_path fake.root) q h in
    (
      refl,
      find-put q (partial_path fake.root) (file (codes "xz")) fs.nodes
          ∙ rw (==_ne q (partial_path fake.root) (λ e. elsewhere (sym e))) refl,
    )

ensure_base_archive_lem_example : IsFetched online idle (ensure_base_archive online idle)
ensure_base_archive_lem_example = ensure_base_archive_lem online writes_its_output idle

abbrev disk : FilePath
disk = codes "vm" ∷ codes "disk.raw" ∷ []

materialized : (materialize_disk online disk (pos 1) idle).1 ≡ ok tt
unfolding materialize_disk list_beq find put blocked_from put_dirs dir_of
materialized = refl

materialize_disk_lem_example :
    Materialized online disk (1 * gib) idle (materialize_disk online disk (pos 1) idle).0
materialize_disk_lem_example =
    materialize_disk_lem online disk 1 (omega arith, omega arith) (omega arith)
      (λ fs. unfold is_under list_beq in refl) (λ fs. unfold is_under list_beq in refl) idle
      materialized

-- The machine with a root CA.
abbrev rooted : Mac
rooted = record idle {
  files = record idle.files {
    nodes =
        put (root_cert_path fake.root) (file (codes "cert"))
          (put (root_key_path fake.root) (file (codes "key")) idle.files.nodes);
  };
}

rooted-Anchored : Anchored fake (codes "cert") (codes "key") rooted
unfolding root_cert_path root_key_path find put list_beq
rooted-Anchored = ((refl, refl), (refl, refl))

fake-StaysOut : StaysOut fake (ca_root home)
unfolding is_under ca_root list_beq
fake-StaysOut = record {
  config = refl;
  temporary = λ fs. (refl, refl);
  leaves_it = λ n log c fs. (refl, refl);
}

abbrev opts : CreateOpts
opts = record {
  image = codes "debian";
  memory = codes "4G";
  disk = codes "80G";
  pub_key = codes "ssh-ed25519 k";
  user = codes "ann";
}

abbrev commands : List Verb
commands =
    create (codes "ann" ∷ codes ".ssh" ∷ []) (codes "42") (codes "utm") (codes "ann") none opts
    ∷ server_cert (codes "nas") [] true
    ∷ delete (codes "42") none true false
    ∷ uninstall none true
    ∷ ca_export (some (codes "ann" ∷ codes "root.pem" ∷ []))
    ∷ []

root_kept_example : Anchored fake (codes "cert") (codes "key") (session fake commands rooted)
root_kept_example =
    root_kept fake (codes "cert") (codes "key") fake-StaysOut commands
      (tt, (tt, (tt, (tt, (unfold is_under ca_root list_beq in refl, tt))))) rooted rooted-Anchored

abbrev notes : FilePath
notes = codes "ann" ∷ codes "notes.txt" ∷ []

session_confined_example : SameAt notes rooted.files (session fake commands rooted).files
session_confined_example =
    session_confined fake notes outside stays commands
      (tt, (tt, (tt, (tt, (unfold is_under list_beq in refl, tt))))) rooted
  where
    outside : Apart fake.root notes
    outside = unfold is_under list_beq in (refl, refl)

    stays : StaysOut fake notes
    stays =
        unfold is_under list_beq in
        record {
          config = refl;
          temporary = λ fs. (refl, refl);
          leaves_it = λ n log c fs. (refl, refl);
        }
