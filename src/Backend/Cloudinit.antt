-- ===== src/Backend/Cloudinit.antt =====
-- go/internal/backend/cloudinit.go: the seed image of a new UTM box.
pub mod Disk
pub mod Fetched
pub mod Resized
pub mod Extracted
pub mod Materialized
use mpd_virt_macos.Base.{List, [], ◌∷◌, ◌++◌, ◌==◌, list_eq, nat_eq, if◌then◌else◌, Result}
use mpd_virt_macos.Text.{Text, codes}
use mpd_virt_macos.Fs.{FilePath, mkdir_all, write_file, remove_all, dir_of}
use mpd_virt_macos.Fs.Files.{remove}
use mpd_virt_macos.Machine.{
  Outside, Failure, io_failed, said, Run, pure, lift, gets, io, ◌>>=◌, ◌>>◌, attempt, best_effort,
}
use mpd_virt_macos.Machine.Exec.{capture_writing, succeed_or}

-- `cidataMetaData`
unfoldable pub cidata_meta_data : Text → Text
cidata_meta_data hostname =
    codes "instance-id: " ++ (hostname ++ (codes "\nlocal-hostname: " ++ (hostname ++ codes "\n")))

-- `cidataUserData`
unfoldable pub cidata_user_data : Text → Text → Text → Text
cidata_user_data username pub_key hostname =
    codes "#cloud-config\nhostname: "
    ++ (hostname
        ++ (codes "\nmanage_etc_hosts: true\n\nusers:\n  - name: "
            ++ (username
                ++ (codes
                      "\n    sudo: ALL=(ALL) NOPASSWD:ALL\n    shell: /bin/bash\n    lock_passwd: true\n    ssh_authorized_keys:\n      - "
                    ++ (pub_key
                        ++ codes
                            "\n\nssh_pwauth: false\n\ngrowpart:\n  mode: auto\n  devices: ['/']\n\nresize_rootfs: true\n\nruncmd:\n  - systemctl enable --now ssh\n")))))

-- The files of the seed. Go writes them in any order.
unfoldable pub seed_files : Text → Text → Text → Text → List (Text × Text)
unfolding cidata_meta_data cidata_user_data
seed_files username pub_key hostname network_config =
    (codes "meta-data", cidata_meta_data hostname)
    ∷ (codes "user-data", cidata_user_data username pub_key hostname)
    ∷ (if network_config == [] then [] else (codes "network-config", network_config) ∷ [])

unfoldable pub write_each : FilePath → List (Text × Text) → Run (Unit {0})
unfolding io ◌>>=◌ write_file pure
write_each dir [] = pure tt
write_each dir ((n, body) ∷ fs) =
    io io_failed (write_file (dir ++ n ∷ []) body) >> write_each dir fs

-- What is done in the working directory.
unfoldable pub make_hybrid : Outside → FilePath → FilePath → List (Text × Text) → Run (Unit {0})
unfolding write_each capture_writing succeed_or ◌>>=◌ attempt
make_hybrid o work output files = do
  write_each work files
  io io_failed (mkdir_all (dir_of output))
  best_effort (io io_failed (remove output))
  a ← capture_writing o (
      codes "hdiutil"
      ∷ codes "makehybrid"
      ∷ codes "-o"
      ∷ o.path_text output
      ∷ codes "-iso"
      ∷ codes "-joliet"
      ∷ codes "-default-volume-name"
      ∷ codes "cidata"
      ∷ o.path_text work
      ∷ [])
  succeed_or (said (codes "hdiutil makehybrid failed")) a
  pure tt

-- `os.MkdirTemp`, which makes a directory that was not there.
unfoldable pub make_temp : Outside → Run FilePath
unfolding io gets ◌>>=◌
make_temp o = do dir ← gets (λ m. o.temp_dir m.files); io io_failed (mkdir_all dir); pure dir

-- The deferred removal of the working directory; the outcome is passed on.
abbrev pub tidied : FilePath → Result Failure (Unit {0}) → Run (Unit {0})
tidied work r = best_effort (io io_failed (remove_all work)) >> lift (λ e. e) r

-- `makeCidataISO`
unfoldable pub make_cidata_iso : Outside → FilePath → Text → Text → Text → Text → Run (Unit {0})
unfolding make_temp make_hybrid seed_files attempt lift
make_cidata_iso o output username pub_key hostname network_config = do
  work ← make_temp o
  attempt (make_hybrid o work output (seed_files username pub_key hostname network_config))
      (tidied work)
