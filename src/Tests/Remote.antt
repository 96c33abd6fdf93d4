-- ===== src/Tests/Remote.antt =====
-- A file is installed on a box whose `scp` fails.
use mpd_virt_macos.Base.{
  false, [], ◌∷◌, ◌++◌, ◌==◌, list_eq, nat_eq, list_beq, if◌then◌else◌, ◌≡◌, refl,
}
use mpd_virt_macos.Text.{Text, codes}
use mpd_virt_macos.Text.Decimal.{pos, negsuc}
use mpd_virt_macos.Host.{Target, Command, Answer, ended, Log, ssh_args, scp_args, itoa, install}
use mpd_virt_macos.Host.Install.{run_all, outcome, install_lem}
use mpd_virt_macos.Host.Number.{printed, itoa_lem}

abbrev box : Target
box = record { user = codes "ann"; address = codes "10.0.0.5" }

abbrev is_scp : Command → Answer
is_scp [] = ended (record { stdout = []; stderr = []; code = pos 0 })
is_scp (c ∷ cs) =
    ended (record { stdout = []; stderr = []; code = if c == codes "scp" then pos 1 else pos 0 })

abbrev disk_full : Log → Command → Answer
disk_full log c = is_scp c

abbrev dir_of_path : Text → Text
dir_of_path s = codes "/d"

abbrev base_of_path : Text → Text
base_of_path s = codes "f"

install_lem_example :
    outcome dir_of_path base_of_path disk_full
      (install dir_of_path base_of_path disk_full box (codes "f") (codes "/d/f") (codes "600") [])
    ≡ run_all dir_of_path base_of_path disk_full
        (ssh_args box (codes "mkdir -p " ++ dir_of_path (codes "/d/f"))
          ∷ scp_args box (codes "f") (codes "/d/f")
          ∷ ssh_args box (codes "chmod " ++ (codes "600" ++ b' ' ∷ codes "/d/f"))
          ∷ [])
        []
install_lem_example =
    install_lem dir_of_path base_of_path disk_full box (codes "f") (codes "/d/f") (codes "600") []

-- The `chmod` is not issued.
installed_nothing :
    outcome dir_of_path base_of_path disk_full
      (install dir_of_path base_of_path disk_full box (codes "f") (codes "/d/f") (codes "600") [])
    ≡ (ssh_args box (codes "mkdir -p /d") ∷ scp_args box (codes "f") (codes "/d/f") ∷ [], false)
unfolding install list_beq
installed_nothing = refl

itoa_lem_example : itoa (negsuc 255) ≡ printed (negsuc 255)
itoa_lem_example = itoa_lem (negsuc 255)

-- The exit code 255, and the least `int`.
itoa_values : (itoa (pos 255) ≡ codes "255") × (itoa (negsuc 9223372036854775807) ≡ codes "-")
unfolding itoa
itoa_values = (refl, refl)
