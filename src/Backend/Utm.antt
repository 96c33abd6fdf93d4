-- ===== src/Backend/Utm.antt =====
-- go/internal/backend/utm.go: the texts that drive UTM, and the sizes of a new box.
pub mod Literal
pub mod Size
pub mod Create
use mpd_virt_macos.Base.{
  ℕ, Bool, true, false, List, [], ◌∷◌, ◌++◌, ◌==◌, list_eq, nat_eq, if◌then◌else◌,
}
use mpd_virt_macos.Text.{Text, codes}
use mpd_virt_macos.Text.Decimal.{itoa}

-- `strings.ReplaceAll` of one rune.
unfoldable pub replace_all : Text → ℕ → Text → Text
replace_all [] old new = []
replace_all (c ∷ s) old new =
    let rest = replace_all s old new in if c == old then new ++ rest else c ∷ rest

-- `asQuote`
unfoldable pub as_quote : Text → Text
unfolding replace_all
as_quote s =
    b'"'
    ∷ (replace_all (replace_all s b'\\' (b'\\' ∷ b'\\' ∷ [])) b'"' (b'\\' ∷ b'"' ∷ []) ++ b'"' ∷ [])

-- A script on one virtual machine: what stands before its name, and behind it.
unfoldable pub utm_script : Text → Text → Text → Text
unfolding as_quote
utm_script before name after =
    codes "tell application \"UTM\"\n\t"
    ++ (before ++ (as_quote name ++ (after ++ codes "\nend tell")))

unfoldable pub utm_start_script : Text → Text
unfolding utm_script
utm_start_script name = utm_script (codes "start virtual machine named ") name []

unfoldable pub utm_stop_script : Text → Text
unfolding utm_script
utm_stop_script name = utm_script (codes "stop virtual machine named ") name []

unfoldable pub utm_kill_script : Text → Text
unfolding utm_script
utm_kill_script name = utm_script (codes "stop virtual machine named ") name (codes " by force")

unfoldable pub utm_delete_script : Text → Text
unfolding utm_script
utm_delete_script name = utm_script (codes "delete virtual machine named ") name []

unfoldable pub utm_balloon_script : Text → Text
unfolding utm_script
utm_balloon_script name = utm_script (codes "set vm to virtual machine named ") name (
    codes
      "\n\tset config to configuration of vm\n\tset qemu additional arguments of config to {{argument string:\"-device\"}, {argument string:\"virtio-balloon-pci,free-page-reporting=on\"}}\n\tupdate configuration of vm with config")

unfoldable pub utm_detach_zero_drives_script : Text → Text
unfolding utm_script
utm_detach_zero_drives_script name = utm_script (codes "set vm to virtual machine named ") name (
    codes
      "\n\tset config to configuration of vm\n\tset vmDrives to drives of config\n\tset keptDrives to {}\n\trepeat with vmDrive in vmDrives\n\t\tif (host size of vmDrive) is not 0 then\n\t\t\tset end of keptDrives to vmDrive\n\t\tend if\n\tend repeat\n\tset drives of config to keptDrives\n\tupdate configuration of vm with config")

-- The memory is a number in decimal, as the caller writes it; it may be negative.
unfoldable pub utm_create_script : Text → Text → ℕ → Text → Text → Text
unfolding as_quote itoa
utm_create_script name mem_mib cpus disk_path seed_path =
    codes "tell application \"UTM\"\n\tset diskFile to POSIX file "
    ++ (as_quote disk_path
        ++ (codes "\n\tset seedFile to POSIX file "
            ++ (as_quote seed_path
                ++ (codes
                      "\n\tmake new virtual machine with properties {backend:qemu, configuration:{name:"
                    ++ (as_quote name
                        ++ (codes ", architecture:\"aarch64\", memory:"
                            ++ (mem_mib
                                ++ (codes ", cpu cores:"
                                    ++ (itoa cpus
                                        ++ codes
                                            ", drives:{{source:diskFile}, {source:seedFile}}, network interfaces:{{mode:shared}}}}\nend tell")))))))))

abbrev utm_gateway : Text
utm_gateway = codes "192.168.64.1"

unfoldable pub utm_network_config : Text → Text
utm_network_config ip =
    codes "version: 2\nethernets:\n  enp0s1:\n    addresses: ["
    ++ (ip
        ++ (codes "/24]\n    gateway4: "
            ++ (utm_gateway
                ++ (codes "\n    nameservers:\n      addresses: ["
                    ++ (utm_gateway ++ codes "]\n")))))
