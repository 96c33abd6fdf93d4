-- ===== src/Backend/World.antt =====
-- What the backend package asks of the machine at one moment: the answers of the command-line tools,
-- decoded, of name resolution, and of a dial of the ssh port. A tool that is missing, that fails or
-- whose output does not decode answers `none`.
use mpd_virt_macos.Base.{Bool, List, Option}
use mpd_virt_macos.Text.{Text}

-- One element of the JSON of `container inspect`: `status`.
pub record ContainerBox : Type 0 where
  pub addresses : List Text
  pub state : Text

-- One element of the JSON of `prlctl list`.
pub record ParallelsVm : Type 0 where
  pub vm_name : Text
  pub status : Text
  pub ip_configured : Text

-- How a power verb ended: a launch error, a non-zero exit, or success.
pub data Outcome : Type 0 where
  unavailable refused succeeded : Outcome

pub record World : Type 0 where
  pub container_inspect : Text → Option (List ContainerBox)
  pub prlctl_list_full : Text → Option (List ParallelsVm)
  pub prlctl_list_all : Text → Option (List ParallelsVm)
  pub utm_vm_exists : Text → Bool
  pub utm_vm_status : Text → Text
  pub resolve_host : Text → List Text
  pub ssh_reachable : Text → Bool
  pub run_verb : List Text → Outcome
