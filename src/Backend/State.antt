-- ===== src/Backend/State.antt =====
-- go/internal/backend/state.go: the power state of a box.
use mpd_virt_macos.Base.{
  ℕ, Bool, ◌||◌, List, [], ◌∷◌, none, some, ◌==◌, list_eq, nat_eq, if◌then◌else◌,
}
use mpd_virt_macos.Text.{Text, codes, to_lower, trim_space}
use mpd_virt_macos.Vmid.{name}
use mpd_virt_macos.Backend.{Backend, generic, parallels, container, utm, proxmox, other}
use mpd_virt_macos.Backend.World.{ContainerBox, ParallelsVm, World}

pub data VmState : Type 0 where
  unknown running stopped suspended paused : VmState

-- The switch of `normalizeState`, on the word trimmed and in lower case.
abbrev state_of_word : Text → VmState
state_of_word w =
    if w == codes "running" || w == codes "started"
    then running
    else if w == codes "stopped"
    then stopped
    else if w == codes "suspended"
    then suspended
    else if w == codes "paused"
    then paused
    else unknown

unfoldable pub normalize_state : Text → VmState
normalize_state word = state_of_word (to_lower (trim_space word))

-- `strings.EqualFold`, for names whose runes are ASCII on one side.
unfoldable pub equal_fold : Text → Text → Bool
equal_fold s t = to_lower s == to_lower t

unfoldable pub parse_parallels_state : List ParallelsVm → Text → Text
unfolding equal_fold
parse_parallels_state [] name = []
parse_parallels_state (vm ∷ vms) name =
    let rest = parse_parallels_state vms name in
    if equal_fold (trim_space vm.vm_name) name then vm.status else rest

unfoldable pub parse_container_state : List ContainerBox → Text
parse_container_state [] = []
parse_container_state (b ∷ bs) =
    let rest = parse_container_state bs in if b.state == [] then rest else b.state

unfoldable pub query_state : World → ℕ → Backend → VmState
query_state w id parallels = elim (w.prlctl_list_all (name id)) [
  | none ↦ unknown
  | some vms ↦ normalize_state (parse_parallels_state vms (name id))
]
query_state w id container = elim (w.container_inspect (name id)) [
  | none ↦ unknown
  | some bs ↦ normalize_state (parse_container_state bs)
]
query_state w id utm = normalize_state (w.utm_vm_status (name id))
query_state w id generic = unknown
query_state w id proxmox = unknown
query_state w id (other s) = unknown
