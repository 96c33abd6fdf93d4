-- ===== src/Backend/Locate.antt =====
-- go/internal/backend/resolve.go: the address of a box.
pub mod Priority
pub mod Answers
use mpd_virt_macos.Base.{
  ℕ, Bool, true, false, ◌||◌, List, [], ◌∷◌, ◌++◌, map, any, Option, none, some, ◌==◌, list_eq,
  nat_eq, if◌then◌else◌, Result, ok, err,
}
use mpd_virt_macos.Text.{Text, codes, trim_space, cut, fields}
use mpd_virt_macos.Text.Decimal.{itoa}
use mpd_virt_macos.Vmid.{name}
use mpd_virt_macos.Backend.{Backend, generic, parallels, container, utm, proxmox, other}
use mpd_virt_macos.Backend.World.{World, ContainerBox, ParallelsVm}

-- `stripMask`
unfoldable pub strip_mask : Text → Text
strip_mask addr = elim (cut b'/' (trim_space addr)) [ none ↦ trim_space addr | some (a, mask) ↦ a ]

-- The loop over one box's networks, with what follows if none has an address.
first_address : List Text → Text → Text
first_address [] rest = rest
first_address (a ∷ addrs) rest =
    let more = first_address addrs rest in if strip_mask a == [] then more else strip_mask a

-- `parseContainerIP`, whose error its caller reads as no address.
unfoldable pub parse_container_ip : List ContainerBox → Text
unfolding first_address
parse_container_ip [] = []
parse_container_ip (b ∷ bs) = first_address b.addresses (parse_container_ip bs)

abbrev comma_to_space : Text → Text
comma_to_space = map (λ c. if c == b',' then b' ' else c)

first_lease : List Text → Text → Text
first_lease [] rest = rest
first_lease (f ∷ fs) rest =
    let more = first_lease fs rest in
    if strip_mask f == [] || strip_mask f == codes "-" then more else strip_mask f

-- `parseParallelsIP`
unfoldable pub parse_parallels_ip : List ParallelsVm → Text
unfolding first_lease
parse_parallels_ip [] = []
parse_parallels_ip (vm ∷ vms) =
    first_lease (fields (comma_to_space vm.ip_configured)) (parse_parallels_ip vms)

unfoldable pub container_ip : World → Text → Text
container_ip w box = elim (w.container_inspect box) [ none ↦ [] | some bs ↦ parse_container_ip bs ]

unfoldable pub parallels_ip : World → Text → Text
parallels_ip w box = elim (w.prlctl_list_full box) [ none ↦ [] | some vms ↦ parse_parallels_ip vms ]

unfoldable pub utm_canonical_ip : ℕ → Text
unfolding itoa
utm_canonical_ip id = codes "192.168.64." ++ itoa id

pub record Candidate : Type 0 where
  pub ip : Text
  pub source : Text

-- `add`: an empty address and one that is there already are left out.
unfoldable pub add : Text → Text → List Candidate → List Candidate
add ip source cands =
    if ip == [] || any (λ c. c.ip == ip) cands
    then cands
    else cands ++ record { ip = ip; source = source } ∷ []

unfoldable pub add_each : List Text → Text → List Candidate → List Candidate
unfolding add
add_each [] source cands = cands
add_each (ip ∷ ips) source cands = add_each ips source (add ip source cands)

-- The switch over the backends: its own source of the address.
unfoldable pub add_backend : World → ℕ → Backend → List Candidate → List Candidate
unfolding add
add_backend w id container cands = add (container_ip w (name id)) (codes "container") cands
add_backend w id parallels cands = add (parallels_ip w (name id)) (codes "prlctl") cands
add_backend w id utm cands =
    if w.utm_vm_exists (name id) then add (utm_canonical_ip id) (codes "utm") cands else cands
add_backend w id generic cands = cands
add_backend w id proxmox cands = cands
add_backend w id (other s) cands = cands

abbrev add_last : Option Text → List Candidate → List Candidate
add_last none cands = cands
add_last (some ip) cands = add ip (codes "last") cands

-- The candidates of `locate`; `last` is the address of the registry's entry, if it loads.
unfoldable pub candidates : World → ℕ → Backend → Option Text → List Candidate
unfolding add_backend add_each
candidates w id be last =
    let own = add_backend w id be [] in
    let dns = add_each (w.resolve_host (name id)) (codes "dns") own in
    let mdns = add_each (w.resolve_host (name id ++ codes ".local")) (codes "mdns") dns in
    add_last last mdns

pub data LocateError : Type 0 where
  no_candidate : LocateError
  none_answered : List Candidate → LocateError

first_answer : World → List Candidate → Option Text
first_answer w [] = none
first_answer w (c ∷ cs) =
    let rest = first_answer w cs in if w.ssh_reachable c.ip then some c.ip else rest

abbrev answered : List Candidate → Option Text → Result LocateError Text
answered [] r = err no_candidate
answered (c ∷ cs) none = err (none_answered (c ∷ cs))
answered (c ∷ cs) (some ip) = ok ip

unfoldable pub locate : World → ℕ → Backend → Option Text → Result LocateError Text
unfolding candidates first_answer
locate w id be last = let cands = candidates w id be last in answered cands (first_answer w cands)
