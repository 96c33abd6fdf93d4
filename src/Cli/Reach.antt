-- ===== src/Cli/Reach.antt =====
-- go/internal/cli/reachability.go: the WireGuard overlay of a box.
use mpd_virt_macos.Base.{
  ℕ, zero, suc, Bool, true, false, any, List, [], ◌∷◌, ◌++◌, ◌==◌, list_eq, nat_eq, Option, none,
  some, if◌then◌else◌, Result, ok, err,
}
use mpd_virt_macos.Text.{Text, codes}
use mpd_virt_macos.Text.Decimal.{itoa}
use mpd_virt_macos.Vmid.{pad, zone}
use mpd_virt_macos.Host.{Target, is_zero}
use mpd_virt_macos.Host.Remote.{stream, remote_line}
use mpd_virt_macos.Proxy.{Vm}
use mpd_virt_macos.Proxy.Client.{pubkey, add}
use mpd_virt_macos.Machine.{
  Outside, Failure, said, Run, pure, gets, ◌>>=◌, ◌>>◌, attempt, require, sleep,
}

-- The remote command that makes mpd-proxy a peer of the box.
unfoldable pub set_peer : Text → Text
set_peer proxy_pub =
    codes "sudo wg set wg0 peer "
    ++ (proxy_pub
        ++ codes
            " allowed-ips 10.163.0.1/32 && sudo ip route replace 10.163.0.1/32 dev wg0 && sudo wg-quick save wg0")

unfoldable pub gateway_of : ℕ → Text
unfolding itoa
gateway_of id = codes "10.163." ++ (itoa id ++ codes ".1")

-- The peer that is registered with mpd-proxy.
unfoldable pub peer_of : ℕ → Text → Text → Vm
unfolding itoa pad
peer_of id ip vm_pub = record {
  id = pad id;
  public_key = vm_pub;
  endpoint = ip ++ codes ":51820";
  allowed_ips = (codes "10.163." ++ (itoa id ++ codes ".0/24")) ∷ [];
  resolver = codes "10.163." ++ (itoa id ++ codes ".1:53");
}

-- `setupReachability` behind the key of mpd-proxy.
unfoldable pub wire : Outside → Target → ℕ → Text → Text → Run Bool
unfolding stream remote_line add set_peer peer_of
wire o t id ip proxy_pub = do
  code ← stream o t (set_peer proxy_pub)
  require (is_zero code) (said (codes "adding mpd-proxy as wg0 peer failed"))
  vm_pub ← remote_line o t (codes "sudo wg show wg0 public-key")
  add o (peer_of id ip vm_pub)
  pure true

abbrev pub wire_if : Outside → Target → ℕ → Text → Result Failure Text → Run Bool
wire_if o t id ip (err e) = pure false
wire_if o t id ip (ok proxy_pub) = wire o t id ip proxy_pub

-- `setupReachability`: without mpd-proxy it is skipped, and that is no error.
unfoldable pub setup_reachability : Outside → Target → ℕ → Text → Run Bool
unfolding pubkey wire attempt pure
setup_reachability o t id ip = attempt (pubkey o) (wire_if o t id ip)

abbrev answers_with : Text → Option (List Text) → Bool
answers_with gateway none = false
answers_with gateway (some addrs) = any (λ a. a == gateway) addrs

-- One look at the name of the box, with the resolver of the machine.
unfoldable pub resolves : Outside → ℕ → Run Bool
unfolding gets gateway_of zone
resolves o id = gets (λ m. answers_with (gateway_of id) (o.lookup m.now (zone id)))

-- The attempts of `verifyReachable`; there is a second of sleep before each but the first.
unfoldable pub verify_again : Outside → ℕ → ℕ → Run Bool
unfolding sleep resolves pure ◌>>=◌
verify_again o id zero = pure false
verify_again o id (suc left) = do
  sleep 1000000000
  found ← resolves o id
  if found then pure true else verify_again o id left

-- `verifyReachable`: whether the overlay is verified, which it only prints.
unfoldable pub verify_reachable : Outside → ℕ → Run Bool
unfolding verify_again
verify_reachable o id = do found ← resolves o id; if found then pure true else verify_again o id 3
