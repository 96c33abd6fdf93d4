-- ===== src/Proxy/Client.antt =====
-- go/internal/proxy/proxy.go: the client. Every call is one request on a connection of its own.
use mpd_virt_macos.Base.{
  List, [], ◌∷◌, ◌++◌, ◌==◌, list_eq, nat_eq, Option, none, some, if◌then◌else◌, Result, ok, err,
}
use mpd_virt_macos.Text.{Text, codes}
use mpd_virt_macos.Proxy.{Vm, Request, Response, ProxyError, not_reachable, proxy_says, no_vm}
use mpd_virt_macos.Machine.{Outside, proxy_failed, Run, pure, result_of, ◌>>=◌}

-- What `call` makes of the reply. No reply is a socket that cannot be dialled, written or decoded.
abbrev pub reply : Option Response → Result ProxyError Response
reply none = err not_reachable
reply (some r) = if r.error == [] then ok r else err (proxy_says r.error)

-- `call`
unfoldable pub call : Outside → Request → Run Response
call o req m = (
  record m { asked = m.asked ++ req ∷ [] },
  result_of proxy_failed (reply (o.exchange m.log m.asked req)),
)

-- `Pubkey`
unfoldable pub pubkey : Outside → Run Text
unfolding call ◌>>=◌
pubkey o = call o (record { op = codes "pubkey"; vm = no_vm }) >>= λ r. pure r.pubkey

-- `Add`
unfoldable pub add : Outside → Vm → Run (Unit {0})
unfolding call ◌>>=◌
add o vm = call o (record { op = codes "add"; vm = vm }) >>= λ r. pure tt

-- `Remove`
unfoldable pub remove : Outside → Text → Run (Unit {0})
unfolding call ◌>>=◌
remove o id =
    call o (record { op = codes "remove"; vm = record no_vm { id = id } }) >>= λ r. pure tt

-- `List`
unfoldable pub list : Outside → Run (List Vm)
unfolding call ◌>>=◌
list o = call o (record { op = codes "list"; vm = no_vm }) >>= λ r. pure r.vms
