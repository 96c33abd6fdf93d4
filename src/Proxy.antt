-- ===== src/Proxy.antt =====
-- go/internal/proxy/proxy.go: the control protocol of mpd-proxy. What the proxy answers is a parameter.
pub mod Client
use mpd_virt_macos.Base.{ℕ, Bool, List, []}
use mpd_virt_macos.Text.{Text, codes}

pub record Vm : Type 0 where
  pub id : Text
  pub public_key : Text
  pub endpoint : Text
  pub allowed_ips : List Text
  pub resolver : Text

-- `Request`; an operation that needs no more than its name leaves the rest empty.
pub record Request : Type 0 where
  pub op : Text
  pub vm : Vm

-- `Response`. The program never reads `ok`.
pub record Response : Type 0 where
  pub error : Text
  pub pubkey : Text
  pub vms : List Vm

pub data ProxyError : Type 0 where
  not_reachable : ProxyError
  proxy_says : Text → ProxyError

abbrev pub no_vm : Vm
no_vm = record { id = []; public_key = []; endpoint = []; allowed_ips = []; resolver = [] }
