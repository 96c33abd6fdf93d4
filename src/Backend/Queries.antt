-- ===== src/Backend/Queries.antt =====
-- go/internal/backend/state.go and resolve.go: the commands that ask a backend about a box, and what they
-- do to the machine. Their answers are in the worlds of the machine.
use mpd_virt_macos.Base.{ℕ, zero, suc, ◌+◌, List, [], ◌∷◌, ◌++◌}
use mpd_virt_macos.Text.{codes}
use mpd_virt_macos.Vmid.{name}
use mpd_virt_macos.Backend.{Backend, generic, parallels, container, utm, proxmox, other}
use mpd_virt_macos.Backend.Power.{osascript_argv}
use mpd_virt_macos.Backend.Utm.Create.{exists_script, status_script}
use mpd_virt_macos.Host.{Command, Log}
use mpd_virt_macos.Machine.{Outside, Mac}

-- The command of `queryState`.
unfoldable pub state_query : ℕ → Backend → List Command
unfolding status_script
state_query id parallels =
    (codes "prlctl" ∷ codes "list" ∷ name id ∷ codes "-a" ∷ codes "--json" ∷ []) ∷ []
state_query id container = (codes "container" ∷ codes "inspect" ∷ name id ∷ []) ∷ []
state_query id utm = osascript_argv (status_script (name id)) ∷ []
state_query id generic = []
state_query id proxmox = []
state_query id (other s) = []

-- The command with which `locate` asks for the backend's own address; resolution and the dial of the ssh
-- port are no commands.
unfoldable pub address_query : ℕ → Backend → List Command
unfolding exists_script
address_query id container = (codes "container" ∷ codes "inspect" ∷ name id ∷ []) ∷ []
address_query id parallels =
    (codes "prlctl" ∷ codes "list" ∷ name id ∷ codes "-f" ∷ codes "--json" ∷ []) ∷ []
address_query id utm = osascript_argv (exists_script (name id)) ∷ []
address_query id generic = []
address_query id proxmox = []
address_query id (other s) = []

-- The searches of the rounds up to round `n`, which is the last.
unfoldable pub searches : ℕ → Backend → ℕ → List Command
unfolding address_query
searches id be zero = address_query id be
searches id be (suc n) = address_query id be ++ searches id be n

-- How long commands take that run one behind the other.
unfoldable pub time_of : Outside → Log → List Command → ℕ
time_of o log [] = 0
time_of o log (c ∷ cs) = o.duration log c + time_of o (log ++ c ∷ []) cs

-- The machine behind commands that run one behind the other and write no file.
unfoldable pub issue_all : Outside → List Command → Mac → Mac
unfolding time_of
issue_all o cs m = record m { log = m.log ++ cs; now = m.now + time_of o m.log cs }
