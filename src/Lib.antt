-- ===== src/Lib.antt =====
-- Verification of mpd-virt, the program that adopts, creates, powers and reaches development boxes
-- from a Mac (go/internal).
--
-- The program keeps its state in files. `registry` has one env file for each adopted box, `server` one
-- for each LAN server, and `sshconfig` a marked block for each box in the ssh config of the user;
-- `paths` says where the files are, and `vmid` turns the number of a box into its names. `ca` keeps the
-- root CA and issues intermediates for boxes and leaves for LAN servers. `backend` creates, powers,
-- finds and destroys a box through the command-line tool of its platform; `host` reaches it over ssh,
-- and `proxy` tells mpd-proxy how to route to it. Every command goes through the gate of `exec`. The
-- commands of `cli` call all of these in order.
--
-- Text.antt, Text/Decimal.antt: what the program uses of strings, strconv and bufio. A text is its list
--   of runes. Case and white space are those of ASCII, with U+0085 and U+00A0.
-- Fs.antt: what it uses of os and path/filepath, on a tree of files and directories. The host may
--   refuse every access to a path; modes, links and crashes inside one call are not there.
--   Fs/Files.antt has os.Rename, os.Remove and os.Truncate; Fs/Apart.antt what leaves a path alone.
-- Vmid.antt: go/internal/vmid/vmid.go (Parse, Pad, Name, Zone).
-- Paths.antt: go/internal/paths/paths.go; the environment is an argument.
-- Env.antt: the loop that reads an env file, the same in registry.Load and server.Load.
-- Registry.antt: go/internal/registry/registry.go (Save, Exists, Load, Remove, List).
-- Sshconfig.antt: go/internal/sshconfig/sshconfig.go (render, Write, Strip, Contains, stripBlock,
--   ensureFile); the path of the file is an argument.
-- Server.antt: go/internal/server/server.go (Normalise, Save, Load, LoadAll, Remove, hostsBody,
--   WriteHostsFile).
-- EtcHosts.antt: hostsHas and the loop of etcHostsReminder, go/internal/cli/server.go.
-- Backend.antt: go/internal/backend/backend.go.
-- Backend/World.antt: the machine as the backends see it: the decoded answers of `container`, `prlctl`
--   and `osascript`, name resolution, and whether an address answers on ssh. These are parameters.
-- Backend/State.antt: state.go; Backend/Power.antt: the power verbs of start.go and utm.go, as the list
--   of what they report; Backend/Locate.antt: resolve.go; Backend/Start.antt: Start of start.go;
--   Backend/Queries.antt: the commands of these files that ask, and their time; Backend/Utm.antt, Backend/Utm/Size.antt: the scripts and the sizes of utm.go; Backend/Create.antt:
--   create.go; Backend/Utm/Create.antt: the rest of utm.go; Backend/Cloudinit.antt: makeCidataISO and
--   its texts, cloudinit.go; Backend/Cloudinit/Disk.antt: ensureBaseArchive and materializeDisk, with
--   the proofs in the files beside it; Backend/Delete.antt: delete.go, and Create of create.go.
-- Host.antt: go/internal/host/ssh.go, over the answers of ssh and scp; Host/Remote.antt: the same calls
--   on the machine.
-- Proxy.antt, Proxy/Client.antt: go/internal/proxy/proxy.go.
-- Machine.antt: the machine that the commands run on, which is the files, the log of the commands
--   issued, the requests to mpd-proxy, the clock and the use of the random source; its `Run` is a
--   computation on it that may fail. `Outside` has what is no part of the program, as parameters.
-- Machine/Exec.antt: go/internal/exec/exec.go. Machine/Keeps.antt has the rules for what a run keeps,
--   Machine/Untouched.antt those for runs that change no file, Machine/Outcome.antt those for a run
--   that has succeeded, Machine/Written.antt those for a command that writes files.
-- Ca.antt: go/internal/ca/ca.go. Ca/Signing.antt and Ca/Issue.antt have the steps that the leaves of
--   Ca/Leaf.antt and the intermediates of Ca/Intermediate.antt share.
-- Cli/Takeover.antt: takeover.go of go/internal/cli; Cli/Lifecycle.antt: the commands of
--   reachability.go, update.go, delete.go, create.go and uninstall.go; Cli/Reach.antt: the overlay of
--   reachability.go; Cli/LanHosts.antt, Cli/Servers.antt: server.go, and ca.go; Cli/Trust.antt:
--   catrust.go and uninstall_ca_darwin.go; Cli/Listing.antt: list.go. Cli/Session.antt: the commands of
--   root.go, one after another. Cli/Session/Effects.antt lists what the commands do to the machine, as
--   an interface: what keeps a property under each entry keeps it under every command
--   (Cli/Session/Commands.antt and the files before it). Cli/Session/Safe.antt fills it for the log,
--   Cli/Session/Sheltered.antt for what lies at or below a path that is apart from the places where the
--   commands work: the files of the root CA in Cli/Session/Anchor.antt, and what is outside the state
--   of the program in Cli/Session/Confined.antt. The file operations behind the images of a UTM box are
--   a second interface, in Cli/Session/Images.antt.
-- Uninstall.antt: wipeHostStateKeepingCA, go/internal/cli/uninstall.go.
-- Base.antt and its children hold what all of these share; Tests.antt has the theorems at concrete
-- inputs.
--
-- A Go function is one function of the same name; an error is a value of a type of its own, and a file
-- operation returns the changed tree beside its result, so that what a failing operation has changed
-- can be seen. Ids are natural numbers, and the range that Parse tests is a hypothesis where it
-- matters. A line of an env file is shorter than the 65536 bytes that a bufio.Scanner takes.
--
-- How a command ends may depend on all commands before it, and so may the time that it takes; an
-- error that a command only prints is swallowed where the command goes on. The log has the power verbs
-- of `Start` and `Stop` and their queries of the state and the address of a box. The world has the
-- answers to these, decoded, and `round_clock` the time of the wait. A listing of the boxes asks the
-- world alone, and the time of an `Install` is not counted. A question on the terminal is an argument: the line
-- that is typed, if there is one. The wall clock counts nanoseconds and does not go back.
--
-- The loops that do not follow their data run on fuel. The wait of `Start` has 46 rounds: each failed
-- round sleeps two seconds and the longest budget is 90 seconds. The wait for systemd has 46 for the
-- same reason. The waits on a UTM box have one round more than their seconds, and sleep two seconds or
-- more in each. The overlay is looked up four times at most.
--
-- Not modelled: cobra's flags, the messages and the layout of tables; main.go; the reading of the
-- environment, whose values are arguments. Parameters are: the cryptography of ca.go, the socket of
-- mpd-proxy, the network, and the processes, with the files that `curl`, `tar` and `hdiutil` leave
-- behind them.
pub mod Base
pub mod Text
pub mod Vmid
pub mod Fs
pub mod Paths
pub mod Env
pub mod Registry
pub mod Sshconfig
pub mod Server
pub mod EtcHosts
pub mod Backend
pub mod Host
pub mod Proxy
pub mod Machine
pub mod Ca
pub mod Cli
pub mod Uninstall
pub mod Tests
