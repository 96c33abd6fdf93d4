-- ===== src/Cli.antt =====
-- go/internal/cli: the commands, without their flags and their output. An error that a command only
-- prints is swallowed where the command goes on.
pub mod Reach
pub mod LanHosts
pub mod Takeover
pub mod Session
pub mod Lifecycle
pub mod Servers
pub mod Listing
pub mod Trust
