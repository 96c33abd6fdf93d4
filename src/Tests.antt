-- ===== src/Tests.antt =====
-- The theorems at concrete inputs.
mod Boxes
mod Ssh
mod Servers
mod Power
mod Remote
mod Fake
mod Commands
mod Issued
mod Images
