-- ===== src/Tests.antt =====
-- Concrete runs of the library against a small server, and the theorems at concrete inputs.
mod Numbers
mod Hosts
mod Disk
mod Server
mod Streams
mod Modes
mod Wrappers
mod Paths
mod Removal
mod Ledger
mod Sessions
mod KnownHosts
mod Identities
