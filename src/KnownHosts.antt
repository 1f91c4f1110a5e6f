-- ===== src/KnownHosts.antt =====
-- ssh/knownhost.hpp: collections of known hosts over libssh2's.
pub mod Entry
pub mod Iterator
pub mod Collection
pub mod File
pub mod Locked
