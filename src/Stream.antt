-- ===== src/Stream.antt =====
-- ssh/stream.hpp: open modes, and reading, writing and seeking through a file handle.
pub mod Openmode
pub mod Position
pub mod Transfer
pub mod Device
pub mod Locked
