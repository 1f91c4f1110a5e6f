-- ===== src/Wrapper.antt =====
-- ssh/detail/libssh2: the functions of libssh2 with their errors as codes and as exceptions.
pub mod Null
pub mod Contract
pub mod Locked
pub mod Session
pub mod Userauth
pub mod Agent
pub mod Knownhost
pub mod Sftp
pub mod Contracts
