-- ===== src/Libssh2.antt =====
-- libssh2, which is not part of the repository: the functions that the library calls are a parameter.
pub mod Constants
pub mod Functions
pub mod Values
pub mod Api
pub use Constants.*
pub use Functions.*
pub use Values.*
pub use Api.*
