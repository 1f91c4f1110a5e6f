-- ===== src/Wrapper/Locked.antt =====
-- The wrappers of ssh/detail/libssh2 and the locking discipline of libssh2.hpp.
pub mod SessionCalls
pub mod AgentCalls
pub mod UserauthCalls
pub mod KnownhostCalls
pub mod SftpCalls
use ssh2_cpp.Base.{some, none, Text, Option, Ptr, Bool, true}
use ssh2_cpp.Libssh2.{ApiFunction, Libssh2}
use ssh2_cpp.Effect.Locking.{Keeps, locking_rules}
use ssh2_cpp.Error.{ErrorSlot, last_error_code, last_sftp_error_code, throw_if_error}

module _ {S : Type 0} (api : Libssh2 S) (session : Ptr) where
  pub last_error_code-Keeps : (e_msg : Option Text) → Keeps true (last_error_code api session e_msg)
  unfolding last_error_code
  last_error_code-Keeps none = search locking_rules
  last_error_code-Keeps (some old) = search locking_rules

  pub last_sftp_error_code-Keeps :
      (channel : Ptr) (e_msg : Option Text)
      → Keeps true (last_sftp_error_code api session channel e_msg)
  unfolding last_sftp_error_code
  last_sftp_error_code-Keeps channel e_msg = search (locking_rules, last_error_code-Keeps)

  pub throw_if_error-Keeps :
      (slot : ErrorSlot) (f : ApiFunction) (path : Option Text)
      → Keeps true (throw_if_error {S = S} slot f path)
  unfolding throw_if_error
  throw_if_error-Keeps slot f path = search locking_rules

  pub ruleset wrapper_rules =
      (locking_rules, last_error_code-Keeps, last_sftp_error_code-Keeps, throw_if_error-Keeps)
