-- ===== src/Wrapper/Locked/SessionCalls.antt =====
-- The throwing wrappers of ssh/detail/libssh2/session.hpp, called with the mutex held.
use ssh2_cpp.Base.{true, Text, ℤ, Ptr}
use ssh2_cpp.Effect.Locking.{Keeps}
use ssh2_cpp.Libssh2.{Libssh2}
use ssh2_cpp.Wrapper.Session
use ssh2_cpp.Wrapper.Locked.{wrapper_rules}

module _ {S : Type 0} (api : Libssh2 S) (session : Ptr) where
  pub startup-Keeps : (a0 : ℤ) → Keeps true (Session.startup api session a0)
  unfolding Session.startup Session.fetch_startup
  startup-Keeps a0 = search wrapper_rules

  pub disconnect-Keeps : (a0 : Text) → Keeps true (Session.disconnect api session a0)
  unfolding Session.disconnect Session.fetch_disconnect
  disconnect-Keeps a0 = search wrapper_rules

pub ruleset session_rules = (wrapper_rules, startup-Keeps, disconnect-Keeps)
