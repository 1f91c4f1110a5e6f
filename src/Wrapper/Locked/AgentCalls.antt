-- ===== src/Wrapper/Locked/AgentCalls.antt =====
-- The throwing wrappers of ssh/detail/libssh2/agent.hpp, called with the mutex held.
use ssh2_cpp.Base.{Text, true, Ptr}
use ssh2_cpp.Effect.Locking.{Keeps}
use ssh2_cpp.Libssh2.{Libssh2}
use ssh2_cpp.Wrapper.Agent
use ssh2_cpp.Wrapper.Locked.{wrapper_rules}

module _ {S : Type 0} (api : Libssh2 S) (session : Ptr) where
  pub init-Keeps : Keeps true (Agent.init api session)
  unfolding Agent.init Agent.fetch_init
  init-Keeps = search wrapper_rules

  pub connect-Keeps : (a0 : Ptr) → Keeps true (Agent.connect api session a0)
  unfolding Agent.connect Agent.fetch_connect
  connect-Keeps a0 = search wrapper_rules

  pub get_identity-Keeps :
      (a0 : Ptr) → (a1 : Ptr) → (a2 : Ptr) → Keeps true (Agent.get_identity api session a0 a1 a2)
  unfolding Agent.get_identity Agent.fetch_get_identity
  get_identity-Keeps a0 a1 a2 = search wrapper_rules

  pub list_identities-Keeps : (a0 : Ptr) → Keeps true (Agent.list_identities api session a0)
  unfolding Agent.list_identities Agent.fetch_list_identities
  list_identities-Keeps a0 = search wrapper_rules

  pub userauth-Keeps :
      (a0 : Ptr) → (a1 : Text) → (a2 : Ptr) → Keeps true (Agent.userauth api session a0 a1 a2)
  unfolding Agent.userauth Agent.fetch_userauth
  userauth-Keeps a0 a1 a2 = search wrapper_rules

pub ruleset agent_rules = (
  wrapper_rules, init-Keeps, connect-Keeps, get_identity-Keeps, list_identities-Keeps,
  userauth-Keeps,
)
