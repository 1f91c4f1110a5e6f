-- ===== src/Wrapper/Agent/Contract.antt =====
-- The throwing wrappers of ssh/detail/libssh2/agent.hpp and the promise of libssh2.hpp.
use ssh2_cpp.Base.{◌≡◌, Text, Ptr, is_negative, none}
use ssh2_cpp.Libssh2.{
  Libssh2, libssh2_agent_init, libssh2_agent_connect, libssh2_agent_get_identity,
  libssh2_agent_list_identities, libssh2_agent_userauth,
}
use ssh2_cpp.Effect.Laws.{bind_laws}
use ssh2_cpp.Error.{last_error_code}
use ssh2_cpp.Wrapper.Null.{is_null}
use ssh2_cpp.Wrapper.Contract.{checked, throw_if_error-fresh}
use ssh2_cpp.Wrapper.Agent

-- The equation of each throwing wrapper with the action of Wrapper.Contract.
pub record KeepsContract {S : Type 0} (api : Libssh2 S) (session : Ptr) : Type 0 where
  pub init_contract :
      Agent.init api session
      ≡ checked libssh2_agent_init none
          (last_error_code api session)
          (api.agent.init session)
          is_null
          (λ r. r)
  pub connect_contract :
      (agent : Ptr)
      → Agent.connect api session agent
        ≡ checked libssh2_agent_connect none
            (last_error_code api session)
            (api.agent.connect agent)
            is_negative
            (λ _. tt)
  pub get_identity_contract :
      (agent : Ptr) (out : Ptr) (previous : Ptr)
      → Agent.get_identity api session agent out previous
        ≡ checked libssh2_agent_get_identity none
            (last_error_code api session)
            (api.agent.get_identity agent out previous)
            (λ r. is_negative r.0)
            (λ r. r)
  pub list_identities_contract :
      (agent : Ptr)
      → Agent.list_identities api session agent
        ≡ checked libssh2_agent_list_identities none
            (last_error_code api session)
            (api.agent.list_identities agent)
            is_negative
            (λ _. tt)
  pub userauth_contract :
      (agent : Ptr) (user_name : Text) (identity : Ptr)
      → Agent.userauth api session agent user_name identity
        ≡ checked libssh2_agent_userauth none
            (last_error_code api session)
            (api.agent.userauth agent user_name identity)
            is_negative
            (λ _. tt)

module _ {S : Type 0} (api : Libssh2 S) (session : Ptr) where
  -- Each throwing wrapper of agent.hpp calls its function once, and turns exactly the failing
  -- results into the throwing of the last error fetched, with the function's name; an error
  -- fetched with value 0 is not thrown.
  pub agent_wrappers-KeepsContract : KeepsContract api session
  unfolding checked Agent.init Agent.connect Agent.get_identity Agent.list_identities Agent.userauth
  agent_wrappers-KeepsContract = record {
    init_contract = simp (bind_laws, throw_if_error-fresh);
    connect_contract = λ agent. simp (bind_laws, throw_if_error-fresh);
    get_identity_contract = λ agent out previous. simp (bind_laws, throw_if_error-fresh);
    list_identities_contract = λ agent. simp (bind_laws, throw_if_error-fresh);
    userauth_contract = λ agent user_name identity. simp (bind_laws, throw_if_error-fresh);
  }
