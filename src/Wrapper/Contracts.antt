-- ===== src/Wrapper/Contracts.antt =====
-- The throwing wrappers of ssh/detail/libssh2/session.hpp, userauth.hpp, agent.hpp and knownhost.hpp
-- and the promise of libssh2.hpp.
use ssh2_cpp.Base.{Ptr}
use ssh2_cpp.Libssh2.{Libssh2}
use ssh2_cpp.Wrapper.Session.Contract.{
  KeepsContract as SessionContract, session_wrappers-KeepsContract,
}
use ssh2_cpp.Wrapper.Userauth.Contract.{
  KeepsContract as UserauthContract, userauth_wrappers-KeepsContract,
}
use ssh2_cpp.Wrapper.Agent.Contract.{KeepsContract as AgentContract, agent_wrappers-KeepsContract}
use ssh2_cpp.Wrapper.Knownhost.Contract.{
  KeepsContract as KnownhostContract, knownhost_wrappers-KeepsContract,
}

-- The promises of the four files.
pub record KeepContracts {S : Type 0} (api : Libssh2 S) (session : Ptr) : Type 0 where
  pub of_session : SessionContract api session
  pub of_userauth : UserauthContract api session
  pub of_agent : AgentContract api session
  pub of_knownhost : KnownhostContract api session

-- Each throwing wrapper of a session's, the authentication, the agent and the known-host functions, but
-- for the creation of a session and the check of a host, calls its function once, and turns exactly the
-- failing results into the throwing of the last error fetched, with the function's name; an error
-- fetched with value 0 is not thrown.
pub wrappers-KeepContracts :
    {S : Type 0} (api : Libssh2 S) (session : Ptr) → KeepContracts api session
wrappers-KeepContracts api session = record {
  of_session = session_wrappers-KeepsContract api session;
  of_userauth = userauth_wrappers-KeepsContract api session;
  of_agent = agent_wrappers-KeepsContract api session;
  of_knownhost = knownhost_wrappers-KeepsContract api session;
}
