-- ===== src/Session/Connection.antt =====
-- The constructor of `session` of ssh/session.hpp, and the objects that a session makes.
use ssh2_cpp.Base.{ℤ, Text}
use ssh2_cpp.Effect.{M}
use ssh2_cpp.Libssh2.{Libssh2}
use ssh2_cpp.State.{SessionState, AgentState, SftpChannelState, connected_session, open_channel}
use ssh2_cpp.HostKey.{HostKey, host_key}
use ssh2_cpp.Identities.{agent_identities}

module _ {S : Type 0} (api : Libssh2 S) where
  unfoldable pub start_session : ℤ → Text → M S SessionState
  start_session socket disconnection_message = connected_session api socket disconnection_message

  unfoldable pub session_hostkey : SessionState → M S HostKey
  session_hostkey session = host_key api session

  unfoldable pub session_agent_identities : SessionState → M S AgentState
  session_agent_identities session = agent_identities api session

  unfoldable pub connect_to_filesystem : SessionState → M S SftpChannelState
  connect_to_filesystem session = open_channel api session
