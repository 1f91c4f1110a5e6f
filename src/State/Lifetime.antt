-- ===== src/State/Lifetime.antt =====
-- The constructors and destructors of ssh/detail/*_state.hpp and the locking discipline of libssh2.hpp.
use ssh2_cpp.Base.{false, Text, ℕ}
use ssh2_cpp.Libssh2.{Libssh2, OpenFlags, OpenType}
use ssh2_cpp.Effect.Locking.{Keeps}
use ssh2_cpp.Wrapper.Locked.SftpCalls.{sftp_rules}
use ssh2_cpp.Wrapper.Locked.AgentCalls.{agent_rules}
use ssh2_cpp.State.{
  SessionState, SftpChannelState, FileHandleState, AgentState, open_channel, close_channel,
  open_handle, close_handle, open_agent, close_agent,
}

module _ {S : Type 0} (api : Libssh2 S) where
  pub open_channel-Keeps : (s : SessionState) → Keeps false (open_channel api s)
  unfolding open_channel
  open_channel-Keeps s = search sftp_rules

  pub close_channel-Keeps : (c : SftpChannelState) → Keeps false (close_channel api c)
  unfolding close_channel
  close_channel-Keeps c = search sftp_rules

  pub open_handle-Keeps :
      (c : SftpChannelState) (path : Text) (flags : OpenFlags) (mode : ℕ) (t : OpenType)
      → Keeps false (open_handle api c path flags mode t)
  unfolding open_handle
  open_handle-Keeps c path flags mode t = search sftp_rules

  pub close_handle-Keeps : (h : FileHandleState) → Keeps false (close_handle api h)
  unfolding close_handle
  close_handle-Keeps h = search sftp_rules

  pub open_agent-Keeps : (s : SessionState) → Keeps false (open_agent api s)
  unfolding open_agent
  open_agent-Keeps s = search agent_rules depth 8

  pub close_agent-Keeps : (a : AgentState) → Keeps false (close_agent api a)
  unfolding close_agent
  close_agent-Keeps a = search agent_rules

pub ruleset state_rules = (
  open_channel-Keeps, close_channel-Keeps, open_handle-Keeps, close_handle-Keeps, open_agent-Keeps,
  close_agent-Keeps,
)

-- Constructing and destroying each object that belongs to a session, begun with the mutex free.
pub record LifetimesKeepLock {S : Type 0} (api : Libssh2 S) : Type 0 where
  pub open_channel_keeps : (s : SessionState) → Keeps false (open_channel api s)
  pub close_channel_keeps : (c : SftpChannelState) → Keeps false (close_channel api c)
  pub open_handle_keeps :
      (c : SftpChannelState) (path : Text) (flags : OpenFlags) (mode : ℕ) (t : OpenType)
      → Keeps false (open_handle api c path flags mode t)
  pub close_handle_keeps : (h : FileHandleState) → Keeps false (close_handle api h)
  pub open_agent_keeps : (s : SessionState) → Keeps false (open_agent api s)
  pub close_agent_keeps : (a : AgentState) → Keeps false (close_agent api a)

-- The constructors and destructors of SFTP channels, file handles and agent connections, begun with the
-- session's mutex free, make all their calls into libssh2 with the mutex held, never wait for a mutex
-- that they hold, and end with the mutex free, whether they return or throw.
pub lifetimes-LifetimesKeepLock : {S : Type 0} (api : Libssh2 S) → LifetimesKeepLock api
lifetimes-LifetimesKeepLock api = record {
  open_channel_keeps = open_channel-Keeps api;
  close_channel_keeps = close_channel-Keeps api;
  open_handle_keeps = open_handle-Keeps api;
  close_handle_keeps = close_handle-Keeps api;
  open_agent_keeps = open_agent-Keeps api;
  close_agent_keeps = close_agent-Keeps api;
}
