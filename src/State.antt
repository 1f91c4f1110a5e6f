-- ===== src/State.antt =====
-- ssh/detail/session_state.hpp, sftp_channel_state.hpp, file_handle_state.hpp and agent_state.hpp: the
-- objects that own a session, an SFTP channel, a file handle and an agent connection. A constructor is
-- an action that returns the object; a destructor is an action on it.
pub mod Lifetime
pub mod Unconnected
use ssh2_cpp.Base.{ℤ, Text, Ptr, Option, none, some, if◌then◌else◌}
use ssh2_cpp.Libssh2.{Libssh2, OpenFlags, OpenType}
use ssh2_cpp.Libssh2.{
  libssh2_session_free, libssh2_agent_disconnect, libssh2_agent_free, libssh2_sftp_shutdown,
  libssh2_sftp_close_handle,
}
use ssh2_cpp.Effect.{M, pure, throw, call, with_lock, catch, plain, system_error, ◌>>=◌, ◌>>◌}
use ssh2_cpp.Error.{ErrorSlot, fresh_slot, is_error, message_of}
use ssh2_cpp.Wrapper.Session
use ssh2_cpp.Wrapper.Sftp
use ssh2_cpp.Wrapper.Agent
use ssh2_cpp.Base.{ℕ}

pub record SessionState : Type 0 where
  pub session_ptr : Ptr
  pub disconnection_message : Option Text

pub record SftpChannelState : Type 0 where
  pub session : SessionState
  pub sftp_ptr : Ptr

pub record FileHandleState : Type 0 where
  pub sftp : SftpChannelState
  pub file_handle : Ptr

pub record AgentState : Type 0 where
  pub session : SessionState
  pub agent_ptr : Ptr

module _ {S : Type 0} (api : Libssh2 S) where
  -- `session_state()`, never connected to a host
  unfoldable pub unconnected_session : M S SessionState
  unconnected_session = do
    session ← Session.init api
    pure (record { session_ptr = session; disconnection_message = none })

  -- `session_state(socket, disconnection_message)`
  unfoldable pub connected_session : ℤ → Text → M S SessionState
  connected_session socket disconnection_message = do
    session ← Session.init api
    slot ← Session.fetch_startup api session socket fresh_slot
    if is_error slot.ec
        then (do
          call libssh2_session_free (api.session.free session)
          throw (plain (system_error slot.ec (message_of slot))))
        else pure
            (record { session_ptr = session; disconnection_message = some disconnection_message })

  unfoldable pub disconnect_if_started : SessionState → M S (Unit {0})
  disconnect_if_started s = elim s.disconnection_message [
    | none ↦ pure tt
    | some message ↦ do
      Session.fetch_disconnect api s.session_ptr message (record fresh_slot { e_msg = none })
      pure tt
  ]

  -- `~session_state()`
  unfoldable pub destroy_session : SessionState → M S (Unit {0})
  unfolding disconnect_if_started
  destroy_session s = do
    disconnect_if_started s
    call libssh2_session_free (api.session.free s.session_ptr)
    pure tt

  do_sftp_init : SessionState → M S Ptr
  do_sftp_init session = with_lock (Sftp.init api session.session_ptr)

  -- `sftp_channel_state(session)`
  unfoldable pub open_channel : SessionState → M S SftpChannelState
  unfolding do_sftp_init
  open_channel session = do
    channel ← do_sftp_init session
    pure (record { session = session; sftp_ptr = channel })

  -- `~sftp_channel_state()`
  unfoldable pub close_channel : SftpChannelState → M S (Unit {0})
  close_channel c =
      with_lock (do call libssh2_sftp_shutdown (api.sftp.shutdown c.sftp_ptr); pure tt)

  do_open : SftpChannelState → Text → OpenFlags → ℕ → OpenType → M S Ptr
  do_open sftp filename flags mode open_type =
      with_lock
        (Sftp.open_ex api sftp.session.session_ptr sftp.sftp_ptr filename flags mode open_type)

  -- `file_handle_state(sftp, filename, filename_len, flags, mode, open_type)`
  unfoldable pub open_handle :
      SftpChannelState → Text → OpenFlags → ℕ → OpenType → M S FileHandleState
  unfolding do_open
  open_handle sftp filename flags mode open_type = do
    handle ← do_open sftp filename flags mode open_type
    pure (record { sftp = sftp; file_handle = handle })

  -- `~file_handle_state()`
  unfoldable pub close_handle : FileHandleState → M S (Unit {0})
  close_handle h =
      with_lock (do call libssh2_sftp_close_handle (api.sftp.close_handle h.file_handle); pure tt)

  do_agent_init : SessionState → M S Ptr
  do_agent_init session = with_lock (Agent.init api session.session_ptr)

  -- `agent_state(session)`: the handler disconnects and does not throw again
  unfoldable pub open_agent : SessionState → M S AgentState
  unfolding do_agent_init
  open_agent session = do
    agent ← do_agent_init session
    with_lock (
        catch (Agent.connect api session.session_ptr agent)
          λ _. do call libssh2_agent_disconnect (api.agent.disconnect agent); pure tt)
    pure (record { session = session; agent_ptr = agent })

  -- `~agent_state()`
  unfoldable pub close_agent : AgentState → M S (Unit {0})
  close_agent a = with_lock (do
    call libssh2_agent_disconnect (api.agent.disconnect a.agent_ptr)
    call libssh2_agent_free (api.agent.free a.agent_ptr)
    pure tt)
