-- ===== src/Session/Locked.antt =====
-- The operations of ssh/session.hpp and the locking discipline of ssh/detail/libssh2/libssh2.hpp.
use ssh2_cpp.Base.{Bool, true, false, Option, none, some, Text, ℕ}
use ssh2_cpp.Libssh2.{Libssh2, Translator}
use ssh2_cpp.Effect.{ErrorCode}
use ssh2_cpp.Effect.Locking.{Keeps, locking_rules}
use ssh2_cpp.State.{SessionState}
use ssh2_cpp.Wrapper.Userauth
use ssh2_cpp.Wrapper.Locked.UserauthCalls.{userauth_rules}
use ssh2_cpp.Session.{
  authenticated, authenticate_by_password, authenticate_interactively, authenticate_by_key_files,
}
use ssh2_cpp.Session.Connection.{session_hostkey, session_agent_identities, connect_to_filesystem}
use ssh2_cpp.HostKey.Locked.{host_key-Keeps}
use ssh2_cpp.Identities.Locked.{identities-IdentitiesKeepLock}
use ssh2_cpp.State.Lifetime.{state_rules}
use ssh2_cpp.Session.Translator.{Responder, rejected, translate_status}

module _ {S : Type 0} (api : Libssh2 S) where
  rejected-Keeps :
      (ec : ErrorCode) (message : Text) (called : Bool) (exception : Option ℕ)
      → Keeps true (rejected api ec message called exception)
  unfolding rejected
  rejected-Keeps ec message false exception = search locking_rules
  rejected-Keeps ec message true none = search locking_rules
  rejected-Keeps ec message true (some x) = search locking_rules

  translate_status-Keeps :
      (ec : ErrorCode) (message : Text) (t : Translator)
      → Keeps true (translate_status api ec message t)
  unfolding translate_status
  translate_status-Keeps ec message t = search (locking_rules, rejected-Keeps)

-- The operations of a session, begun with the mutex free.
pub record SessionKeepsLock {S : Type 0} (api : Libssh2 S) (session : SessionState) : Type 0 where
  pub authenticated_keeps : Keeps false (authenticated api session)
  pub authenticate_by_password_keeps :
      (username password : Text)
      → Keeps false (authenticate_by_password api session username password)
  pub authenticate_interactively_keeps :
      (username : Text) (responder : Responder)
      → Keeps false (authenticate_interactively api session username responder)
  pub authenticate_by_key_files_keeps :
      (username public_key private_key passphrase : Text)
      → Keeps false
          (authenticate_by_key_files api session username public_key private_key passphrase)
  pub hostkey_keeps : Keeps false (session_hostkey api session)
  pub agent_identities_keeps : Keeps false (session_agent_identities api session)
  pub connect_to_filesystem_keeps : Keeps false (connect_to_filesystem api session)

module _ {S : Type 0} (api : Libssh2 S) (session : SessionState) where
  authenticated-Keeps : Keeps false (authenticated api session)
  unfolding authenticated
  authenticated-Keeps = search locking_rules

  authenticate_by_password-Keeps :
      (username password : Text)
      → Keeps false (authenticate_by_password api session username password)
  unfolding authenticate_by_password Userauth.fetch_password
  authenticate_by_password-Keeps username password = search userauth_rules depth 9

  authenticate_interactively-Keeps :
      (username : Text) (responder : Responder)
      → Keeps false (authenticate_interactively api session username responder)
  unfolding authenticate_interactively Userauth.fetch_keyboard_interactive_ex
  authenticate_interactively-Keeps username responder =
      search (userauth_rules, translate_status-Keeps) depth 9

  authenticate_by_key_files-Keeps :
      (username public_key private_key passphrase : Text)
      → Keeps false
          (authenticate_by_key_files api session username public_key private_key passphrase)
  unfolding authenticate_by_key_files
  authenticate_by_key_files-Keeps username public_key private_key passphrase = search userauth_rules

  session_hostkey-Keeps : Keeps false (session_hostkey api session)
  unfolding session_hostkey
  session_hostkey-Keeps = host_key-Keeps api session

  session_identities-Keeps : Keeps false (session_agent_identities api session)
  unfolding session_agent_identities
  session_identities-Keeps = (identities-IdentitiesKeepLock api).agent_identities_keeps session

  connect_to_filesystem-Keeps : Keeps false (connect_to_filesystem api session)
  unfolding connect_to_filesystem
  connect_to_filesystem-Keeps = search state_rules

  -- The test for authentication, the authentications by password, interactively and by key files, and
  -- the fetching of the host key, of an agent's identities and of a connection to the filesystem, begun
  -- with the session's mutex free, make all their calls into libssh2 with the mutex held, never wait for
  -- a mutex that they hold, and end with the mutex free, whether they return or throw.
  pub session-SessionKeepsLock : SessionKeepsLock api session
  session-SessionKeepsLock = record {
    authenticated_keeps = authenticated-Keeps;
    authenticate_by_password_keeps = authenticate_by_password-Keeps;
    authenticate_interactively_keeps = authenticate_interactively-Keeps;
    authenticate_by_key_files_keeps = authenticate_by_key_files-Keeps;
    hostkey_keeps = session_hostkey-Keeps;
    agent_identities_keeps = session_identities-Keeps;
    connect_to_filesystem_keeps = connect_to_filesystem-Keeps;
  }
