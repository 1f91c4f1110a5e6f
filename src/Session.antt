-- ===== src/Session.antt =====
-- The authentication methods of `session` of ssh/session.hpp. A session is its state object; the
-- division of a string at commas by `boost::split` is the parameter `split`.
pub mod Translator
pub mod Interactive
pub mod Methods
pub mod Locked
pub mod Connection
use ssh2_cpp.Base.{Bool, true, false, not, is_zero, List, [], none, some, Text, if◌then◌else◌}
use ssh2_cpp.Libssh2.{Libssh2, libssh2_userauth_authenticated, libssh2_session_abstract}
use ssh2_cpp.Effect.{M, plain, system_error, pure, throw, call, with_lock, assert_act, ◌>>=◌, ◌>>◌}
use ssh2_cpp.Error.{ErrorSlot, fresh_slot, message_of, is_error}
use ssh2_cpp.Error.Condition.{equals_errc, permission_denied}
use ssh2_cpp.State.{SessionState}
use ssh2_cpp.Wrapper.Userauth
use Translator.{Responder, call_responder, fresh_translator, translate_status}

module _ {S : Type 0} (api : Libssh2 S) (session : SessionState) where
  unfoldable pub authenticated : M S Bool
  authenticated = with_lock (do
    rc ← call libssh2_userauth_authenticated (api.userauth.authenticated session.session_ptr)
    pure (not (is_zero rc)))

  -- with the lock held to the end of the function, `assert(authenticated())` included
  unfoldable pub authentication_methods : (Text → List Text) → Text → M S (List Text)
  unfolding authenticated
  authentication_methods split username = with_lock (do
    (method_list, slot) ← Userauth.fetch_list api session.session_ptr username fresh_slot
    elim method_list [
      | none ↦
          if not (is_error slot.ec)
          then (do assert_act authenticated; pure [])
          else throw (plain (system_error slot.ec (message_of slot)))
      | some methods ↦ pure (split methods)
    ])

  unfoldable pub authenticate_by_password : Text → Text → M S Bool
  authenticate_by_password username password = do
    slot ←
        with_lock
          (Userauth.fetch_password api session.session_ptr username password none fresh_slot)
    if not (is_error slot.ec)
        then pure true
        else if equals_errc api.codes slot.ec permission_denied
        then pure false
        else throw (plain (system_error slot.ec (message_of slot)))

  -- `do_challenge_response` on a new translator for the responder; the session's `abstract` is set to
  -- it, which the call into libssh2 takes as an argument
  unfoldable pub authenticate_interactively : Text → Responder → M S Bool
  authenticate_interactively username responder = with_lock (do
    call libssh2_session_abstract (λ s. (tt, s))
    (translator, slot) ←
        Userauth.fetch_keyboard_interactive_ex api session.session_ptr username
          (call_responder responder) fresh_translator fresh_slot
    translate_status api slot.ec (message_of slot) translator)

  unfoldable pub authenticate_by_key_files : Text → Text → Text → Text → M S (Unit {0})
  authenticate_by_key_files username public_key private_key passphrase = with_lock (
      Userauth.public_key_from_file api session.session_ptr username public_key private_key
        passphrase)
