-- ===== src/Wrapper/Session/Contract.antt =====
-- The throwing wrappers of ssh/detail/libssh2/session.hpp and the promise of libssh2.hpp.
use ssh2_cpp.Base.{◌≡◌, Text, Ptr, ℤ, is_zero, not, none}
use ssh2_cpp.Libssh2.{Libssh2, libssh2_session_startup, libssh2_session_disconnect}
use ssh2_cpp.Effect.Laws.{bind_laws}
use ssh2_cpp.Error.{last_error_code}
use ssh2_cpp.Wrapper.Contract.{checked, throw_if_error-fresh}
use ssh2_cpp.Wrapper.Session

-- The equation of each throwing wrapper with the action of Wrapper.Contract.
pub record KeepsContract {S : Type 0} (api : Libssh2 S) (session : Ptr) : Type 0 where
  pub startup_contract :
      (socket : ℤ)
      → Session.startup api session socket
        ≡ checked libssh2_session_startup none
            (last_error_code api session)
            (api.session.startup session socket)
            (λ rc. not (is_zero rc))
            (λ _. tt)
  pub disconnect_contract :
      (description : Text)
      → Session.disconnect api session description
        ≡ checked libssh2_session_disconnect none
            (last_error_code api session)
            (api.session.disconnect session description)
            (λ rc. not (is_zero rc))
            (λ _. tt)

module _ {S : Type 0} (api : Libssh2 S) (session : Ptr) where
  -- The throwing wrappers `startup` and `disconnect` of session.hpp each call their function once,
  -- and turn exactly the failing results into the throwing of the last error fetched, with the
  -- function's name; an error fetched with value 0 is not thrown.
  pub session_wrappers-KeepsContract : KeepsContract api session
  unfolding checked Session.startup Session.disconnect
  session_wrappers-KeepsContract = record {
    startup_contract = λ socket. simp (bind_laws, throw_if_error-fresh);
    disconnect_contract = λ description. simp (bind_laws, throw_if_error-fresh);
  }
