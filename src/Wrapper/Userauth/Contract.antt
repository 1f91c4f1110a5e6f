-- ===== src/Wrapper/Userauth/Contract.antt =====
-- The throwing wrappers of ssh/detail/libssh2/userauth.hpp and the promise of libssh2.hpp.
use ssh2_cpp.Base.{◌≡◌, Text, Ptr, is_zero, not, List, none}
use ssh2_cpp.Libssh2.{
  Libssh2, Challenge, Translator, libssh2_userauth_list, libssh2_userauth_password_ex,
  libssh2_userauth_keyboard_interactive_ex, libssh2_userauth_publickey_fromfile_ex,
}
use ssh2_cpp.Effect.Laws.{bind_laws}
use ssh2_cpp.Error.{last_error_code}
use ssh2_cpp.Wrapper.Null.{is_null}
use ssh2_cpp.Wrapper.Contract.{checked, throw_if_error-fresh}
use ssh2_cpp.Wrapper.Userauth

-- The equation of each throwing wrapper with the action of Wrapper.Contract.
pub record KeepsContract {S : Type 0} (api : Libssh2 S) (session : Ptr) : Type 0 where
  pub list_contract :
      (username : Text)
      → Userauth.list api session username
        ≡ checked libssh2_userauth_list none
            (last_error_code api session)
            (api.userauth.list session username)
            is_null
            (λ r. r)
  pub password_contract :
      (username : Text) (password_string : Text) (passwd_change_cb : Ptr)
      → Userauth.password api session username password_string passwd_change_cb
        ≡ checked libssh2_userauth_password_ex none
            (last_error_code api session)
            (api.userauth.password_ex session username password_string passwd_change_cb)
            (λ rc. not (is_zero rc))
            (λ _. tt)
  pub keyboard_interactive_ex_contract :
      (username : Text) (response_callback : (Challenge → Translator → List Text × Translator))
      (abstract : Translator)
      → Userauth.keyboard_interactive_ex api session username response_callback abstract
        ≡ checked libssh2_userauth_keyboard_interactive_ex none
            (last_error_code api session)
            (api.userauth.keyboard_interactive_ex session username response_callback abstract)
            (λ r. not (is_zero r.0))
            (λ r. r.1)
  pub public_key_from_file_contract :
      (username : Text) (public_key_path : Text) (private_key_path : Text) (passphrase : Text)
      → Userauth.public_key_from_file api session username public_key_path private_key_path
          passphrase
        ≡ checked libssh2_userauth_publickey_fromfile_ex none
            (last_error_code api session)
            (api.userauth.publickey_fromfile_ex session username public_key_path private_key_path
              passphrase)
            (λ rc. not (is_zero rc))
            (λ _. tt)

module _ {S : Type 0} (api : Libssh2 S) (session : Ptr) where
  -- Each throwing wrapper of userauth.hpp calls its function once, and turns exactly the failing
  -- results into the throwing of the last error fetched, with the function's name; an error
  -- fetched with value 0 is not thrown.
  pub userauth_wrappers-KeepsContract : KeepsContract api session
  unfolding checked Userauth.list Userauth.password Userauth.keyboard_interactive_ex
      Userauth.public_key_from_file
  userauth_wrappers-KeepsContract = record {
    list_contract = λ username. simp (bind_laws, throw_if_error-fresh);
    password_contract =
        λ username password_string passwd_change_cb. simp (bind_laws, throw_if_error-fresh);
    keyboard_interactive_ex_contract =
        λ username response_callback abstract. simp (bind_laws, throw_if_error-fresh);
    public_key_from_file_contract = λ username public_key_path private_key_path passphrase.
        simp (bind_laws, throw_if_error-fresh);
  }
