-- ===== src/Wrapper/Knownhost/Contract.antt =====
-- The throwing wrappers of ssh/detail/libssh2/knownhost.hpp and the promise of libssh2.hpp.
use ssh2_cpp.Base.{◌≡◌, Text, Ptr, ℕ, ℤ, is_negative, Option, none}
use ssh2_cpp.Libssh2.{
  Libssh2, libssh2_knownhost_init, libssh2_knownhost_readline, libssh2_knownhost_writeline,
  libssh2_knownhost_get, libssh2_knownhost_add, libssh2_knownhost_del,
}
use ssh2_cpp.Effect.Laws.{bind_laws}
use ssh2_cpp.Error.{last_error_code}
use ssh2_cpp.Wrapper.Null.{is_null}
use ssh2_cpp.Wrapper.Contract.{checked, throw_if_error-fresh}
use ssh2_cpp.Wrapper.Knownhost

-- The equation of each throwing wrapper with the action of Wrapper.Contract.
pub record KeepsContract {S : Type 0} (api : Libssh2 S) (session : Ptr) : Type 0 where
  pub init_contract :
      Knownhost.init api session
      ≡ checked libssh2_knownhost_init none
          (last_error_code api session)
          (api.knownhost.init session)
          is_null
          (λ r. r)
  pub readline_contract :
      (hosts : Ptr) (line : Text) (type : ℤ)
      → Knownhost.readline api session hosts line type
        ≡ checked libssh2_knownhost_readline none
            (last_error_code api session)
            (api.knownhost.readline hosts line type)
            is_negative
            (λ _. tt)
  pub writeline_contract :
      (hosts : Ptr) (host : Ptr) (buffer_length : ℕ) (type : ℤ)
      → Knownhost.writeline api session hosts host buffer_length type
        ≡ checked libssh2_knownhost_writeline none
            (last_error_code api session)
            (api.knownhost.writeline hosts host buffer_length type)
            (λ r. is_negative r.0)
            (λ r. (r.1, r.2))
  pub get_contract :
      (hosts : Ptr) (store : Ptr) (current_position : Ptr)
      → Knownhost.get api session hosts store current_position
        ≡ checked libssh2_knownhost_get none
            (last_error_code api session)
            (api.knownhost.get hosts store current_position)
            (λ r. is_negative r.0)
            (λ r. r)
  pub add_contract :
      (hosts : Ptr) (host : Text) (salt : Option Text) (key : Text) (typemask : ℤ) (store : Ptr)
      → Knownhost.add api session hosts host salt key typemask store
        ≡ checked libssh2_knownhost_add none
            (last_error_code api session)
            (api.knownhost.add hosts host salt key typemask store)
            (λ r. is_negative r.0)
            (λ r. r.1)
  pub del_contract :
      (hosts : Ptr) (entry : Ptr)
      → Knownhost.del api session hosts entry
        ≡ checked libssh2_knownhost_del none
            (last_error_code api session)
            (api.knownhost.del hosts entry)
            is_negative
            (λ _. tt)

module _ {S : Type 0} (api : Libssh2 S) (session : Ptr) where
  -- The throwing wrappers `init`, `readline`, `writeline`, `get`, `add` and `del` of knownhost.hpp
  -- each call their function once, and turn exactly the failing results into the throwing of the
  -- last error fetched, with the function's name; an error fetched with value 0 is not thrown.
  pub knownhost_wrappers-KeepsContract : KeepsContract api session
  unfolding checked Knownhost.init Knownhost.readline Knownhost.writeline Knownhost.get
      Knownhost.add Knownhost.del
  knownhost_wrappers-KeepsContract = record {
    init_contract = simp (bind_laws, throw_if_error-fresh);
    readline_contract = λ hosts line type. simp (bind_laws, throw_if_error-fresh);
    writeline_contract = λ hosts host buffer_length type. simp (bind_laws, throw_if_error-fresh);
    get_contract = λ hosts store current_position. simp (bind_laws, throw_if_error-fresh);
    add_contract = λ hosts host salt key typemask store. simp (bind_laws, throw_if_error-fresh);
    del_contract = λ hosts entry. simp (bind_laws, throw_if_error-fresh);
  }
