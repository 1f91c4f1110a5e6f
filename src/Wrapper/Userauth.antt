-- ===== src/Wrapper/Userauth.antt =====
-- ssh/detail/libssh2/userauth.hpp. A function `fetch_f` is the error-fetching overload, `f` the
-- throwing one. The session's `abstract`, which the callback reads and writes, is passed and returned.
pub mod Contract
use ssh2_cpp.Base.{is_zero, not, Option, List, none, Text, Ptr, if◌then◌else◌}
use ssh2_cpp.Libssh2.{Challenge, Translator}
use ssh2_cpp.Libssh2.{
  Libssh2, libssh2_userauth_list, libssh2_userauth_password_ex,
  libssh2_userauth_keyboard_interactive_ex, libssh2_userauth_publickey_fromfile_ex,
}
use ssh2_cpp.Effect.{M, pure, call, ◌>>=◌, ◌>>◌}
use ssh2_cpp.Error.{ErrorSlot, fresh_slot, last_error_code, throw_if_error}
use ssh2_cpp.Wrapper.Null.{is_null}

module _ {S : Type 0} (api : Libssh2 S) where
  unfoldable pub fetch_list : Ptr → Text → ErrorSlot → M S (Option Text × ErrorSlot)
  fetch_list session username slot = do
    method_list ← call libssh2_userauth_list (api.userauth.list session username)
    if is_null method_list
        then (do failed ← last_error_code api session slot.e_msg; pure (method_list, failed))
        else pure (method_list, slot)

  unfoldable pub list : Ptr → Text → M S (Option Text)
  unfolding fetch_list
  list session username = do
    (method_list, slot) ← fetch_list session username fresh_slot
    throw_if_error slot libssh2_userauth_list none
    pure method_list

  unfoldable pub fetch_password : Ptr → Text → Text → Ptr → ErrorSlot → M S ErrorSlot
  fetch_password session username password_string passwd_change_cb slot = do
    rc ←
        call libssh2_userauth_password_ex
          (api.userauth.password_ex session username password_string passwd_change_cb)
    if not (is_zero rc) then last_error_code api session slot.e_msg else pure slot

  unfoldable pub password : Ptr → Text → Text → Ptr → M S (Unit {0})
  unfolding fetch_password
  password session username password_string passwd_change_cb = do
    slot ← fetch_password session username password_string passwd_change_cb fresh_slot
    throw_if_error slot libssh2_userauth_password_ex none

  unfoldable pub fetch_keyboard_interactive_ex :
      Ptr
      → Text
      → (Challenge → Translator → List Text × Translator)
      → Translator
      → ErrorSlot
      → M S (Translator × ErrorSlot)
  fetch_keyboard_interactive_ex session username response_callback abstract slot = do
    (rc, left) ←
        call libssh2_userauth_keyboard_interactive_ex
          (api.userauth.keyboard_interactive_ex session username response_callback abstract)
    if not (is_zero rc)
        then (do failed ← last_error_code api session slot.e_msg; pure (left, failed))
        else pure (left, slot)

  unfoldable pub keyboard_interactive_ex :
      Ptr → Text → (Challenge → Translator → List Text × Translator) → Translator → M S (Translator)
  unfolding fetch_keyboard_interactive_ex
  keyboard_interactive_ex session username response_callback abstract = do
    (left, slot) ←
        fetch_keyboard_interactive_ex session username response_callback abstract fresh_slot
    throw_if_error slot libssh2_userauth_keyboard_interactive_ex none
    pure left

  unfoldable pub fetch_public_key_from_file :
      Ptr → Text → Text → Text → Text → ErrorSlot → M S ErrorSlot
  fetch_public_key_from_file session username public_key_path private_key_path passphrase slot = do
    rc ← call libssh2_userauth_publickey_fromfile_ex (
        api.userauth.publickey_fromfile_ex session username public_key_path private_key_path
          passphrase)
    if not (is_zero rc) then last_error_code api session slot.e_msg else pure slot

  unfoldable pub public_key_from_file : Ptr → Text → Text → Text → Text → M S (Unit {0})
  unfolding fetch_public_key_from_file
  public_key_from_file session username public_key_path private_key_path passphrase = do
    slot ←
        fetch_public_key_from_file session username public_key_path private_key_path passphrase
          fresh_slot
    throw_if_error slot libssh2_userauth_publickey_fromfile_ex none
