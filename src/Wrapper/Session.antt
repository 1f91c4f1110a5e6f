-- ===== src/Wrapper/Session.antt =====
-- ssh/detail/libssh2/session.hpp. A function `fetch_f` is the error-fetching overload, `f` the throwing
-- one.
pub mod Contract
use ssh2_cpp.Base.{ℤ, is_zero, not, none, some, Text, Ptr, if◌then◌else◌}
use ssh2_cpp.Libssh2.{
  Libssh2, libssh2_session_startup, libssh2_session_disconnect, libssh2_session_init_ex,
}
use ssh2_cpp.Wrapper.Null.{is_null}
use ssh2_cpp.Effect.{M, pure, call, throw, plain, bad_alloc, ◌>>=◌}
use ssh2_cpp.Error.{ErrorSlot, fresh_slot, last_error_code, throw_if_error}

module _ {S : Type 0} (api : Libssh2 S) where
  unfoldable pub fetch_startup : Ptr → ℤ → ErrorSlot → M S ErrorSlot
  fetch_startup session socket slot = do
    rc ← call libssh2_session_startup (api.session.startup session socket)
    if not (is_zero rc) then last_error_code api session slot.e_msg else pure slot

  unfoldable pub startup : Ptr → ℤ → M S (Unit {0})
  unfolding fetch_startup
  startup session socket = do
    slot ← fetch_startup session socket fresh_slot
    throw_if_error slot libssh2_session_startup none

  unfoldable pub fetch_disconnect : Ptr → Text → ErrorSlot → M S ErrorSlot
  fetch_disconnect session description slot = do
    rc ← call libssh2_session_disconnect (api.session.disconnect session description)
    if not (is_zero rc) then last_error_code api session slot.e_msg else pure slot

  unfoldable pub disconnect : Ptr → Text → M S (Unit {0})
  unfolding fetch_disconnect
  disconnect session description = do
    slot ← fetch_disconnect session description fresh_slot
    throw_if_error slot libssh2_session_disconnect none

  unfoldable pub init : M S Ptr
  init = do
    session ← call libssh2_session_init_ex api.session.init_ex
    if is_null session
        then throw (plain (bad_alloc "Failed to allocate new ssh session"))
        else pure session
