-- ===== src/Wrapper/Knownhost.antt =====
-- ssh/detail/libssh2/knownhost.hpp. A function `fetch_f` is the error-fetching overload, `f` the
-- throwing one; the objects behind the out-pointers are returned.
pub mod Contract
use ssh2_cpp.Base.{◌||◌, eqb_ℤ, ℕ, ℤ, is_negative, Option, none, Text, Ptr, if◌then◌else◌}
use ssh2_cpp.Libssh2.{
  Libssh2, libssh2_knownhost_init, libssh2_knownhost_readline, libssh2_knownhost_writeline,
  libssh2_knownhost_get, libssh2_knownhost_add, libssh2_knownhost_del, libssh2_knownhost_check,
}
use ssh2_cpp.Effect.{M, pure, call, ◌>>=◌, ◌>>◌}
use ssh2_cpp.Error.{ErrorSlot, fresh_slot, last_error_code, throw_if_error}
use ssh2_cpp.Wrapper.Null.{is_null}

module _ {S : Type 0} (api : Libssh2 S) where
  unfoldable pub fetch_init : Ptr → ErrorSlot → M S (Ptr × ErrorSlot)
  fetch_init session slot = do
    hosts ← call libssh2_knownhost_init (api.knownhost.init session)
    if is_null hosts
        then (do failed ← last_error_code api session slot.e_msg; pure (hosts, failed))
        else pure (hosts, slot)

  unfoldable pub init : Ptr → M S (Ptr)
  unfolding fetch_init
  init session = do
    (hosts, slot) ← fetch_init session fresh_slot
    throw_if_error slot libssh2_knownhost_init none
    pure hosts

  unfoldable pub fetch_readline : Ptr → Ptr → Text → ℤ → ErrorSlot → M S ErrorSlot
  fetch_readline session hosts line type slot = do
    rc ← call libssh2_knownhost_readline (api.knownhost.readline hosts line type)
    if is_negative rc then last_error_code api session slot.e_msg else pure slot

  unfoldable pub readline : Ptr → Ptr → Text → ℤ → M S (Unit {0})
  unfolding fetch_readline
  readline session hosts line type = do
    slot ← fetch_readline session hosts line type fresh_slot
    throw_if_error slot libssh2_knownhost_readline none

  unfoldable pub fetch_writeline :
      Ptr → Ptr → Ptr → ℕ → ℤ → ErrorSlot → M S ((Text × ℕ) × ErrorSlot)
  fetch_writeline session hosts host buffer_length type slot = do
    (rc, buffer, written) ←
        call libssh2_knownhost_writeline (api.knownhost.writeline hosts host buffer_length type)
    if is_negative rc
        then (do failed ← last_error_code api session slot.e_msg; pure ((buffer, written), failed))
        else pure ((buffer, written), slot)

  unfoldable pub writeline : Ptr → Ptr → Ptr → ℕ → ℤ → M S (Text × ℕ)
  unfolding fetch_writeline
  writeline session hosts host buffer_length type = do
    (result, slot) ← fetch_writeline session hosts host buffer_length type fresh_slot
    throw_if_error slot libssh2_knownhost_writeline none
    pure result

  unfoldable pub fetch_get : Ptr → Ptr → Ptr → Ptr → ErrorSlot → M S ((ℤ × Ptr) × ErrorSlot)
  fetch_get session hosts store current_position slot = do
    (rc, stored) ← call libssh2_knownhost_get (api.knownhost.get hosts store current_position)
    if is_negative rc
        then (do failed ← last_error_code api session slot.e_msg; pure ((rc, stored), failed))
        else pure ((rc, stored), slot)

  unfoldable pub get : Ptr → Ptr → Ptr → Ptr → M S (ℤ × Ptr)
  unfolding fetch_get
  get session hosts store current_position = do
    (result, slot) ← fetch_get session hosts store current_position fresh_slot
    throw_if_error slot libssh2_knownhost_get none
    pure result

  unfoldable pub fetch_add :
      Ptr → Ptr → Text → Option Text → Text → ℤ → Ptr → ErrorSlot → M S (Ptr × ErrorSlot)
  fetch_add session hosts host salt key typemask store slot = do
    (rc, stored) ← call libssh2_knownhost_add (api.knownhost.add hosts host salt key typemask store)
    if is_negative rc
        then (do failed ← last_error_code api session slot.e_msg; pure (stored, failed))
        else pure (stored, slot)

  unfoldable pub add : Ptr → Ptr → Text → Option Text → Text → ℤ → Ptr → M S (Ptr)
  unfolding fetch_add
  add session hosts host salt key typemask store = do
    (stored, slot) ← fetch_add session hosts host salt key typemask store fresh_slot
    throw_if_error slot libssh2_knownhost_add none
    pure stored

  unfoldable pub fetch_del : Ptr → Ptr → Ptr → ErrorSlot → M S ErrorSlot
  fetch_del session hosts entry slot = do
    rc ← call libssh2_knownhost_del (api.knownhost.del hosts entry)
    if is_negative rc then last_error_code api session slot.e_msg else pure slot

  unfoldable pub del : Ptr → Ptr → Ptr → M S (Unit {0})
  unfolding fetch_del
  del session hosts entry = do
    slot ← fetch_del session hosts entry fresh_slot
    throw_if_error slot libssh2_knownhost_del none

  unfoldable pub fetch_check :
      Ptr → Ptr → Text → Text → ℤ → Ptr → ErrorSlot → M S ((ℤ × Ptr) × ErrorSlot)
  fetch_check session hosts host key typemask entry slot = do
    (rc, found) ← call libssh2_knownhost_check (api.knownhost.check hosts host key typemask entry)
    if eqb_ℤ rc api.checks.match || eqb_ℤ rc api.checks.mismatch || eqb_ℤ rc api.checks.notfound
        then pure ((rc, found), slot)
        else (do
          failed ← last_error_code api session slot.e_msg
          pure ((api.checks.failure, found), failed))

  unfoldable pub check : Ptr → Ptr → Text → Text → ℤ → Ptr → M S (ℤ × Ptr)
  unfolding fetch_check
  check session hosts host key typemask entry = do
    (result, slot) ← fetch_check session hosts host key typemask entry fresh_slot
    throw_if_error slot libssh2_knownhost_check none
    pure result
