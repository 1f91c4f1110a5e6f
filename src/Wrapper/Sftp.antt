-- ===== src/Wrapper/Sftp.antt =====
-- ssh/detail/libssh2/sftp.hpp. A function `fetch_f` is the error-fetching overload, `f` the throwing
-- one; the return value and the objects behind the out-pointers come back together.
pub mod Contract
pub mod Fetched
use ssh2_cpp.Base.{
  ◌||◌, eqb_ℤ, ℕ, ℤ, is_zero, is_negative, not, Bool, Option, none, some, Text, Ptr, if◌then◌else◌,
}
use ssh2_cpp.Libssh2.{Attributes, OpenFlags, OpenType, StatType, RenameFlags}
use ssh2_cpp.Libssh2.{
  Libssh2, libssh2_sftp_init, libssh2_sftp_open_ex, libssh2_sftp_stat_ex, libssh2_sftp_fstat_ex,
  libssh2_sftp_unlink_ex, libssh2_sftp_mkdir_ex, libssh2_sftp_rmdir_ex, libssh2_sftp_rename_ex,
  libssh2_sftp_read, libssh2_sftp_write, libssh2_sftp_readdir_ex, libssh2_sftp_symlink_ex,
}
use ssh2_cpp.Effect.{M, pure, call, assert, ◌>>=◌, ◌>>◌}
use ssh2_cpp.Error.{ErrorSlot, fresh_slot, last_error_code, last_sftp_error_code, throw_if_error}
use ssh2_cpp.Wrapper.Null.{is_null}

module _ {S : Type 0} (api : Libssh2 S) where
  unfoldable pub fetch_init : Ptr → ErrorSlot → M S (Ptr × ErrorSlot)
  fetch_init session slot = do
    channel ← call libssh2_sftp_init (api.sftp.init session)
    if is_null channel
        then (do failed ← last_error_code api session slot.e_msg; pure (channel, failed))
        else pure (channel, slot)

  unfoldable pub init : Ptr → M S (Ptr)
  unfolding fetch_init
  init session = do
    (channel, slot) ← fetch_init session fresh_slot
    throw_if_error slot libssh2_sftp_init none
    pure channel

  unfoldable pub fetch_open_ex :
      Ptr → Ptr → Text → OpenFlags → ℕ → OpenType → ErrorSlot → M S (Ptr × ErrorSlot)
  fetch_open_ex session channel filename flags mode open_type slot = do
    handle ← call libssh2_sftp_open_ex (api.sftp.open_ex channel filename flags mode open_type)
    if is_null handle
        then (do
          failed ← last_sftp_error_code api session channel slot.e_msg
          pure (handle, failed))
        else pure (handle, slot)

  unfoldable pub open_ex : Ptr → Ptr → Text → OpenFlags → ℕ → OpenType → M S (Ptr)
  unfolding fetch_open_ex
  open_ex session channel filename flags mode open_type = do
    (handle, slot) ← fetch_open_ex session channel filename flags mode open_type fresh_slot
    throw_if_error slot libssh2_sftp_open_ex (some filename)
    pure handle

  unfoldable pub fetch_stat :
      Ptr → Ptr → Text → StatType → Attributes → ErrorSlot → M S (Attributes × ErrorSlot)
  fetch_stat session channel path stat_type attributes slot = do
    (rc, filled) ← call libssh2_sftp_stat_ex (api.sftp.stat_ex channel path stat_type attributes)
    if is_negative rc
        then (do
          failed ← last_sftp_error_code api session channel slot.e_msg
          pure (filled, failed))
        else pure (filled, slot)

  unfoldable pub stat : Ptr → Ptr → Text → StatType → Attributes → M S (Attributes)
  unfolding fetch_stat
  stat session channel path stat_type attributes = do
    (filled, slot) ← fetch_stat session channel path stat_type attributes fresh_slot
    throw_if_error slot libssh2_sftp_stat_ex (some path)
    pure filled

  unfoldable pub fetch_fstat :
      Ptr → Ptr → Ptr → Attributes → StatType → ErrorSlot → M S (Attributes × ErrorSlot)
  fetch_fstat session channel handle attributes fstat_type slot = do
    (rc, filled) ← call libssh2_sftp_fstat_ex (api.sftp.fstat_ex handle attributes fstat_type)
    if not (is_zero rc)
        then (do
          failed ← last_sftp_error_code api session channel slot.e_msg
          pure (filled, failed))
        else pure (filled, slot)

  unfoldable pub fstat : Ptr → Ptr → Ptr → Attributes → StatType → M S (Attributes)
  unfolding fetch_fstat
  fstat session channel handle attributes fstat_type = do
    (filled, slot) ← fetch_fstat session channel handle attributes fstat_type fresh_slot
    throw_if_error slot libssh2_sftp_fstat_ex none
    pure filled

  unfoldable pub fetch_unlink_ex : Ptr → Ptr → Text → ErrorSlot → M S ErrorSlot
  fetch_unlink_ex session channel path slot = do
    rc ← call libssh2_sftp_unlink_ex (api.sftp.unlink_ex channel path)
    if is_negative rc then last_sftp_error_code api session channel slot.e_msg else pure slot

  unfoldable pub unlink_ex : Ptr → Ptr → Text → M S (Unit {0})
  unfolding fetch_unlink_ex
  unlink_ex session channel path = do
    slot ← fetch_unlink_ex session channel path fresh_slot
    throw_if_error slot libssh2_sftp_unlink_ex (some path)

  unfoldable pub fetch_mkdir_ex : Ptr → Ptr → Text → ℕ → ErrorSlot → M S ErrorSlot
  fetch_mkdir_ex session channel path mode slot = do
    rc ← call libssh2_sftp_mkdir_ex (api.sftp.mkdir_ex channel path mode)
    if is_negative rc then last_sftp_error_code api session channel slot.e_msg else pure slot

  unfoldable pub mkdir_ex : Ptr → Ptr → Text → ℕ → M S (Unit {0})
  unfolding fetch_mkdir_ex
  mkdir_ex session channel path mode = do
    slot ← fetch_mkdir_ex session channel path mode fresh_slot
    throw_if_error slot libssh2_sftp_mkdir_ex (some path)

  unfoldable pub fetch_rmdir_ex : Ptr → Ptr → Text → ErrorSlot → M S ErrorSlot
  fetch_rmdir_ex session channel path slot = do
    rc ← call libssh2_sftp_rmdir_ex (api.sftp.rmdir_ex channel path)
    if is_negative rc then last_sftp_error_code api session channel slot.e_msg else pure slot

  unfoldable pub rmdir_ex : Ptr → Ptr → Text → M S (Unit {0})
  unfolding fetch_rmdir_ex
  rmdir_ex session channel path = do
    slot ← fetch_rmdir_ex session channel path fresh_slot
    throw_if_error slot libssh2_sftp_rmdir_ex (some path)

  unfoldable pub fetch_rename : Ptr → Ptr → Text → Text → RenameFlags → ErrorSlot → M S ErrorSlot
  fetch_rename session channel source destination flags slot = do
    rc ← call libssh2_sftp_rename_ex (api.sftp.rename_ex channel source destination flags)
    if not (is_zero rc) then last_sftp_error_code api session channel slot.e_msg else pure slot

  unfoldable pub rename : Ptr → Ptr → Text → Text → RenameFlags → M S (Unit {0})
  unfolding fetch_rename
  rename session channel source destination flags = do
    slot ← fetch_rename session channel source destination flags fresh_slot
    throw_if_error slot libssh2_sftp_rename_ex (some source)

  unfoldable pub fetch_read : Ptr → Ptr → Ptr → ℕ → ErrorSlot → M S ((ℤ × Text) × ErrorSlot)
  fetch_read session channel handle buffer_len slot = do
    (count, stored) ← call libssh2_sftp_read (api.sftp.read handle buffer_len)
    if is_negative count
        then (do
          failed ← last_sftp_error_code api session channel slot.e_msg
          pure ((count, stored), failed))
        else pure ((count, stored), slot)

  unfoldable pub read : Ptr → Ptr → Ptr → ℕ → M S (ℤ × Text)
  unfolding fetch_read
  read session channel handle buffer_len = do
    (result, slot) ← fetch_read session channel handle buffer_len fresh_slot
    throw_if_error slot libssh2_sftp_read none
    pure result

  unfoldable pub fetch_write : Ptr → Ptr → Ptr → Text → ErrorSlot → M S (ℤ × ErrorSlot)
  fetch_write session channel handle bytes slot = do
    count ← call libssh2_sftp_write (api.sftp.write handle bytes)
    if is_negative count
        then (do failed ← last_sftp_error_code api session channel slot.e_msg; pure (count, failed))
        else pure (count, slot)

  unfoldable pub write : Ptr → Ptr → Ptr → Text → M S (ℤ)
  unfolding fetch_write
  write session channel handle bytes = do
    (count, slot) ← fetch_write session channel handle bytes fresh_slot
    throw_if_error slot libssh2_sftp_write none
    pure count

  unfoldable pub fetch_readdir_ex :
      Ptr → Ptr → Ptr → ℕ → ℕ → ErrorSlot → M S ((ℤ × Text × Text × Attributes) × ErrorSlot)
  fetch_readdir_ex session channel handle buffer_len longentry_len slot = do
    (rc, name, longentry, attrs) ←
        call libssh2_sftp_readdir_ex (api.sftp.readdir_ex handle buffer_len longentry_len)
    if is_negative rc
        then (do
          failed ← last_sftp_error_code api session channel slot.e_msg
          pure ((rc, name, longentry, attrs), failed))
        else pure ((rc, name, longentry, attrs), slot)

  unfoldable pub readdir_ex : Ptr → Ptr → Ptr → ℕ → ℕ → M S (ℤ × Text × Text × Attributes)
  unfolding fetch_readdir_ex
  readdir_ex session channel handle buffer_len longentry_len = do
    (result, slot) ← fetch_readdir_ex session channel handle buffer_len longentry_len fresh_slot
    throw_if_error slot libssh2_sftp_readdir_ex none
    pure result

  -- the two `switch` cases that allow a positive return code
  resolves : ℤ → Bool
  resolves action = eqb_ℤ action api.actions.readlink || eqb_ℤ action api.actions.realpath

  unfoldable pub fetch_symlink_ex :
      Ptr → Ptr → Text → Text → ℤ → ErrorSlot → M S ((ℤ × Text) × ErrorSlot)
  unfolding resolves
  fetch_symlink_ex session channel path target resolve_action slot = do
    (rc, filled) ←
        call libssh2_sftp_symlink_ex (api.sftp.symlink_ex channel path target resolve_action)
    if resolves resolve_action
        then (if is_negative rc
            then (do
              failed ← last_sftp_error_code api session channel slot.e_msg
              pure ((rc, filled), failed))
            else pure ((rc, filled), slot))
        else (if not (is_zero rc)
            then (do
              assert (is_negative rc)
              failed ← last_sftp_error_code api session channel slot.e_msg
              pure ((rc, filled), failed))
            else pure ((rc, filled), slot))

  unfoldable pub symlink_ex : Ptr → Ptr → Text → Text → ℤ → M S (ℤ × Text)
  unfolding fetch_symlink_ex
  symlink_ex session channel path target resolve_action = do
    (result, slot) ← fetch_symlink_ex session channel path target resolve_action fresh_slot
    throw_if_error slot libssh2_sftp_symlink_ex (some path)
    pure result

  unfoldable pub fetch_symlink : Ptr → Ptr → Text → Text → ErrorSlot → M S ErrorSlot
  unfolding fetch_symlink_ex
  fetch_symlink session channel path target slot = do
    (_, failed) ← fetch_symlink_ex session channel path target api.actions.symlink slot
    pure failed

  unfoldable pub symlink : Ptr → Ptr → Text → Text → M S (Unit {0})
  unfolding symlink_ex
  symlink session channel path target = do
    symlink_ex session channel path target api.actions.symlink
    pure tt
