-- ===== src/Filesystem.antt =====
-- `sftp_filesystem` of ssh/filesystem.hpp, with the file attributes, the status of a path and the
-- operations on paths. A filesystem is the channel's state; a path is its text.
pub mod Attribute
pub mod Status
pub mod Locked
pub mod Directory
pub mod Iterator
pub mod Removal
pub mod Links
use Prim.Native.Nat.{bit_or}
use ssh2_cpp.Base.{
  length, ltb, ◌||◌, pos_part, take, replicate, is_negative, ℕ, ℤ, Text, Bool, true, false,
  if◌then◌else◌,
}
use ssh2_cpp.Libssh2.{Libssh2, RenameFlags, StatType, follow_link, link_itself, no_attributes}
use ssh2_cpp.Effect.{
  undefined_behaviour, fault, M, pure, throw, with_lock, catch, plain, invalid_argument, Exception,
  ExceptionKind, system_error, ◌>>=◌, ◌>>◌,
}
use ssh2_cpp.Error.Condition.{equals_errc, no_such_file_or_directory}
use ssh2_cpp.State.{SftpChannelState}
use ssh2_cpp.Wrapper.Sftp
use Attribute.{FileAttributes, FileType, directory, type}

-- `path_status`
pub data PathStatus : Type 0 where
  non_existent non_directory is_directory : PathStatus

-- `if (attrs.type() == file_attributes::directory)`
unfoldable pub status_of_type : FileType → PathStatus
status_of_type directory = is_directory
status_of_type _ = non_directory

-- `overwrite_behaviour`; `unrecognised` is any other value of the enumeration
pub data OverwriteBehaviour : Type 0 where
  prevent_overwrite allow_overwrite atomic_overwrite unrecognised : OverwriteBehaviour

-- `catch (const boost::system::system_error& e)`: the handler is not given other exceptions.
module _ {S A : Type 0} where
  unfoldable pub if_system_error : (Exception → M S A) → Exception → ExceptionKind → M S A
  if_system_error handler e (system_error ec message) = handler e
  if_system_error handler e _ = throw e

  unfoldable pub catch_system_error : M S A → (Exception → M S A) → M S A
  unfolding if_system_error
  catch_system_error m handler = catch m λ e. if_system_error handler e e.kind

module _ {S : Type 0} (api : Libssh2 S) where
  -- `e.code() == boost::system::errc::no_such_file_or_directory`
  unfoldable pub is_missing : Exception → Bool
  is_missing e = elim e.kind [
    | system_error ec message ↦ equals_errc api.codes ec no_such_file_or_directory
    | _ ↦ false
  ]

module _ {S : Type 0} (api : Libssh2 S) (fs : SftpChannelState) where
  unfoldable pub attributes : Text → Bool → M S FileAttributes
  attributes file follow_links = with_lock (do
    attrs ←
        Sftp.stat api fs.session.session_ptr fs.sftp_ptr file
          (if follow_links then follow_link else link_itself) no_attributes
    pure (record { raw = attrs }))

  unfoldable pub check_status : Text → M S PathStatus
  unfolding catch_system_error is_missing
  check_status path =
      catch_system_error (do attrs ← attributes path false; pure (status_of_type (type api attrs)))
        λ e. if is_missing api e then pure non_existent else throw e

  unfoldable pub exists : Text → M S Bool
  unfolding catch_system_error is_missing
  exists file =
      catch_system_error (do attributes file false; pure true)
        λ e. if is_missing api e then pure false else throw e

  unfoldable pub symlink_resolve : Text → ℤ → Text → M S Text
  symlink_resolve path resolve_action buffer = with_lock (do
    (len, target) ←
        Sftp.symlink_ex api fs.session.session_ptr fs.sftp_ptr path buffer resolve_action
    if is_negative len || ltb (length buffer) (pos_part len)
        then fault undefined_behaviour
        else pure (take (pos_part len) target))

  -- `std::vector<char> target_path_buffer(1024, 0)`
  unfoldable pub path_buffer : Text
  path_buffer = replicate 1024 0

  unfoldable pub resolve_link_target : Text → M S Text
  unfolding symlink_resolve path_buffer
  resolve_link_target link = symlink_resolve link api.actions.readlink path_buffer

  unfoldable pub canonical_path : Text → M S Text
  unfolding symlink_resolve path_buffer
  canonical_path link = symlink_resolve link api.actions.realpath path_buffer

  unfoldable pub create_symlink : Text → Text → M S (Unit {0})
  create_symlink link target =
      with_lock (Sftp.symlink api fs.session.session_ptr fs.sftp_ptr link target)

  unfoldable pub rename_flags : OverwriteBehaviour → M S RenameFlags
  rename_flags prevent_overwrite = pure (record { rename_overwrite = false; rename_atomic = false })
  rename_flags allow_overwrite = pure (record { rename_overwrite = true; rename_atomic = false })
  rename_flags atomic_overwrite = pure (record { rename_overwrite = true; rename_atomic = true })
  rename_flags unrecognised = throw (plain (invalid_argument "Unrecognised overwrite behaviour"))

  unfoldable pub rename : Text → Text → OverwriteBehaviour → M S (Unit {0})
  unfolding rename_flags
  rename source destination overwrite_hint = do
    flags ← rename_flags overwrite_hint
    with_lock (Sftp.rename api fs.session.session_ptr fs.sftp_ptr source destination flags)

  unfoldable pub do_remove : Text → Bool → M S Bool
  unfolding catch_system_error is_missing
  do_remove target target_is_directory =
      catch_system_error
        (do
          with_lock (
              if target_is_directory
              then Sftp.rmdir_ex api fs.session.session_ptr fs.sftp_ptr target
              else Sftp.unlink_ex api fs.session.session_ptr fs.sftp_ptr target)
          pure true)
        λ e. if is_missing api e then pure false else throw e

  unfoldable pub remove_by_status : Text → PathStatus → M S Bool
  remove_by_status target non_existent = pure false
  remove_by_status target is_directory = do_remove target true
  remove_by_status target non_directory = do_remove target false

  unfoldable pub remove : Text → M S Bool
  unfolding remove_by_status
  remove target = do status ← check_status target; remove_by_status target status

  -- 0755
  unfoldable pub directory_mode : ℕ
  directory_mode =
      bit_or
        (bit_or (bit_or (bit_or api.modes.irwxu api.modes.irgrp) api.modes.ixgrp) api.modes.iroth)
        api.modes.ixoth

  unfoldable pub existing_directory : Exception → PathStatus → M S Bool
  existing_directory e is_directory = pure false
  existing_directory e non_directory = throw e
  existing_directory e non_existent = throw e

  unfoldable pub create_directory : Text → M S Bool
  unfolding catch_system_error existing_directory directory_mode
  create_directory new_directory =
      catch_system_error
        (with_lock (do
          Sftp.mkdir_ex api fs.session.session_ptr fs.sftp_ptr new_directory directory_mode
          pure true))
        λ e. do status ← check_status new_directory; existing_directory e status
