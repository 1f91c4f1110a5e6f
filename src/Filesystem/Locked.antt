-- ===== src/Filesystem/Locked.antt =====
-- Operations on paths and the locking discipline of ssh/detail/libssh2/libssh2.hpp.
use ssh2_cpp.Base.{Text, ℤ, Bool, true, false}
use ssh2_cpp.Libssh2.{Libssh2}
use ssh2_cpp.Effect.{
  logic_error, invalid_argument, range_error, runtime_error, bad_alloc, user_exception, M,
  Exception, ExceptionKind, system_error,
}
use ssh2_cpp.Effect.Locking.{Keeps, Keeps-catch, Keeps-throw, locking_rules}
use ssh2_cpp.Wrapper.Locked.SftpCalls.{sftp_rules}
use ssh2_cpp.State.{SftpChannelState}
use ssh2_cpp.Filesystem.{
  rename, remove, if_system_error, remove, catch_system_error, attributes, check_status, exists,
  symlink_resolve, resolve_link_target, canonical_path, create_symlink, rename_flags,
  OverwriteBehaviour, prevent_overwrite, allow_overwrite, atomic_overwrite, unrecognised, do_remove,
  remove_by_status, PathStatus, non_existent, non_directory, is_directory, existing_directory,
  create_directory,
}

module _ {S A : Type 0} {b : Bool} where
  Keeps-if_system_error :
      (handler : Exception → M S A) (e : Exception) (k : ExceptionKind)
      → Keeps b (handler e)
      → Keeps b (if_system_error handler e k)
  unfolding if_system_error
  Keeps-if_system_error handler e (system_error ec message) kh = kh
  Keeps-if_system_error handler e (logic_error _) kh = Keeps-throw e
  Keeps-if_system_error handler e (invalid_argument _) kh = Keeps-throw e
  Keeps-if_system_error handler e (range_error _) kh = Keeps-throw e
  Keeps-if_system_error handler e (runtime_error _) kh = Keeps-throw e
  Keeps-if_system_error handler e (bad_alloc _) kh = Keeps-throw e
  Keeps-if_system_error handler e (user_exception _) kh = Keeps-throw e

  Keeps-catch_system_error :
      (m : M S A) (handler : Exception → M S A)
      → Keeps b m
      → ((e : Exception) → Keeps b (handler e))
      → Keeps b (catch_system_error m handler)
  unfolding catch_system_error
  Keeps-catch_system_error m handler km kh =
      Keeps-catch m _ km λ e. Keeps-if_system_error handler e e.kind (kh e)

ruleset path_rules = (sftp_rules, Keeps-catch_system_error)

module _ {S : Type 0} (api : Libssh2 S) (fs : SftpChannelState) where
  attributes-Keeps :
      (file : Text) (follow_links : Bool) → Keeps false (attributes api fs file follow_links)
  unfolding attributes
  attributes-Keeps file follow_links = search path_rules depth 8

  check_status-Keeps : (path : Text) → Keeps false (check_status api fs path)
  unfolding check_status
  check_status-Keeps path = search (path_rules, attributes-Keeps) depth 8

  exists-Keeps : (file : Text) → Keeps false (exists api fs file)
  unfolding exists
  exists-Keeps file = search (path_rules, attributes-Keeps) depth 8

  symlink_resolve-Keeps :
      (path : Text) (action : ℤ) (buffer : Text)
      → Keeps false (symlink_resolve api fs path action buffer)
  unfolding symlink_resolve
  symlink_resolve-Keeps path action buffer = search path_rules depth 8

  resolve_link_target-Keeps : (link : Text) → Keeps false (resolve_link_target api fs link)
  unfolding resolve_link_target
  resolve_link_target-Keeps link = symlink_resolve-Keeps link _ _

  canonical_path-Keeps : (link : Text) → Keeps false (canonical_path api fs link)
  unfolding canonical_path
  canonical_path-Keeps link = symlink_resolve-Keeps link _ _

  create_symlink-Keeps : (link target : Text) → Keeps false (create_symlink api fs link target)
  unfolding create_symlink
  create_symlink-Keeps link target = search path_rules depth 8

  rename_flags-Keeps : (h : OverwriteBehaviour) → Keeps false (rename_flags api fs h)
  unfolding rename_flags
  rename_flags-Keeps prevent_overwrite = search locking_rules
  rename_flags-Keeps allow_overwrite = search locking_rules
  rename_flags-Keeps atomic_overwrite = search locking_rules
  rename_flags-Keeps unrecognised = search locking_rules

  rename-Keeps :
      (source destination : Text) (h : OverwriteBehaviour)
      → Keeps false (rename api fs source destination h)
  unfolding rename
  rename-Keeps source destination h = search (path_rules, rename_flags-Keeps) depth 8

  pub do_remove-Keeps : (target : Text) (d : Bool) → Keeps false (do_remove api fs target d)
  unfolding do_remove
  do_remove-Keeps target d = search path_rules depth 9

  remove_by_status-Keeps :
      (target : Text) (s : PathStatus) → Keeps false (remove_by_status api fs target s)
  unfolding remove_by_status
  remove_by_status-Keeps target non_existent = search locking_rules
  remove_by_status-Keeps target non_directory = do_remove-Keeps target false
  remove_by_status-Keeps target is_directory = do_remove-Keeps target true

  remove-Keeps : (target : Text) → Keeps false (remove api fs target)
  unfolding remove
  remove-Keeps target = search (locking_rules, check_status-Keeps, remove_by_status-Keeps)

  existing_directory-Keeps :
      (e : Exception) (s : PathStatus) → Keeps false (existing_directory api fs e s)
  unfolding existing_directory
  existing_directory-Keeps e non_existent = search locking_rules
  existing_directory-Keeps e non_directory = search locking_rules
  existing_directory-Keeps e is_directory = search locking_rules

  create_directory-Keeps :
      (new_directory : Text) → Keeps false (create_directory api fs new_directory)
  unfolding create_directory
  create_directory-Keeps d =
      search (path_rules, check_status-Keeps, existing_directory-Keeps) depth 9

  -- Each operation on paths, begun with the mutex free.
  pub record PathsKeepLock : Type 0 where
    pub attributes_keep :
        (file : Text) (follow_links : Bool) → Keeps false (attributes api fs file follow_links)
    pub check_status_keep : (path : Text) → Keeps false (check_status api fs path)
    pub exists_keep : (file : Text) → Keeps false (exists api fs file)
    pub resolve_link_target_keep : (link : Text) → Keeps false (resolve_link_target api fs link)
    pub canonical_path_keep : (link : Text) → Keeps false (canonical_path api fs link)
    pub create_symlink_keep : (link target : Text) → Keeps false (create_symlink api fs link target)
    pub rename_keep :
        (source destination : Text) (h : OverwriteBehaviour)
        → Keeps false (rename api fs source destination h)
    pub remove_keep : (target : Text) → Keeps false (remove api fs target)
    pub create_directory_keep : (d : Text) → Keeps false (create_directory api fs d)

  -- Every operation on paths, begun with the session's mutex free, makes all its calls into libssh2 with
  -- the mutex held, never waits for a mutex that it holds, and ends with the mutex free, whether it
  -- returns or throws.
  pub paths-PathsKeepLock : PathsKeepLock
  paths-PathsKeepLock = record {
    attributes_keep = attributes-Keeps;
    check_status_keep = check_status-Keeps;
    exists_keep = exists-Keeps;
    resolve_link_target_keep = resolve_link_target-Keeps;
    canonical_path_keep = canonical_path-Keeps;
    create_symlink_keep = create_symlink-Keeps;
    rename_keep = rename-Keeps;
    remove_keep = remove-Keeps;
    create_directory_keep = create_directory-Keeps;
  }
