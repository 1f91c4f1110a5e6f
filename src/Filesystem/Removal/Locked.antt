-- ===== src/Filesystem/Removal/Locked.antt =====
-- Recursive removal and the locking discipline of ssh/detail/libssh2/libssh2.hpp.
use ssh2_cpp.Base.{ℕ, zero, suc, false, Option, none, some, Text}
use ssh2_cpp.Libssh2.{Libssh2}
use ssh2_cpp.Effect.{M}
use ssh2_cpp.Effect.Locking.{Keeps, Keeps-bind, locking_rules}
use ssh2_cpp.State.{SftpChannelState, FileHandleState}
use ssh2_cpp.State.Lifetime.{state_rules}
use ssh2_cpp.Filesystem.{PathStatus, non_existent, non_directory, is_directory}
use ssh2_cpp.Filesystem.Locked.{paths-PathsKeepLock, do_remove-Keeps}
use ssh2_cpp.Filesystem.Iterator.{SftpFile, DirectoryIterator}
use ssh2_cpp.Filesystem.Iterator.Locked.{iterators-IteratorsKeepLock, dereference-Keeps}
use ssh2_cpp.Filesystem.Removal.{
  destroy_handle, holding, remove_typed, remove_entry, remove_entries, remove_directory,
  remove_all_by_status, remove_all,
}

module _ {S : Type 0} (api : Libssh2 S) where
  destroy_handle-Keeps : (h : Option FileHandleState) → Keeps false (destroy_handle api h)
  unfolding destroy_handle
  destroy_handle-Keeps none = search locking_rules
  destroy_handle-Keeps (some h) = search (locking_rules, state_rules)

  holding-Keeps :
      {A : Type 0} (it : DirectoryIterator) (m : M S A)
      → Keeps false m
      → Keeps false (holding api it m)
  unfolding holding
  holding-Keeps it m k = search (locking_rules, destroy_handle-Keeps)

module _ {S : Type 0} (api : Libssh2 S) (join : Text → Text → Text) (filename : Text → Text)
    (fs : SftpChannelState) where
  -- The loops keep the discipline if what removes the directories below does.
  abbrev KeepsBelow : (Text → M S ℕ) → Type 0
  KeepsBelow remove_below = (path : Text) → Keeps false (remove_below path)

  remove_typed-Keeps :
      (remove_below : Text → M S ℕ) (count : ℕ) (file : SftpFile) (status : PathStatus)
      → KeepsBelow remove_below
      → Keeps false (remove_typed api join filename fs remove_below count file status)
  unfolding remove_typed
  remove_typed-Keeps remove_below count file is_directory k = search (locking_rules, k)
  remove_typed-Keeps remove_below count file non_directory k =
      search (locking_rules, do_remove-Keeps api)
  remove_typed-Keeps remove_below count file non_existent k =
      search (locking_rules, do_remove-Keeps api)

  remove_entry-Keeps :
      (remove_below : Text → M S ℕ) (it : DirectoryIterator) (count : ℕ)
      → KeepsBelow remove_below
      → Keeps false (remove_entry api join filename fs remove_below it count)
  unfolding remove_entry
  remove_entry-Keeps remove_below it count k = search (
    locking_rules,
    dereference-Keeps api,
    λ (n : ℕ) (f : SftpFile) (s : PathStatus). remove_typed-Keeps remove_below n f s k,
  )

  remove_entries-Keeps :
      (remove_below : Text → M S ℕ) (fuel : ℕ) (it : DirectoryIterator)
      (handle : Option FileHandleState) (count : ℕ)
      → KeepsBelow remove_below
      → Keeps false (remove_entries api join filename fs remove_below fuel it handle count)
  unfolding remove_entries
  remove_entries-Keeps remove_below fuel it none count k = search locking_rules
  remove_entries-Keeps remove_below zero it (some h) count k = search locking_rules
  remove_entries-Keeps remove_below (suc fuel) it (some h) count k =
      Keeps-bind _ _ (holding-Keeps api it _ (remove_entry-Keeps remove_below it count k)) λ count'.
        Keeps-bind _ _
          (holding-Keeps api it _ ((iterators-IteratorsKeepLock api).increment_keeps it))
          λ it'. remove_entries-Keeps remove_below fuel it' it'.handle count' k

  remove_directory-Keeps :
      (fuel : ℕ) (root : Text) → Keeps false (remove_directory api join filename fs fuel root)
  unfolding remove_directory
  remove_directory-Keeps zero root = search locking_rules
  remove_directory-Keeps (suc fuel) root =
      Keeps-bind _ _ ((iterators-IteratorsKeepLock api).directory_iterator_keeps fs root) λ it.
        Keeps-bind _ _
          (remove_entries-Keeps (remove_directory api join filename fs fuel) fuel it it.handle 0
            (remove_directory-Keeps fuel))
          λ count. search (locking_rules, do_remove-Keeps api)

  remove_by_status-Keeps :
      (fuel : ℕ) (target : Text) (status : PathStatus)
      → Keeps false (remove_all_by_status api join filename fs fuel target status)
  unfolding remove_all_by_status
  remove_by_status-Keeps fuel target non_existent = search locking_rules
  remove_by_status-Keeps fuel target is_directory = remove_directory-Keeps fuel target
  remove_by_status-Keeps fuel target non_directory = search (locking_rules, do_remove-Keeps api)

  -- Recursive removal, begun with the session's mutex free, makes all its calls into libssh2 with the
  -- mutex held, never waits for a mutex that it holds, even where an exception closes the directories
  -- that are open, and ends with the mutex free, whether it returns, throws or has no fuel left.
  pub remove_all-Keeps :
      (fuel : ℕ) (target : Text) → Keeps false (remove_all api join filename fs fuel target)
  unfolding remove_all
  remove_all-Keeps fuel target =
      Keeps-bind _ _ ((paths-PathsKeepLock api fs).check_status_keep target)
        λ status. remove_by_status-Keeps fuel target status
