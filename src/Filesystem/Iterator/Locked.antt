-- ===== src/Filesystem/Iterator/Locked.antt =====
-- Directory iteration and the locking discipline of ssh/detail/libssh2/libssh2.hpp.
use ssh2_cpp.Base.{ℤ, false, Option, none, some, Text}
use ssh2_cpp.Libssh2.{Libssh2, Attributes}
use ssh2_cpp.Effect.Locking.{Keeps, locking_rules}
use ssh2_cpp.State.{SftpChannelState, FileHandleState}
use ssh2_cpp.State.Lifetime.{state_rules}
use ssh2_cpp.Wrapper.Locked.SftpCalls.{sftp_rules}
use ssh2_cpp.Filesystem.Iterator.{
  DirectoryIterator, open_directory, after_readdir, next_file, directory_iterator, advance,
  increment, file_at, dereference,
}

module _ {S : Type 0} (api : Libssh2 S) where
  after_readdir-Keeps :
      (it : DirectoryIterator) (h : FileHandleState) (rc : ℤ) (filename longentry : Text)
      (a : Attributes)
      → Keeps false (after_readdir api it h rc filename longentry a)
  unfolding after_readdir
  after_readdir-Keeps it h rc filename longentry a = search (locking_rules, state_rules)

  next_file-Keeps :
      (it : DirectoryIterator) (h : FileHandleState) → Keeps false (next_file api it h)
  unfolding next_file
  next_file-Keeps it h = search (sftp_rules, after_readdir-Keeps) depth 8

  directory_iterator-Keeps :
      (c : SftpChannelState) (path : Text) → Keeps false (directory_iterator api c path)
  unfolding directory_iterator open_directory
  directory_iterator-Keeps c path = search (locking_rules, state_rules, next_file-Keeps) depth 8

  advance-Keeps :
      (it : DirectoryIterator) (h : Option FileHandleState) → Keeps false (advance api it h)
  unfolding advance
  advance-Keeps it none = search locking_rules
  advance-Keeps it (some h) = next_file-Keeps it h

  file_at-Keeps :
      (join : Text → Text → Text) (it : DirectoryIterator) (h : Option FileHandleState)
      → Keeps false (file_at api join it h)
  unfolding file_at
  file_at-Keeps join it none = search locking_rules
  file_at-Keeps join it (some h) = search locking_rules

  pub dereference-Keeps :
      (join : Text → Text → Text) (it : DirectoryIterator) → Keeps false (dereference api join it)
  unfolding dereference
  dereference-Keeps join it = file_at-Keeps join it it.handle

  increment-Keeps : (it : DirectoryIterator) → Keeps false (increment api it)
  unfolding increment
  increment-Keeps it = advance-Keeps it it.handle

-- Opening a directory and going on to its next entry, begun with the mutex free.
pub record IteratorsKeepLock {S : Type 0} (api : Libssh2 S) : Type 0 where
  pub directory_iterator_keeps :
      (c : SftpChannelState) (path : Text) → Keeps false (directory_iterator api c path)
  pub increment_keeps : (it : DirectoryIterator) → Keeps false (increment api it)

-- Opening a directory and incrementing an iterator, begun with the session's mutex free, make all their
-- calls into libssh2 with the mutex held, never wait for a mutex that they hold, even where they close
-- the handle at the end of the directory, and end with the mutex free, whether they return or throw.
pub iterators-IteratorsKeepLock : {S : Type 0} (api : Libssh2 S) → IteratorsKeepLock api
iterators-IteratorsKeepLock api = record {
  directory_iterator_keeps = directory_iterator-Keeps api;
  increment_keeps = increment-Keeps api;
}
