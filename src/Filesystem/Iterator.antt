-- ===== src/Filesystem/Iterator.antt =====
-- `directory_iterator` and `sftp_file` of ssh/filesystem.hpp. An iterator that shares its handle with no
-- other; the joining of two paths by `boost::filesystem` is the parameter `join`.
pub mod Locked
use ssh2_cpp.Base.{
  Bool, true, false, ℕ, ℤ, min, ltb_ℤ, pos, pos_part, is_zero, is_negative, Option, none, some,
  List, [], ◌∷◌, take, Text, ◌==◌, if◌then◌else◌,
}
use ssh2_cpp.Libssh2.{Libssh2, Attributes, no_attributes, no_open_flags, opendir}
use ssh2_cpp.Effect.{
  M, plain, range_error, logic_error, pure, throw, with_lock, catch, assert, ◌>>=◌, ◌>>◌,
}
use ssh2_cpp.State.{SftpChannelState, FileHandleState, open_handle, close_handle}
use ssh2_cpp.Wrapper.Null.{same_pointer}
use ssh2_cpp.Wrapper.Sftp

pub record SftpFile : Type 0 where
  pub path : Text
  pub long_entry : Text
  pub attributes : Attributes

-- `handle` is missing at the end of the directory.
pub record DirectoryIterator : Type 0 where
  pub directory : Text
  pub handle : Option FileHandleState
  pub file_name : Text
  pub long_entry : Text
  pub attributes : Attributes

-- `directory_iterator()`
abbrev pub end : DirectoryIterator
end = record {
  directory = [];
  handle = none;
  file_name = [];
  long_entry = [];
  attributes = no_attributes;
}

-- A handle's state is told from another by its handle, of which no two states have the same.
same_handle : Option FileHandleState → Option FileHandleState → Bool
same_handle none none = true
same_handle (some a) (some b) = same_pointer a.file_handle b.file_handle
same_handle _ _ = false

-- `equal`, which compares the shared handles only
unfoldable pub equal : DirectoryIterator → DirectoryIterator → Bool
unfolding same_handle
equal a b = same_handle a.handle b.handle

-- a string that ends before the first null byte
unfoldable pub c_string : Text → Text
c_string [] = []
c_string (c ∷ cs) = if c == 0 then [] else c ∷ c_string cs

-- `std::min(static_cast<size_t>(rc), 1024)`, where a negative `rc` becomes a large number
unfoldable pub name_length : ℤ → ℕ
name_length rc = if is_negative rc then 1024 else min (pos_part rc) 1024

module _ {S : Type 0} (api : Libssh2 S) where
  unfoldable pub open_directory : SftpChannelState → Text → M S FileHandleState
  open_directory channel path = open_handle api channel path no_open_flags 0 opendir

  -- what follows the call, its lock having been released
  unfoldable pub after_readdir :
      DirectoryIterator → FileHandleState → ℤ → Text → Text → Attributes → M S DirectoryIterator
  unfolding c_string name_length
  after_readdir it handle rc filename longentry attrs =
      if is_zero rc then (do close_handle api handle; pure (record it { handle = none })) else (do
        assert (ltb_ℤ (pos 0) rc)
        pure (record it {
          attributes = attrs;
          file_name = take (name_length rc) filename;
          long_entry = c_string (take 1023 longentry);
        }))

  unfoldable pub next_file : DirectoryIterator → FileHandleState → M S DirectoryIterator
  unfolding after_readdir
  next_file it handle = do
    (rc, filename, longentry, attrs) ← with_lock (
        Sftp.readdir_ex api handle.sftp.session.session_ptr handle.sftp.sftp_ptr handle.file_handle
          1024 1024)
    after_readdir it handle rc filename longentry attrs

  -- the constructor, which destroys the handle if it throws
  unfoldable pub directory_iterator : SftpChannelState → Text → M S DirectoryIterator
  unfolding next_file open_directory
  directory_iterator channel path = do
    handle ← open_directory channel path
    catch
        (next_file
          (record {
            directory = path;
            handle = some handle;
            file_name = [];
            long_entry = [];
            attributes = no_attributes;
          })
          handle)
        λ e. do close_handle api handle; throw e

  unfoldable pub advance : DirectoryIterator → Option FileHandleState → M S DirectoryIterator
  unfolding next_file
  advance it none = throw (plain (range_error "No more files"))
  advance it (some handle) = next_file it handle

  unfoldable pub increment : DirectoryIterator → M S DirectoryIterator
  unfolding advance
  increment it = advance it it.handle

  unfoldable pub file_at :
      (Text → Text → Text) → DirectoryIterator → Option FileHandleState → M S SftpFile
  file_at join it none = throw (plain (logic_error "Can't dereference the end of a collection"))
  file_at join it (some handle) = pure (record {
    path = join it.directory it.file_name;
    long_entry = it.long_entry;
    attributes = it.attributes;
  })

  unfoldable pub dereference : (Text → Text → Text) → DirectoryIterator → M S SftpFile
  unfolding file_at
  dereference join it = file_at join it it.handle
