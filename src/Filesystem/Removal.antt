-- ===== src/Filesystem/Removal.antt =====
-- `remove_all` and `remove_directory` of `sftp_filesystem` in ssh/filesystem.hpp, on fuel: for the nesting
-- of directories, and in each for its entries. `join` and `filename` are those of `boost::filesystem`.
pub mod Locked
pub mod Tree
pub mod Cleared
pub mod Steps
pub mod Loop
pub mod Round
pub mod Entries
pub mod Complete
use ssh2_cpp.Base.{
  ◌&&◌, ℕ, zero, suc, ◌+◌, ◌%◌, ◌^◌, ◌==◌, Bool, true, false, ◌||◌, Option, none, some, [], ◌∷◌,
  Text, if◌then◌else◌,
}
use ssh2_cpp.Libssh2.{Libssh2}
use ssh2_cpp.Effect.{M, Exception, fault, out_of_fuel, pure, throw, catch, ◌>>=◌, ◌>>◌}
use ssh2_cpp.State.{SftpChannelState, FileHandleState, close_handle}
use ssh2_cpp.Filesystem.{
  PathStatus, non_existent, non_directory, is_directory, status_of_type, check_status, do_remove,
}
use ssh2_cpp.Filesystem.Attribute.{type}
use ssh2_cpp.Filesystem.Iterator.{
  SftpFile, DirectoryIterator, directory_iterator, increment, dereference,
}

-- `file.name() == "." || file.name() == ".."`
unfoldable pub is_dots : Text → Bool
is_dots name = elim name [
  | [] ↦ false
  | c ∷ cs ↦ elim cs [
    | [] ↦ c == b'.'
    | d ∷ ds ↦ elim ds [ [] ↦ (c == b'.') && (d == b'.') | e ∷ es ↦ false ]
  ]
]

-- `++count` for a `boost::uintmax_t` if a file was removed
unfoldable pub count_removed : ℕ → Bool → ℕ
count_removed count true = (count + 1) % 2 ^ 64
count_removed count false = count

module _ {S : Type 0} (api : Libssh2 S) where
  -- the destruction of an iterator that may hold a directory open
  unfoldable pub destroy_handle : Option FileHandleState → M S (Unit {0})
  destroy_handle none = pure tt
  destroy_handle (some handle) = close_handle api handle

  -- code that destroys the iterator if an exception leaves it
  unfoldable pub holding : {A : Type 0} → DirectoryIterator → M S A → M S A
  unfolding destroy_handle
  holding it m = catch m λ e. do destroy_handle it.handle; throw e

module _ {S : Type 0} (api : Libssh2 S) (join : Text → Text → Text) (filename : Text → Text)
    (fs : SftpChannelState) where
  -- an entry that is neither `.` nor `..`
  unfoldable pub remove_typed : (Text → M S ℕ) → ℕ → SftpFile → PathStatus → M S ℕ
  unfolding count_removed
  remove_typed remove_below count file is_directory = do
    removed ← remove_below file.path
    pure ((count + removed) % 2 ^ 64)
  remove_typed remove_below count file _ = do
    removed ← do_remove api fs file.path false
    pure (count_removed count removed)

  -- the body of the loop
  unfoldable pub remove_entry : (Text → M S ℕ) → DirectoryIterator → ℕ → M S ℕ
  unfolding is_dots remove_typed
  remove_entry remove_below directory count = do
    file ← dereference api join directory
    if is_dots (filename file.path)
        then pure count
        else remove_typed remove_below count file
            (status_of_type (type api (record { raw = file.attributes })))

  -- the loop, with `directory != directory_iterator()` for its test
  unfoldable pub remove_entries :
      (Text → M S ℕ) → ℕ → DirectoryIterator → Option FileHandleState → ℕ → M S ℕ
  unfolding remove_entry holding
  remove_entries remove_below fuel directory none count = pure count
  remove_entries remove_below zero directory (some handle) count = fault out_of_fuel
  remove_entries remove_below (suc fuel) directory (some handle) count = do
    count' ← holding api directory (remove_entry remove_below directory count)
    directory' ← holding api directory (increment api directory)
    remove_entries remove_below fuel directory' directory'.handle count'

  unfoldable pub remove_directory : ℕ → Text → M S ℕ
  unfolding remove_entries count_removed
  remove_directory zero root = fault out_of_fuel
  remove_directory (suc fuel) root = do
    directory ← directory_iterator api fs root
    count ← remove_entries (remove_directory fuel) fuel directory directory.handle 0
    removed ← do_remove api fs root true
    pure (count_removed count removed)

  -- by the status of the path; a Boolean is the number 0 or 1
  unfoldable pub remove_all_by_status : ℕ → Text → PathStatus → M S ℕ
  unfolding count_removed
  remove_all_by_status fuel target non_existent = pure 0
  remove_all_by_status fuel target is_directory = remove_directory fuel target
  remove_all_by_status fuel target non_directory = do
    removed ← do_remove api fs target false
    pure (count_removed 0 removed)

  unfoldable pub remove_all : ℕ → Text → M S ℕ
  unfolding remove_all_by_status
  remove_all fuel target = do
    status ← check_status api fs target
    remove_all_by_status fuel target status
