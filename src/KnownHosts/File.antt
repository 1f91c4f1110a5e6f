-- ===== src/KnownHosts/File.antt =====
-- The loading and saving of known hosts in ssh/knownhost.hpp. A local file is its bytes: those that
-- opening it for reading gives, if it opens, and those that are written to it.
pub mod Lines
pub mod Saving
pub mod Loading
use ssh2_cpp.Base.{
  ℕ, zero, suc, ℤ, Bool, true, false, ◌==◌, Option, none, some, List, [], ◌∷◌, ◌++◌, Text,
  if◌then◌else◌,
}
use ssh2_cpp.Libssh2.{Libssh2, libssh2_knownhost_free}
use ssh2_cpp.Effect.{
  M, out_of_fuel, fault, plain, runtime_error, pure, throw, catch, call, with_lock, ◌>>=◌, ◌>>◌,
}
use ssh2_cpp.State.{destroy_session}
use ssh2_cpp.Wrapper.Knownhost
use ssh2_cpp.KnownHosts.Entry.{Hosts, to_string}
use ssh2_cpp.KnownHosts.Iterator.{KnownHostIterator, begin, end, equal, increment, dereference}
use ssh2_cpp.KnownHosts.Collection.{knownhost_collection}

abbrev pub newline : ℕ
newline = b'\n'

-- The lines that `std::getline` reads until it fails: what stands before each newline, and what stands
-- behind the last one if it is not empty.
unfoldable pub lines_behind : Text → Text → List Text
lines_behind [] [] = []
lines_behind (x ∷ xs) [] = (x ∷ xs) ∷ []
lines_behind line (c ∷ cs) =
    let ended = lines_behind [] cs in
    let longer = lines_behind (line ++ c ∷ []) cs in if c == newline then line ∷ ended else longer

unfoldable pub getlines : Text → List Text
unfolding lines_behind
getlines text = lines_behind [] text

-- `std::ostream_iterator<std::string>(file, "\n")` on each line
unfoldable pub put_lines : List Text → Text
put_lines [] = []
put_lines (l ∷ ls) = l ++ newline ∷ put_lines ls

module _ {S : Type 0} (api : Libssh2 S) where
  -- `read_entry`
  unfoldable pub read_entry : Hosts → ℤ → Text → M S (Unit {0})
  read_entry owner type entry =
      with_lock (Knownhost.readline api owner.session.session_ptr owner.hosts entry type)

  unfoldable pub load_entries : Hosts → ℤ → List Text → M S (Unit {0})
  load_entries owner type [] = pure tt
  load_entries owner type (entry ∷ entries) = do
    read_entry owner type entry
    load_entries owner type entries

  -- `std::transform` with `write_entry`, on fuel
  unfoldable pub save_entries :
      ℕ → ℤ → KnownHostIterator → KnownHostIterator → List Text → M S (List Text)
  save_entries zero type it last output = fault out_of_fuel
  save_entries (suc fuel) type it last output = if equal it last then pure output else (do
    host ← dereference api it
    line ← to_string api host type
    next ← increment api it
    save_entries fuel type next last (output ++ line ∷ []))

  -- the destruction of the last owner of a collection: `m_hosts`, then `m_session`
  unfoldable pub destroy_collection : Hosts → M S (Unit {0})
  destroy_collection owner = do
    call libssh2_knownhost_free (api.knownhost.free owner.hosts)
    destroy_session api owner.session

  -- `openssh_knownhost_collection(begin, end)`; if an entry is refused the base is destroyed again
  unfoldable pub openssh_knownhost_collection : List Text → M S Hosts
  unfolding destroy_collection
  openssh_knownhost_collection entries = do
    owner ← knownhost_collection api
    catch (do load_entries owner api.masks.file_openssh entries; pure owner)
        λ e. do destroy_collection owner; throw e

  -- `openssh_knownhost_collection(filename)`
  unfoldable pub collection_of_file : Text → Option Text → M S Hosts
  unfolding destroy_collection
  collection_of_file filename none = do
    owner ← knownhost_collection api
    destroy_collection owner
    throw (record (plain (runtime_error "Could not read from known-hosts file")) {
      file_name = some filename;
    })
  collection_of_file filename (some text) = openssh_knownhost_collection (getlines text)

  -- `openssh_knownhost_collection(filename)` for a wide path, which the exception does not name
  unfoldable pub collection_of_wide_file : Option Text → M S Hosts
  unfolding destroy_collection
  collection_of_wide_file none = do
    owner ← knownhost_collection api
    destroy_collection owner
    throw (plain (runtime_error "Could not read from known-hosts file"))
  collection_of_wide_file (some text) = openssh_knownhost_collection (getlines text)

  -- `save(begin, end, output)` of the OpenSSH collection
  unfoldable pub save : ℕ → KnownHostIterator → KnownHostIterator → M S (List Text)
  save fuel it last = save_entries fuel api.masks.file_openssh it last []

  -- `save(filename)`, with what is written to the file if it opens
  unfoldable pub save_to_file : ℕ → Hosts → Text → Bool → M S Text
  save_to_file fuel owner filename false =
      throw (record (plain (runtime_error "Could not write to known-hosts file")) {
        file_name = some filename;
      })
  save_to_file fuel owner filename true = do
    first ← begin api owner
    lines ← save fuel first end
    pure (put_lines lines)

  -- `save(filename)` for a wide path
  unfoldable pub save_to_wide_file : ℕ → Hosts → Bool → M S Text
  save_to_wide_file fuel owner false =
      throw (plain (runtime_error "Could not write to known-hosts file"))
  save_to_wide_file fuel owner true = do
    first ← begin api owner
    lines ← save fuel first end
    pure (put_lines lines)
