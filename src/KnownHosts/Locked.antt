-- ===== src/KnownHosts/Locked.antt =====
-- Known hosts and the locking discipline of ssh/detail/libssh2/libssh2.hpp.
use ssh2_cpp.Base.{ℕ, zero, suc, ℤ, Bool, false, Option, none, some, List, [], ◌∷◌, Text, Ptr}
use ssh2_cpp.Libssh2.{Libssh2}
use ssh2_cpp.Effect.Locking.{Keeps-bind, Keeps, locking_rules}
use ssh2_cpp.Wrapper.Knownhost
use ssh2_cpp.Wrapper.Locked.KnownhostCalls.{knownhost_rules}
use ssh2_cpp.HostKey.{HostKey, HostkeyType, unknown, rsa1, ssh_rsa, ssh_dss}
use ssh2_cpp.KnownHosts.Entry.{Hosts, KnownHost, to_string, string_of_buffer}
use ssh2_cpp.KnownHosts.Iterator.{
  KnownHostIterator, next_host, begin, advance, increment, host_at, dereference, delete_at, erase,
}
use ssh2_cpp.KnownHosts.Collection.{
  SearchResult, search_result, result_of_check, find, hostkey_type_to_add_type, add_entry,
  add_typed, add, add_hashed, add_custom, update, add_key,
}
use ssh2_cpp.KnownHosts.File.{load_entries, read_entry, save_entries}

module _ {S : Type 0} (api : Libssh2 S) where
  next_host-Keeps : (o : Hosts) (p : Ptr) → Keeps false (next_host api o p)
  unfolding next_host
  next_host-Keeps o p = search knownhost_rules depth 8

  begin-Keeps : (o : Hosts) → Keeps false (begin api o)
  unfolding begin
  begin-Keeps o = search (locking_rules, next_host-Keeps)

  advance-Keeps : (o : Option Hosts) (p : Ptr) → Keeps false (advance api o p)
  unfolding advance
  advance-Keeps o none = search locking_rules
  advance-Keeps none (some p) = search locking_rules
  advance-Keeps (some o) (some p) = search (locking_rules, next_host-Keeps)

  increment-Keeps : (it : KnownHostIterator) → Keeps false (increment api it)
  unfolding increment
  increment-Keeps it = advance-Keeps it.owner it.pos

  host_at-Keeps : (o : Option Hosts) (p : Ptr) → Keeps false (host_at api o p)
  unfolding host_at
  host_at-Keeps o none = search locking_rules
  host_at-Keeps none (some p) = search locking_rules
  host_at-Keeps (some o) (some p) = search locking_rules

  dereference-Keeps : (it : KnownHostIterator) → Keeps false (dereference api it)
  unfolding dereference
  dereference-Keeps it = host_at-Keeps it.owner it.pos

  delete_at-Keeps : (o : Option Hosts) (p : Ptr) → Keeps false (delete_at api o p)
  unfolding delete_at
  delete_at-Keeps none p = search locking_rules
  delete_at-Keeps (some o) p = search knownhost_rules

  erase-Keeps : (it : KnownHostIterator) → Keeps false (erase api it)
  unfolding erase
  erase-Keeps it = search (locking_rules, increment-Keeps, delete_at-Keeps)

  to_string-Keeps : (h : KnownHost) (type : ℤ) → Keeps false (to_string api h type)
  unfolding to_string string_of_buffer Knownhost.fetch_writeline
  to_string-Keeps h type = search knownhost_rules depth 12

  find-Keeps : (o : Hosts) (host k : Text) (b : Bool) → Keeps false (find api o host k b)
  unfolding find result_of_check search_result
  find-Keeps o host k b = search knownhost_rules depth 10

  add_entry-Keeps :
      (o : Hosts) (host salt k : Text) (type : ℕ) (b : Bool)
      → Keeps false (add_entry api o host salt k type b)
  unfolding add_entry
  add_entry-Keeps o host salt k type b = search knownhost_rules

  add_type-Keeps : (t : HostkeyType) → Keeps false (hostkey_type_to_add_type api t)
  unfolding hostkey_type_to_add_type
  add_type-Keeps unknown = search locking_rules
  add_type-Keeps rsa1 = search locking_rules
  add_type-Keeps ssh_rsa = search locking_rules
  add_type-Keeps ssh_dss = search locking_rules

  add_typed-Keeps :
      (n : ℕ) (o : Hosts) (host salt k : Text) (t : HostkeyType) (b : Bool)
      → Keeps false (add_typed api n o host salt k t b)
  unfolding add_typed
  add_typed-Keeps n o host salt k t b = search (locking_rules, add_type-Keeps, add_entry-Keeps)

  add-Keeps :
      (o : Hosts) (host k : Text) (t : HostkeyType) (b : Bool) → Keeps false (add api o host k t b)
  unfolding add
  add-Keeps o host k t b = add_typed-Keeps api.masks.type_plain o host [] k t b

  add_hashed-Keeps :
      (o : Hosts) (host salt k : Text) (t : HostkeyType) (b : Bool)
      → Keeps false (add_hashed api o host salt k t b)
  unfolding add_hashed
  add_hashed-Keeps o host salt k t b = add_typed-Keeps api.masks.type_sha1 o host salt k t b

  add_custom-Keeps :
      (o : Hosts) (host k : Text) (t : HostkeyType) (b : Bool)
      → Keeps false (add_custom api o host k t b)
  unfolding add_custom
  add_custom-Keeps o host k t b = add_typed-Keeps api.masks.type_custom o host [] k t b

  update-Keeps :
      (o : Hosts) (host : Text) (k : HostKey) (r : SearchResult)
      → Keeps false (update api o host k r)
  unfolding update add_key
  update-Keeps o host k r = search (locking_rules, erase-Keeps, add-Keeps)

  read_entry-Keeps : (o : Hosts) (type : ℤ) (l : Text) → Keeps false (read_entry api o type l)
  unfolding read_entry
  read_entry-Keeps o type l = search knownhost_rules

  load_entries-Keeps :
      (o : Hosts) (type : ℤ) (ls : List Text) → Keeps false (load_entries api o type ls)
  unfolding load_entries
  load_entries-Keeps o type [] = search locking_rules
  load_entries-Keeps o type (l ∷ ls) =
      Keeps-bind _ _ (read_entry-Keeps o type l) λ _. load_entries-Keeps o type ls

  save_entries-Keeps :
      (fuel : ℕ) (type : ℤ) (it last : KnownHostIterator) (out : List Text)
      → Keeps false (save_entries api fuel type it last out)
  unfolding save_entries
  save_entries-Keeps zero type it last out = search locking_rules
  save_entries-Keeps (suc fuel) type it last out =
      search
        (
          locking_rules,
          dereference-Keeps,
          to_string-Keeps,
          increment-Keeps,
          save_entries-Keeps fuel type,
        )
        depth 9

-- The operations on a collection of known hosts, begun with the mutex free.
pub record KnownHostsKeepLock {S : Type 0} (api : Libssh2 S) : Type 0 where
  pub begin_keeps : (o : Hosts) → Keeps false (begin api o)
  pub increment_keeps : (it : KnownHostIterator) → Keeps false (increment api it)
  pub erase_keeps : (it : KnownHostIterator) → Keeps false (erase api it)
  pub to_string_keeps : (h : KnownHost) (type : ℤ) → Keeps false (to_string api h type)
  pub find_keeps : (o : Hosts) (host k : Text) (b : Bool) → Keeps false (find api o host k b)
  pub add_keeps :
      (o : Hosts) (host k : Text) (t : HostkeyType) (b : Bool) → Keeps false (add api o host k t b)
  pub add_hashed_keeps :
      (o : Hosts) (host salt k : Text) (t : HostkeyType) (b : Bool)
      → Keeps false (add_hashed api o host salt k t b)
  pub add_custom_keeps :
      (o : Hosts) (host k : Text) (t : HostkeyType) (b : Bool)
      → Keeps false (add_custom api o host k t b)
  pub update_keeps :
      (o : Hosts) (host : Text) (k : HostKey) (r : SearchResult)
      → Keeps false (update api o host k r)
  pub load_entries_keeps :
      (o : Hosts) (type : ℤ) (ls : List Text) → Keeps false (load_entries api o type ls)
  pub save_entries_keeps :
      (fuel : ℕ) (type : ℤ) (it last : KnownHostIterator) (out : List Text)
      → Keeps false (save_entries api fuel type it last out)

-- Iterating over known hosts, erasing, printing, finding, adding, updating, loading and saving them,
-- begun with the mutex of the collection's session free, make all their calls into libssh2 with the
-- mutex held, never wait for a mutex that they hold, and end with the mutex free, whether they return,
-- throw or have no fuel left.
pub known_hosts-KnownHostsKeepLock : {S : Type 0} (api : Libssh2 S) → KnownHostsKeepLock api
known_hosts-KnownHostsKeepLock api = record {
  begin_keeps = begin-Keeps api;
  increment_keeps = increment-Keeps api;
  erase_keeps = erase-Keeps api;
  to_string_keeps = to_string-Keeps api;
  find_keeps = find-Keeps api;
  add_keeps = add-Keeps api;
  add_hashed_keeps = add_hashed-Keeps api;
  add_custom_keeps = add_custom-Keeps api;
  update_keeps = update-Keeps api;
  load_entries_keeps = load_entries-Keeps api;
  save_entries_keeps = save_entries-Keeps api;
}
