-- ===== src/KnownHosts/Collection/Adding.antt =====
-- Adding host keys whose algorithm ssh/knownhost.hpp does not know, and updating with them.
use ssh2_cpp.Base.{Ptr, ◌≡◌, refl, ℕ, is_negative, false, none, some, Text}
use ssh2_cpp.Libssh2.{Libssh2}
use ssh2_cpp.Effect.{
  Outcome, World, thrown, plain, invalid_argument, pure, throw, call, with_lock, ◌>>=◌,
}
use ssh2_cpp.Error.{throw_if_error}
use ssh2_cpp.Wrapper.Knownhost
use ssh2_cpp.HostKey.{HostKey, algorithm, unknown}
use ssh2_cpp.KnownHosts.Entry.{Hosts, KnownHost}
use ssh2_cpp.KnownHosts.Iterator.{erase, increment}
use ssh2_cpp.KnownHosts.Iterator.Walk.{answer, next_host_lem}
use ssh2_cpp.KnownHosts.Collection.{
  SearchResult, hostkey_type_to_add_type, add_key, add_hashed_key, add_custom_key, add, add_hashed,
  add_custom, update,
}

module _ {S : Type 0} (api : Libssh2 S) (owner : Hosts) (host : Text) (k : HostKey)
    (unknown_type : algorithm api k ≡ unknown) where
  abbrev pub refused : World S → Outcome KnownHost × World S
  refused w = (thrown (plain (invalid_argument "Unrecognised key algorithm")), w)

  -- A key of an unknown algorithm is added in none of the three ways: each throws `invalid_argument`
  -- before it calls into libssh2, and changes nothing.
  pub add_unknown :
      (salt : Text) (w : World S)
      → (add_key api owner host k w ≡ refused w)
        × (add_hashed_key api owner host salt k w ≡ refused w)
        × (add_custom_key api owner host k w ≡ refused w)
  unfolding add_key add_hashed_key add_custom_key add add_hashed add_custom hostkey_type_to_add_type
      ◌>>=◌ throw
  add_unknown salt w = (rw unknown_type refl, rw unknown_type refl, rw unknown_type refl)

  -- Updating an entry with a key of an unknown algorithm, with the mutex free, where libssh2 gives the
  -- next entry and deletes the old one: it throws `invalid_argument`, and the old entry has been
  -- deleted.
  pub update_unknown :
      (entry : SearchResult) (p : ℕ) (next : Ptr) (w : World S)
      → w.locked ≡ false
      → entry.host ≡ record { owner = some owner; pos = some p }
      → (api.knownhost.get owner.hosts none (some p) w.remote).0 ≡ answer next
      → let s = (api.knownhost.get owner.hosts none (some p) w.remote).1 in
        is_negative (api.knownhost.del owner.hosts (some p) s).0 ≡ false
        → ((update api owner host k entry w).0
            ≡ thrown (plain (invalid_argument "Unrecognised key algorithm")))
          × ((update api owner host k entry w).1.remote
              ≡ (api.knownhost.del owner.hosts
                  (some p)
                  (api.knownhost.get owner.hosts none (some p) w.remote).1).1)
  unfolding update erase increment add_key add hostkey_type_to_add_type with_lock ◌>>=◌ call pure
      throw Knownhost.del throw_if_error
  update_unknown entry p next w l e following deleted =
      let step = next_host_lem api owner (some p) next w l following in
      (rw (e, step, deleted, unknown_type) refl, rw (e, step, deleted, unknown_type) refl)
