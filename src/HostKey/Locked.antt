-- ===== src/HostKey/Locked.antt =====
-- The fetching of a host key in ssh/host_key.hpp and the locking discipline of
-- ssh/detail/libssh2/libssh2.hpp.
use ssh2_cpp.Base.{ℤ, true, false}
use ssh2_cpp.Libssh2.{Libssh2}
use ssh2_cpp.Effect.Locking.{Keeps, locking_rules}
use ssh2_cpp.State.{SessionState}
use ssh2_cpp.HostKey.{hash_length, hostkey, hostkey_hash, method, host_key}

module _ {S : Type 0} (api : Libssh2 S) where
  hostkey-Keeps : (session : SessionState) → Keeps false (hostkey api session)
  unfolding hostkey
  hostkey-Keeps session = search locking_rules

  hash_length-Keeps : (type : ℤ) → Keeps true (hash_length api type)
  unfolding hash_length
  hash_length-Keeps type = search locking_rules

  hostkey_hash-Keeps :
      (session : SessionState) (type : ℤ) → Keeps false (hostkey_hash api session type)
  unfolding hostkey_hash
  hostkey_hash-Keeps session type = search (locking_rules, hash_length-Keeps)

  method-Keeps : (session : SessionState) (type : ℤ) → Keeps false (method api session type)
  unfolding method
  method-Keeps session type = search locking_rules

  pub host_key-Keeps : (session : SessionState) → Keeps false (host_key api session)
  unfolding host_key
  host_key-Keeps session =
      search (locking_rules, hostkey-Keeps, hostkey_hash-Keeps, method-Keeps) depth 9
