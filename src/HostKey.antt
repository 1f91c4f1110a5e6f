-- ===== src/HostKey.antt =====
-- ssh/host_key.hpp: the host key of a session with its hashes, and the printing of bytes.
pub mod Hexify
pub mod Locked
use ssh2_cpp.Base.{
  ℕ, ◌+◌, ℤ, eqb_ℤ, Bool, true, false, Option, none, some, List, [], ◌∷◌, ◌++◌, take, Text, Ptr,
  if◌then◌else◌,
}
use ssh2_cpp.Libssh2.{
  Libssh2, libssh2_session_hostkey, libssh2_hostkey_hash, libssh2_session_methods,
}
use ssh2_cpp.Effect.{M, plain, invalid_argument, pure, throw, call, with_lock, ◌>>=◌, ◌>>◌}
use ssh2_cpp.State.{SessionState}

-- `hostkey_type::enum_t`
pub data HostkeyType : Type 0 where
  unknown rsa1 ssh_rsa ssh_dss : HostkeyType

-- `host_key`; the first two members are `m_key`
pub record HostKey : Type 0 where
  pub key : Text
  pub key_type : ℤ
  pub algorithm_name : Text
  pub md5_hash : Text
  pub sha1_hash : Text

-- `is_base64()`
abbrev pub is_base64 : Bool
is_base64 = false

-- an optional string; a missing one is empty
copied : Option Text → Text
copied none = []
copied (some t) = t

-- `T(hash_bytes, hash_bytes + len)`
hash_bytes : ℕ → Option Text → Text
hash_bytes len none = []
hash_bytes len (some bytes) = take len bytes

module _ {S : Type 0} (api : Libssh2 S) where
  unfoldable pub type_to_hostkey_type : ℤ → HostkeyType
  type_to_hostkey_type type =
      if eqb_ℤ type api.hostkeys.hostkey_type_rsa
      then ssh_rsa
      else if eqb_ℤ type api.hostkeys.hostkey_type_dss
      then ssh_dss
      else unknown

  unfoldable pub algorithm : HostKey → HostkeyType
  unfolding type_to_hostkey_type
  algorithm k = type_to_hostkey_type k.key_type

  unfoldable pub hostkey : SessionState → M S (Text × ℤ)
  unfolding copied
  hostkey session = with_lock (do
    (key, type) ←
        call libssh2_session_hostkey
          (api.session.hostkey session.session_ptr api.hostkeys.hostkey_type_unknown)
    pure (copied key, type))

  -- the length by the type of the hash, or the exception
  hash_length : ℤ → M S ℕ
  hash_length hash_type =
      if eqb_ℤ hash_type api.hostkeys.hostkey_hash_md5
      then pure 16
      else if eqb_ℤ hash_type api.hostkeys.hostkey_hash_sha1
      then pure 20
      else throw (plain (invalid_argument "Unknown hash type"))

  unfoldable pub hostkey_hash : SessionState → ℤ → M S Text
  unfolding hash_length hash_bytes
  hostkey_hash session hash_type = with_lock (do
    bytes ← call libssh2_hostkey_hash (api.session.hostkey_hash session.session_ptr hash_type)
    len ← hash_length hash_type
    pure (hash_bytes len bytes))

  unfoldable pub method : SessionState → ℤ → M S Text
  unfolding copied
  method session method_type = with_lock (do
    key_type ← call libssh2_session_methods (api.session.methods session.session_ptr method_type)
    pure (copied key_type))

  -- `host_key(session)`
  unfoldable pub host_key : SessionState → M S HostKey
  unfolding hostkey hostkey_hash method
  host_key session = do
    (key, type) ← hostkey session
    name ← method session api.hostkeys.method_hostkey
    md5 ← hostkey_hash session api.hostkeys.hostkey_hash_md5
    sha1 ← hostkey_hash session api.hostkeys.hostkey_hash_sha1
    pure (record {
      key = key;
      key_type = type;
      algorithm_name = name;
      md5_hash = md5;
      sha1_hash = sha1;
    })
