-- ===== src/Libssh2/Values.antt =====
-- Values that the headers of libssh2 give to constants and that the library passes or compares.
use ssh2_cpp.Base.{ℕ, ℤ}

-- Values that the headers give to `resolve_action`.
pub record Actions : Type 0 where
  pub symlink : ℤ
  pub readlink : ℤ
  pub realpath : ℤ

-- Values that the headers give to the result of a known-host check.
pub record Checks : Type 0 where
  pub match : ℤ
  pub mismatch : ℤ
  pub notfound : ℤ
  pub failure : ℤ

-- The values that the headers give to the attribute flags `LIBSSH2_SFTP_ATTR_*`, to the file types
-- `LIBSSH2_SFTP_S_IF*` and to their mask.
pub record AttributeBits : Type 0 where
  pub attr_size : ℕ
  pub attr_uidgid : ℕ
  pub attr_permissions : ℕ
  pub attr_acmodtime : ℕ
  pub ifmt : ℕ
  pub ififo : ℕ
  pub ifchr : ℕ
  pub ifdir : ℕ
  pub ifblk : ℕ
  pub ifreg : ℕ
  pub iflnk : ℕ
  pub ifsock : ℕ

-- The values that the headers give to the permission bits `LIBSSH2_SFTP_S_I*`.
pub record Modes : Type 0 where
  pub irusr : ℕ
  pub iwusr : ℕ
  pub irwxu : ℕ
  pub irgrp : ℕ
  pub ixgrp : ℕ
  pub iroth : ℕ
  pub ixoth : ℕ

-- The values that the headers give to `LIBSSH2_KNOWNHOST_*`, the parts of a type mask and the format
-- of a file.
pub record HostMasks : Type 0 where
  pub type_mask : ℕ
  pub type_plain : ℕ
  pub type_sha1 : ℕ
  pub type_custom : ℕ
  pub keyenc_raw : ℕ
  pub keyenc_base64 : ℕ
  pub key_mask : ℕ
  pub key_rsa1 : ℕ
  pub key_sshrsa : ℕ
  pub key_sshdss : ℕ
  pub file_openssh : ℤ

-- The values that the headers give to the types of a host key, the hashes and the method of a key.
pub record HostkeyCodes : Type 0 where
  pub hostkey_type_unknown : ℤ
  pub hostkey_type_rsa : ℤ
  pub hostkey_type_dss : ℤ
  pub hostkey_hash_md5 : ℤ
  pub hostkey_hash_sha1 : ℤ
  pub method_hostkey : ℤ
