-- ===== src/Wrapper/Locked/SftpCalls.antt =====
-- The throwing wrappers of ssh/detail/libssh2/sftp.hpp, called with the mutex held.
use ssh2_cpp.Base.{ℤ, ℕ, Text, true, Ptr}
use ssh2_cpp.Effect.Locking.{Keeps}
use ssh2_cpp.Libssh2.{OpenType, RenameFlags, StatType, OpenFlags, Attributes, Libssh2}
use ssh2_cpp.Wrapper.Sftp
use ssh2_cpp.Wrapper.Locked.{wrapper_rules}

module _ {S : Type 0} (api : Libssh2 S) (session : Ptr) where
  pub init-Keeps : Keeps true (Sftp.init api session)
  unfolding Sftp.init Sftp.fetch_init
  init-Keeps = search wrapper_rules

  pub open_ex-Keeps :
      (channel : Ptr)
      → (a1 : Text) → (a2 : OpenFlags) → (a3 : ℕ) → (a4 : OpenType)
      → Keeps true (Sftp.open_ex api session channel a1 a2 a3 a4)
  unfolding Sftp.open_ex Sftp.fetch_open_ex
  open_ex-Keeps channel a1 a2 a3 a4 = search wrapper_rules

  pub stat-Keeps :
      (channel : Ptr)
      → (a1 : Text) → (a2 : StatType) → (a3 : Attributes)
      → Keeps true (Sftp.stat api session channel a1 a2 a3)
  unfolding Sftp.stat Sftp.fetch_stat
  stat-Keeps channel a1 a2 a3 = search wrapper_rules

  pub fstat-Keeps :
      (channel : Ptr)
      → (a1 : Ptr) → (a2 : Attributes) → (a3 : StatType)
      → Keeps true (Sftp.fstat api session channel a1 a2 a3)
  unfolding Sftp.fstat Sftp.fetch_fstat
  fstat-Keeps channel a1 a2 a3 = search wrapper_rules

  pub unlink_ex-Keeps :
      (channel : Ptr) → (a1 : Text) → Keeps true (Sftp.unlink_ex api session channel a1)
  unfolding Sftp.unlink_ex Sftp.fetch_unlink_ex
  unlink_ex-Keeps channel a1 = search wrapper_rules

  pub mkdir_ex-Keeps :
      (channel : Ptr)
      → (a1 : Text) → (a2 : ℕ) → Keeps true (Sftp.mkdir_ex api session channel a1 a2)
  unfolding Sftp.mkdir_ex Sftp.fetch_mkdir_ex
  mkdir_ex-Keeps channel a1 a2 = search wrapper_rules

  pub rmdir_ex-Keeps :
      (channel : Ptr) → (a1 : Text) → Keeps true (Sftp.rmdir_ex api session channel a1)
  unfolding Sftp.rmdir_ex Sftp.fetch_rmdir_ex
  rmdir_ex-Keeps channel a1 = search wrapper_rules

  pub rename-Keeps :
      (channel : Ptr)
      → (a1 : Text) → (a2 : Text) → (a3 : RenameFlags)
      → Keeps true (Sftp.rename api session channel a1 a2 a3)
  unfolding Sftp.rename Sftp.fetch_rename
  rename-Keeps channel a1 a2 a3 = search wrapper_rules

  pub read-Keeps :
      (channel : Ptr) → (a1 : Ptr) → (a2 : ℕ) → Keeps true (Sftp.read api session channel a1 a2)
  unfolding Sftp.read Sftp.fetch_read
  read-Keeps channel a1 a2 = search wrapper_rules

  pub write-Keeps :
      (channel : Ptr) → (a1 : Ptr) → (a2 : Text) → Keeps true (Sftp.write api session channel a1 a2)
  unfolding Sftp.write Sftp.fetch_write
  write-Keeps channel a1 a2 = search wrapper_rules

  pub readdir_ex-Keeps :
      (channel : Ptr)
      → (a1 : Ptr) → (a2 : ℕ) → (a3 : ℕ) → Keeps true (Sftp.readdir_ex api session channel a1 a2 a3)
  unfolding Sftp.readdir_ex Sftp.fetch_readdir_ex
  readdir_ex-Keeps channel a1 a2 a3 = search wrapper_rules

  pub symlink_ex-Keeps :
      (channel : Ptr)
      → (a1 : Text) → (a2 : Text) → (a3 : ℤ)
      → Keeps true (Sftp.symlink_ex api session channel a1 a2 a3)
  unfolding Sftp.symlink_ex Sftp.fetch_symlink_ex
  symlink_ex-Keeps channel a1 a2 a3 = search wrapper_rules depth 12

  pub symlink-Keeps :
      (channel : Ptr)
      → (a1 : Text) → (a2 : Text) → Keeps true (Sftp.symlink api session channel a1 a2)
  unfolding Sftp.symlink
  symlink-Keeps channel a1 a2 = search (wrapper_rules, symlink_ex-Keeps)

pub ruleset sftp_rules = (
  wrapper_rules, init-Keeps, open_ex-Keeps, stat-Keeps, fstat-Keeps, unlink_ex-Keeps,
  mkdir_ex-Keeps, rmdir_ex-Keeps, rename-Keeps, read-Keeps, write-Keeps, readdir_ex-Keeps,
  symlink_ex-Keeps, symlink-Keeps,
)
