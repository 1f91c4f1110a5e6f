-- ===== src/Filesystem/Attribute.antt =====
-- `file_attributes` of ssh/filesystem.hpp.
use Prim.Native.Nat.{bit_and}
use ssh2_cpp.Base.{ℕ, Bool, not, ◌==◌, Option, none, some, if◌then◌else◌}
use ssh2_cpp.Libssh2.{Libssh2, Attributes}

-- `m_attributes`
pub record FileAttributes : Type 0 where
  pub raw : Attributes

pub data FileType : Type 0 where
  normal_file symbolic_link directory character_device block_device : FileType
  named_pipe socket unknown : FileType

is_valid_attribute : FileAttributes → ℕ → Bool
is_valid_attribute a attribute_type = not (bit_and a.raw.flags attribute_type == 0)

module _ {S : Type 0} (api : Libssh2 S) where
  -- the `switch` on the masked permissions
  type_of_mode : ℕ → FileType
  type_of_mode mode =
      if mode == api.bits.ififo
      then named_pipe
      else if mode == api.bits.ifchr
      then character_device
      else if mode == api.bits.ifdir
      then directory
      else if mode == api.bits.ifblk
      then block_device
      else if mode == api.bits.ifreg
      then normal_file
      else if mode == api.bits.iflnk
      then symbolic_link
      else if mode == api.bits.ifsock
      then socket
      else unknown

  unfoldable pub type : FileAttributes → FileType
  unfolding is_valid_attribute type_of_mode
  type a =
      if is_valid_attribute a api.bits.attr_permissions
      then type_of_mode (bit_and a.raw.permissions api.bits.ifmt)
      else unknown

  unfoldable pub permissions : FileAttributes → Option ℕ
  unfolding is_valid_attribute
  permissions a =
      if is_valid_attribute a api.bits.attr_permissions then some a.raw.permissions else none

  unfoldable pub size : FileAttributes → Option ℕ
  unfolding is_valid_attribute
  size a = if is_valid_attribute a api.bits.attr_size then some a.raw.filesize else none

  unfoldable pub uid : FileAttributes → Option ℕ
  unfolding is_valid_attribute
  uid a = if is_valid_attribute a api.bits.attr_uidgid then some a.raw.uid else none

  unfoldable pub gid : FileAttributes → Option ℕ
  unfolding is_valid_attribute
  gid a = if is_valid_attribute a api.bits.attr_uidgid then some a.raw.gid else none

  unfoldable pub last_accessed : FileAttributes → Option ℕ
  unfolding is_valid_attribute
  last_accessed a = if is_valid_attribute a api.bits.attr_acmodtime then some a.raw.atime else none

  unfoldable pub last_modified : FileAttributes → Option ℕ
  unfolding is_valid_attribute
  last_modified a = if is_valid_attribute a api.bits.attr_acmodtime then some a.raw.mtime else none
