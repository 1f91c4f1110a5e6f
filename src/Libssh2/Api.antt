-- ===== src/Libssh2/Api.antt =====
-- The functions of libssh2 as state changes over an unknown state `S`, which holds the client
-- library, the agent and the server. Nothing is assumed of them here: what a theorem needs of them is
-- a hypothesis of that theorem. Pointers to result variables are returned in the result.
use ssh2_cpp.Base.{ℕ, ℤ, Bool, false, Option, List, Text, Ptr}
use ssh2_cpp.Libssh2.Constants.{Codes}
use ssh2_cpp.Libssh2.Values.{Actions, Checks, AttributeBits, Modes, HostMasks, HostkeyCodes}

-- LIBSSH2_SFTP_ATTRIBUTES
pub record Attributes : Type 0 where
  pub flags : ℕ
  pub filesize : ℕ
  pub uid : ℕ
  pub gid : ℕ
  pub permissions : ℕ
  pub atime : ℕ
  pub mtime : ℕ

-- A word of `LIBSSH2_FXF_*` flags, by its bits.
pub record OpenFlags : Type 0 where
  pub fxf_read : Bool
  pub fxf_write : Bool
  pub fxf_append : Bool
  pub fxf_creat : Bool
  pub fxf_trunc : Bool
  pub fxf_excl : Bool

-- `0`, as a word of such flags.
abbrev pub no_open_flags : OpenFlags
no_open_flags = record {
  fxf_read = false;
  fxf_write = false;
  fxf_append = false;
  fxf_creat = false;
  fxf_trunc = false;
  fxf_excl = false;
}

-- A word of `LIBSSH2_SFTP_RENAME_*` flags, by its bits.
pub record RenameFlags : Type 0 where
  pub rename_overwrite : Bool
  pub rename_atomic : Bool

-- LIBSSH2_SFTP_OPENFILE, LIBSSH2_SFTP_OPENDIR
pub data OpenType : Type 0 where
  openfile opendir : OpenType

-- LIBSSH2_SFTP_STAT, LIBSSH2_SFTP_LSTAT
pub data StatType : Type 0 where
  follow_link link_itself : StatType

-- `LIBSSH2_SFTP_ATTRIBUTES()`: all members zero.
abbrev pub no_attributes : Attributes
no_attributes = record {
  flags = 0;
  filesize = 0;
  uid = 0;
  gid = 0;
  permissions = 0;
  atime = 0;
  mtime = 0;
}

pub record SessionApi (S : Type 0) : Type 0 where
  pub init_ex : S → Ptr × S
  pub startup : Ptr → ℤ → S → ℤ × S
  pub disconnect : Ptr → Text → S → ℤ × S
  pub free : Ptr → S → ℤ × S
  -- the error's number and its message
  pub last_error : Ptr → S → (ℤ × Text) × S
  pub last_errno : Ptr → S → ℤ × S
  -- the key, if there is one, and what the out-parameter holds afterwards, from its value before
  pub hostkey : Ptr → ℤ → S → (Option Text × ℤ) × S
  -- the bytes that stand at the address of the hash, if there is one
  pub hostkey_hash : Ptr → ℤ → S → Option Text × S
  pub methods : Ptr → ℤ → S → Option Text × S

-- LIBSSH2_USERAUTH_KBDINT_PROMPT
pub record Prompt : Type 0 where
  pub text : Text
  pub echo : Bool

-- The arguments of a keyboard-interactive callback.
pub record Challenge : Type 0 where
  pub name : Option Text
  pub instruction : Option Text
  pub prompts : List Prompt

-- What the session's `abstract` points at during interactive authentication: whether the callback
-- was called, and the exception, by number, that it stashed.
pub record Translator : Type 0 where
  pub called : Bool
  pub exception : Option ℕ

pub record UserauthApi (S : Type 0) : Type 0 where
  pub list : Ptr → Text → S → Option Text × S
  pub authenticated : Ptr → S → ℤ × S
  pub password_ex : Ptr → Text → Text → Ptr → S → ℤ × S
  pub keyboard_interactive_ex :
      Ptr
      → Text
      → (Challenge → Translator → List Text × Translator)
      → Translator
      → S
      → (ℤ × Translator) × S
  pub publickey_fromfile_ex : Ptr → Text → Text → Text → Text → S → ℤ × S

pub record AgentApi (S : Type 0) : Type 0 where
  pub init : Ptr → S → Ptr × S
  pub connect : Ptr → S → ℤ × S
  pub disconnect : Ptr → S → ℤ × S
  pub free : Ptr → S → Unit {0} × S
  -- the return code, and what the out-parameter holds afterwards, from the out-parameter before and
  -- the previous identity
  pub get_identity : Ptr → Ptr → Ptr → S → (ℤ × Ptr) × S
  pub list_identities : Ptr → S → ℤ × S
  pub userauth : Ptr → Text → Ptr → S → ℤ × S

-- The members of a `libssh2_knownhost` that the library reads. The strings are null-terminated.
pub record HostEntry : Type 0 where
  pub name : Option Text
  pub key : Option Text
  pub typemask : ℕ

pub record KnownhostApi (S : Type 0) : Type 0 where
  -- the object at an address that libssh2 gave out
  pub entry : ℕ → S → HostEntry
  pub init : Ptr → S → Ptr × S
  pub free : Ptr → S → Unit {0} × S
  pub readline : Ptr → Text → ℤ → S → ℤ × S
  -- the return code, the bytes written to the buffer, and the length written or required
  pub writeline : Ptr → Ptr → ℕ → ℤ → S → (ℤ × Text × ℕ) × S
  -- the return code, and the out-parameter after, from the out-parameter before and the position
  pub get : Ptr → Ptr → Ptr → S → (ℤ × Ptr) × S
  pub add : Ptr → Text → Option Text → Text → ℤ → Ptr → S → (ℤ × Ptr) × S
  pub del : Ptr → Ptr → S → ℤ × S
  pub check : Ptr → Text → Text → ℤ → Ptr → S → (ℤ × Ptr) × S

pub record SftpApi (S : Type 0) : Type 0 where
  pub init : Ptr → S → Ptr × S
  pub shutdown : Ptr → S → ℤ × S
  pub last_error : Ptr → S → ℕ × S
  pub open_ex : Ptr → Text → OpenFlags → ℕ → OpenType → S → Ptr × S
  pub close_handle : Ptr → S → ℤ × S
  -- the return code and the target buffer after the call, from the buffer before
  pub symlink_ex : Ptr → Text → Text → ℤ → S → (ℤ × Text) × S
  pub stat_ex : Ptr → Text → StatType → Attributes → S → (ℤ × Attributes) × S
  pub fstat_ex : Ptr → Attributes → StatType → S → (ℤ × Attributes) × S
  pub unlink_ex : Ptr → Text → S → ℤ × S
  pub mkdir_ex : Ptr → Text → ℕ → S → ℤ × S
  pub rmdir_ex : Ptr → Text → S → ℤ × S
  pub rename_ex : Ptr → Text → Text → RenameFlags → S → ℤ × S
  -- the return code and the bytes stored in the buffer, which has the given length
  pub read : Ptr → ℕ → S → (ℤ × Text) × S
  pub write : Ptr → Text → S → ℤ × S
  -- the return code, the file name's buffer, the long entry's buffer and the attributes
  pub readdir_ex : Ptr → ℕ → ℕ → S → (ℤ × Text × Text × Attributes) × S
  pub tell64 : Ptr → S → ℕ × S
  pub seek64 : Ptr → ℕ → S → Unit {0} × S

pub record Libssh2 (S : Type 0) : Type 0 where
  pub codes : Codes
  pub actions : Actions
  pub checks : Checks
  pub modes : Modes
  pub bits : AttributeBits
  pub masks : HostMasks
  pub hostkeys : HostkeyCodes
  pub session : SessionApi S
  pub userauth : UserauthApi S
  pub agent : AgentApi S
  pub knownhost : KnownhostApi S
  pub sftp : SftpApi S
