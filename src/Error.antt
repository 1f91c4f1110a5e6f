-- ===== src/Error.antt =====
-- ssh/ssh_error.hpp and ssh/sftp_error.hpp: the error categories, the conditions that the library's
-- codes are compared with, the fetching of libssh2's last error, and the throwing of it.
-- `Error` has the state-changing part; the children have the tables and their properties.
pub mod Condition
pub mod Names
use ssh2_cpp.Base.{
  ℕ, zero, ℤ, pos, negsuc, is_zero, eqb_ℤ, ltb, ◌-◌, ◌+◌, ◌%◌, ◌^◌, Bool, true, false, not, Option,
  none, some, List, [], ◌∷◌, Text, Ptr, if◌then◌else◌,
}
use ssh2_cpp.Libssh2.{
  Libssh2, ApiFunction, libssh2_session_last_error, libssh2_session_last_errno,
  libssh2_sftp_last_error, sftp_protocol,
}
use ssh2_cpp.Effect.{
  M, Exception, ErrorCode, no_error, ssh, sftp, ExceptionKind, system_error, plain, pure, throw,
  call, assert, ◌>>=◌, ◌>>◌,
}

-- The out-parameters `ec` and `e_msg` of the error-fetching functions: an error code, and the string
-- that the optional reference refers to, if it refers to one.
pub record ErrorSlot : Type 0 where
  pub ec : ErrorCode
  pub e_msg : Option Text

-- The slot of a throwing wrapper: `error_code ec; std::string message;`.
abbrev pub fresh_slot : ErrorSlot
fresh_slot = record { ec = no_error; e_msg = some [] }

-- The `message` of a slot that refers to a string.
abbrev pub message_of : ErrorSlot → Text
message_of slot = elim slot.e_msg [ none ↦ [] | some m ↦ m ]

-- `if (ec)`
abbrev pub is_error : ErrorCode → Bool
is_error ec = not (is_zero ec.value)

-- The conversion of an `unsigned long` to `int`, of 32 bits.
unfoldable pub int_of_ulong : ℕ → ℤ
int_of_ulong n = let m = n % 2 ^ 32 in if ltb m (2 ^ 31) then pos m else negsuc (2 ^ 32 - 1 - m)

module _ {S : Type 0} (api : Libssh2 S) where
  unfoldable pub last_error_code : Ptr → Option Text → M S ErrorSlot
  last_error_code session (some old) = do
    (val, text) ← call libssh2_session_last_error (api.session.last_error session)
    assert (not (is_zero val))
    pure (record { ec = record { value = val; category = ssh }; e_msg = some text })
  last_error_code session none = do
    val ← call libssh2_session_last_errno (api.session.last_errno session)
    assert (not (is_zero val))
    pure (record { ec = record { value = val; category = ssh }; e_msg = none })

  unfoldable pub last_sftp_error_code : Ptr → Ptr → Option Text → M S ErrorSlot
  last_sftp_error_code session channel e_msg = do
    slot ← last_error_code session e_msg
    if eqb_ℤ slot.ec.value (api.codes.ssh_error sftp_protocol)
        then (do
          code ← call libssh2_sftp_last_error (api.sftp.last_error channel)
          pure (record slot { ec = record { value = int_of_ulong code; category = sftp } }))
        else pure slot

-- `if (path && path_len > 0)`
abbrev attach_path : Option Text → Exception → Exception
attach_path none e = e
attach_path (some []) e = e
attach_path (some (c ∷ cs)) e = record e { file_name = some (c ∷ cs) }

module _ {S A : Type 0} where
  unfoldable pub throw_api_exception : Exception → ApiFunction → Option Text → M S A
  throw_api_exception e api_function path =
      throw (attach_path path (record e { api_function = some api_function }))

  unfoldable pub throw_api_error_code : ErrorCode → Text → ApiFunction → Option Text → M S A
  unfolding throw_api_exception
  throw_api_error_code ec message api_function path =
      throw_api_exception (plain (system_error ec message)) api_function path
  -- `if (ec)` with `SSH_DETAIL_THROW_API_ERROR_CODE` or `SSH_DETAIL_THROW_API_ERROR_CODE_WITH_PATH`

module _ {S : Type 0} where
  unfoldable pub throw_if_error : ErrorSlot → ApiFunction → Option Text → M S (Unit {0})
  unfolding throw_api_error_code
  throw_if_error slot api_function path =
      if is_error slot.ec
      then throw_api_error_code slot.ec (message_of slot) api_function path
      else pure tt
