-- ===== src/Effect/Errors.antt =====
-- Exceptions as the library throws them: boost::system::error_code, the standard exception types, and
-- the error information that is attached to them.
use Prim.Native.String.{String}
use ssh2_cpp.Base.{ℕ, ℤ, pos, Option, none, Text}
use ssh2_cpp.Libssh2.{ApiFunction}

-- `system` is that of a default-constructed error_code.
pub data Category : Type 0 where
  system ssh sftp : Category

pub record ErrorCode : Type 0 where
  pub value : ℤ
  pub category : Category

-- `boost::system::error_code()`
abbrev pub no_error : ErrorCode
no_error = record { value = pos 0; category = system }

pub data ExceptionKind : Type 0 where
  system_error : ErrorCode → Text → ExceptionKind
  logic_error invalid_argument range_error runtime_error bad_alloc : String → ExceptionKind
  -- an exception of the caller's own code
  user_exception : ℕ → ExceptionKind

-- `errinfo_api_function` and `errinfo_file_name` are the information that the library attaches.
pub record Exception : Type 0 where
  pub kind : ExceptionKind
  pub api_function : Option ApiFunction
  pub file_name : Option Text

-- `BOOST_THROW_EXCEPTION(e)` attaches neither.
abbrev pub plain : ExceptionKind → Exception
plain k = record { kind = k; api_function = none; file_name = none }
