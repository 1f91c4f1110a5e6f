-- ===== src/Wrapper/Sftp/Contract.antt =====
-- The throwing wrappers of ssh/detail/libssh2/sftp.hpp and the promise of libssh2.hpp.
use ssh2_cpp.Base.{◌≡◌, Text, Ptr, ℕ, is_negative, is_zero, not, some, none}
use ssh2_cpp.Libssh2.{
  Libssh2, Attributes, OpenFlags, OpenType, StatType, RenameFlags, libssh2_sftp_init,
  libssh2_sftp_open_ex, libssh2_sftp_stat_ex, libssh2_sftp_fstat_ex, libssh2_sftp_unlink_ex,
  libssh2_sftp_mkdir_ex, libssh2_sftp_rmdir_ex, libssh2_sftp_rename_ex, libssh2_sftp_read,
  libssh2_sftp_write, libssh2_sftp_readdir_ex,
}
use ssh2_cpp.Effect.Laws.{bind_laws}
use ssh2_cpp.Error.{last_error_code, last_sftp_error_code}
use ssh2_cpp.Wrapper.Null.{is_null}
use ssh2_cpp.Wrapper.Contract.{checked, throw_if_error-fresh}
use ssh2_cpp.Wrapper.Sftp

-- The equation of each throwing wrapper with the action of Wrapper.Contract.
pub record KeepsContract {S : Type 0} (api : Libssh2 S) (session channel : Ptr) : Type 0 where
  pub init_contract :
      Sftp.init api session
      ≡ checked libssh2_sftp_init none
          (last_error_code api session)
          (api.sftp.init session)
          is_null
          (λ r. r)
  pub open_ex_contract :
      (filename : Text) (flags : OpenFlags) (mode : ℕ) (open_type : OpenType)
      → Sftp.open_ex api session channel filename flags mode open_type
        ≡ checked libssh2_sftp_open_ex
            (some filename)
            (last_sftp_error_code api session channel)
            (api.sftp.open_ex channel filename flags mode open_type)
            is_null
            (λ r. r)
  pub stat_contract :
      (path : Text) (stat_type : StatType) (attributes : Attributes)
      → Sftp.stat api session channel path stat_type attributes
        ≡ checked libssh2_sftp_stat_ex
            (some path)
            (last_sftp_error_code api session channel)
            (api.sftp.stat_ex channel path stat_type attributes)
            (λ r. is_negative r.0)
            (λ r. r.1)
  pub fstat_contract :
      (handle : Ptr) (attributes : Attributes) (fstat_type : StatType)
      → Sftp.fstat api session channel handle attributes fstat_type
        ≡ checked libssh2_sftp_fstat_ex none
            (last_sftp_error_code api session channel)
            (api.sftp.fstat_ex handle attributes fstat_type)
            (λ r. not (is_zero r.0))
            (λ r. r.1)
  pub unlink_ex_contract :
      (path : Text)
      → Sftp.unlink_ex api session channel path
        ≡ checked libssh2_sftp_unlink_ex
            (some path)
            (last_sftp_error_code api session channel)
            (api.sftp.unlink_ex channel path)
            is_negative
            (λ _. tt)
  pub mkdir_ex_contract :
      (path : Text) (mode : ℕ)
      → Sftp.mkdir_ex api session channel path mode
        ≡ checked libssh2_sftp_mkdir_ex
            (some path)
            (last_sftp_error_code api session channel)
            (api.sftp.mkdir_ex channel path mode)
            is_negative
            (λ _. tt)
  pub rmdir_ex_contract :
      (path : Text)
      → Sftp.rmdir_ex api session channel path
        ≡ checked libssh2_sftp_rmdir_ex
            (some path)
            (last_sftp_error_code api session channel)
            (api.sftp.rmdir_ex channel path)
            is_negative
            (λ _. tt)
  pub rename_contract :
      (source : Text) (destination : Text) (flags : RenameFlags)
      → Sftp.rename api session channel source destination flags
        ≡ checked libssh2_sftp_rename_ex
            (some source)
            (last_sftp_error_code api session channel)
            (api.sftp.rename_ex channel source destination flags)
            (λ rc. not (is_zero rc))
            (λ _. tt)
  pub read_contract :
      (handle : Ptr) (buffer_len : ℕ)
      → Sftp.read api session channel handle buffer_len
        ≡ checked libssh2_sftp_read none
            (last_sftp_error_code api session channel)
            (api.sftp.read handle buffer_len)
            (λ r. is_negative r.0)
            (λ r. r)
  pub write_contract :
      (handle : Ptr) (bytes : Text)
      → Sftp.write api session channel handle bytes
        ≡ checked libssh2_sftp_write none
            (last_sftp_error_code api session channel)
            (api.sftp.write handle bytes)
            is_negative
            (λ r. r)
  pub readdir_ex_contract :
      (handle : Ptr) (buffer_len : ℕ) (longentry_len : ℕ)
      → Sftp.readdir_ex api session channel handle buffer_len longentry_len
        ≡ checked libssh2_sftp_readdir_ex none
            (last_sftp_error_code api session channel)
            (api.sftp.readdir_ex handle buffer_len longentry_len)
            (λ r. is_negative r.0)
            (λ r. r)

module _ {S : Type 0} (api : Libssh2 S) (session channel : Ptr) where
  -- The throwing wrappers `init`, `open_ex`, `stat`, `fstat`, `unlink_ex`, `mkdir_ex`, `rmdir_ex`,
  -- `rename`, `read`, `write` and `readdir_ex` of sftp.hpp each call their function once, and turn
  -- exactly the failing results into the throwing of the last error fetched, with the function's
  -- name and, for `open_ex`, `stat`, `unlink_ex`, `mkdir_ex`, `rmdir_ex` and `rename`, a path; an
  -- error fetched with value 0 is not thrown.
  pub sftp_wrappers-KeepsContract : KeepsContract api session channel
  unfolding checked Sftp.init Sftp.open_ex Sftp.stat Sftp.fstat Sftp.unlink_ex Sftp.mkdir_ex
      Sftp.rmdir_ex Sftp.rename Sftp.read Sftp.write Sftp.readdir_ex
  sftp_wrappers-KeepsContract = record {
    init_contract = simp (bind_laws, throw_if_error-fresh);
    open_ex_contract = λ filename flags mode open_type. simp (bind_laws, throw_if_error-fresh);
    stat_contract = λ path stat_type attributes. simp (bind_laws, throw_if_error-fresh);
    fstat_contract = λ handle attributes fstat_type. simp (bind_laws, throw_if_error-fresh);
    unlink_ex_contract = λ path. simp (bind_laws, throw_if_error-fresh);
    mkdir_ex_contract = λ path mode. simp (bind_laws, throw_if_error-fresh);
    rmdir_ex_contract = λ path. simp (bind_laws, throw_if_error-fresh);
    rename_contract = λ source destination flags. simp (bind_laws, throw_if_error-fresh);
    read_contract = λ handle buffer_len. simp (bind_laws, throw_if_error-fresh);
    write_contract = λ handle bytes. simp (bind_laws, throw_if_error-fresh);
    readdir_ex_contract = λ handle buffer_len longentry_len. simp (bind_laws, throw_if_error-fresh);
  }
