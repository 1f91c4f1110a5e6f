-- ===== src/Libssh2/Constants.antt =====
-- The error codes of libssh2.h and libssh2_sftp.h that the library names. Their numbers are not in the
-- repository: they are a parameter, `Codes`.
use ssh2_cpp.Base.{ℕ, ℤ, ◌≡◌}

-- The `LIBSSH2_ERROR_*` that ssh/ssh_error.hpp names.
pub data SshError : Type 0 where
  socket_none banner_recv banner_send invalid_mac kex_failure alloc socket_send : SshError
  key_exchange_failure timeout hostkey_init hostkey_sign decrypt socket_disconnect proto : SshError
  password_expired file method_none authentication_failed publickey_unverified : SshError
  channel_outoforder channel_failure channel_request_denied channel_unknown : SshError
  channel_window_exceeded channel_packet_exceeded channel_closed channel_eof_sent scp_protocol :
      SshError
  zlib socket_timeout sftp_protocol request_denied method_not_supported inval invalid_poll_type :
      SshError
  publickey_protocol eagain buffer_too_small bad_use compress out_of_boundary agent_protocol :
      SshError
  socket_recv encrypt bad_socket : SshError

-- The `LIBSSH2_FX_*` that ssh/sftp_error.hpp names.
pub data FxCode : Type 0 where
  fx_ok fx_eof fx_no_such_file fx_permission_denied fx_failure fx_bad_message fx_no_connection :
      FxCode
  fx_connection_lost fx_op_unsupported fx_invalid_handle fx_no_such_path fx_file_already_exists :
      FxCode
  fx_write_protect fx_no_media fx_no_space_on_filesystem fx_quota_exceeded fx_unknown_principal :
      FxCode
  fx_lock_conflict fx_dir_not_empty fx_not_a_directory fx_invalid_filename fx_link_loop : FxCode

-- The numbers that the headers give to the names.
pub record Codes : Type 0 where
  pub ssh_error : SshError → ℤ
  pub fx : FxCode → ℕ

-- What a `switch` over the names asks of a header: no number has two names.
pub record HasDistinctCodes (k : Codes) : Type 0 where
  pub ssh_error_injective : (a b : SshError) → k.ssh_error a ≡ k.ssh_error b → a ≡ b
  pub fx_injective : (a b : FxCode) → k.fx a ≡ k.fx b → a ≡ b
