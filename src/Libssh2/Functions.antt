-- ===== src/Libssh2/Functions.antt =====
-- The functions of libssh2 that the library calls, by name: an exception carries the name of the
-- function that failed, and a trace names the calls that were made.
pub data ApiFunction : Type 0 where
  libssh2_session_init_ex libssh2_session_startup libssh2_session_disconnect : ApiFunction
  libssh2_session_free libssh2_session_last_error libssh2_session_last_errno : ApiFunction
  libssh2_session_hostkey libssh2_hostkey_hash libssh2_session_methods libssh2_session_abstract :
      ApiFunction
  libssh2_userauth_list libssh2_userauth_authenticated libssh2_userauth_password_ex : ApiFunction
  libssh2_userauth_keyboard_interactive_ex libssh2_userauth_publickey_fromfile_ex : ApiFunction
  libssh2_agent_init libssh2_agent_connect libssh2_agent_disconnect libssh2_agent_free : ApiFunction
  libssh2_agent_get_identity libssh2_agent_list_identities libssh2_agent_userauth : ApiFunction
  libssh2_knownhost_init libssh2_knownhost_free libssh2_knownhost_readline : ApiFunction
  libssh2_knownhost_writeline libssh2_knownhost_get libssh2_knownhost_add libssh2_knownhost_del :
      ApiFunction
  libssh2_knownhost_check libssh2_sftp_init libssh2_sftp_shutdown libssh2_sftp_last_error :
      ApiFunction
  libssh2_sftp_open_ex libssh2_sftp_close_handle libssh2_sftp_symlink_ex libssh2_sftp_stat_ex :
      ApiFunction
  libssh2_sftp_fstat_ex libssh2_sftp_unlink_ex libssh2_sftp_mkdir_ex libssh2_sftp_rmdir_ex :
      ApiFunction
  libssh2_sftp_rename_ex libssh2_sftp_read libssh2_sftp_write libssh2_sftp_readdir_ex : ApiFunction
  libssh2_sftp_tell64 libssh2_sftp_seek64 : ApiFunction
