-- ===== src/Tests/Numbers.antt =====
-- Numbers for the names of the error codes, all distinct.
use ssh2_cpp.Base.{pos, zero, suc, List, [], ◌∷◌, ℕ, ℤ, negsuc, ap, sym, ◌∙◌, ◌≡◌, refl}
use ssh2_cpp.Libssh2.{
  Codes, HasDistinctCodes, SshError, FxCode, socket_none, banner_recv, banner_send, invalid_mac,
  kex_failure, alloc, socket_send, key_exchange_failure, timeout, hostkey_init, hostkey_sign,
  decrypt, socket_disconnect, proto, password_expired, file, method_none, authentication_failed,
  publickey_unverified, channel_outoforder, channel_failure, channel_request_denied,
  channel_unknown, channel_window_exceeded, channel_packet_exceeded, channel_closed,
  channel_eof_sent, scp_protocol, zlib, socket_timeout, sftp_protocol, request_denied,
  method_not_supported, inval, invalid_poll_type, publickey_protocol, eagain, buffer_too_small,
  bad_use, compress, out_of_boundary, agent_protocol, socket_recv, encrypt, bad_socket, fx_ok,
  fx_eof, fx_no_such_file, fx_permission_denied, fx_failure, fx_bad_message, fx_no_connection,
  fx_connection_lost, fx_op_unsupported, fx_invalid_handle, fx_no_such_path, fx_file_already_exists,
  fx_write_protect, fx_no_media, fx_no_space_on_filesystem, fx_quota_exceeded, fx_unknown_principal,
  fx_lock_conflict, fx_dir_not_empty, fx_not_a_directory, fx_invalid_filename, fx_link_loop,
}

item : {A : Type 0} → A → List A → ℕ → A
item last [] n = last
item last (x ∷ xs) zero = x
item last (x ∷ xs) (suc n) = item last xs n

below_zero : ℤ → ℕ
below_zero (pos n) = n
below_zero (negsuc n) = n

ssh_number : SshError → ℕ
ssh_number socket_none = 0
ssh_number banner_recv = 1
ssh_number banner_send = 2
ssh_number invalid_mac = 3
ssh_number kex_failure = 4
ssh_number alloc = 5
ssh_number socket_send = 6
ssh_number key_exchange_failure = 7
ssh_number timeout = 8
ssh_number hostkey_init = 9
ssh_number hostkey_sign = 10
ssh_number decrypt = 11
ssh_number socket_disconnect = 12
ssh_number proto = 13
ssh_number password_expired = 14
ssh_number file = 15
ssh_number method_none = 16
ssh_number authentication_failed = 17
ssh_number publickey_unverified = 18
ssh_number channel_outoforder = 19
ssh_number channel_failure = 20
ssh_number channel_request_denied = 21
ssh_number channel_unknown = 22
ssh_number channel_window_exceeded = 23
ssh_number channel_packet_exceeded = 24
ssh_number channel_closed = 25
ssh_number channel_eof_sent = 26
ssh_number scp_protocol = 27
ssh_number zlib = 28
ssh_number socket_timeout = 29
ssh_number sftp_protocol = 30
ssh_number request_denied = 31
ssh_number method_not_supported = 32
ssh_number inval = 33
ssh_number invalid_poll_type = 34
ssh_number publickey_protocol = 35
ssh_number eagain = 36
ssh_number buffer_too_small = 37
ssh_number bad_use = 38
ssh_number compress = 39
ssh_number out_of_boundary = 40
ssh_number agent_protocol = 41
ssh_number socket_recv = 42
ssh_number encrypt = 43
ssh_number bad_socket = 44

ssh_name : ℕ → SshError
unfolding item
ssh_name = item bad_socket (
    socket_none ∷ banner_recv ∷ banner_send ∷ invalid_mac ∷ kex_failure ∷ alloc ∷ socket_send
    ∷ key_exchange_failure ∷ timeout ∷ hostkey_init ∷ hostkey_sign ∷ decrypt ∷ socket_disconnect
    ∷ proto ∷ password_expired ∷ file ∷ method_none ∷ authentication_failed ∷ publickey_unverified
    ∷ channel_outoforder ∷ channel_failure ∷ channel_request_denied ∷ channel_unknown
    ∷ channel_window_exceeded ∷ channel_packet_exceeded ∷ channel_closed ∷ channel_eof_sent
    ∷ scp_protocol ∷ zlib ∷ socket_timeout ∷ sftp_protocol ∷ request_denied ∷ method_not_supported
    ∷ inval ∷ invalid_poll_type ∷ publickey_protocol ∷ eagain ∷ buffer_too_small ∷ bad_use
    ∷ compress ∷ out_of_boundary ∷ agent_protocol ∷ socket_recv ∷ encrypt ∷ bad_socket ∷ [])

ssh_name-ssh_number : (e : SshError) → ssh_name (ssh_number e) ≡ e
unfolding ssh_name ssh_number
ssh_name-ssh_number socket_none = refl
ssh_name-ssh_number banner_recv = refl
ssh_name-ssh_number banner_send = refl
ssh_name-ssh_number invalid_mac = refl
ssh_name-ssh_number kex_failure = refl
ssh_name-ssh_number alloc = refl
ssh_name-ssh_number socket_send = refl
ssh_name-ssh_number key_exchange_failure = refl
ssh_name-ssh_number timeout = refl
ssh_name-ssh_number hostkey_init = refl
ssh_name-ssh_number hostkey_sign = refl
ssh_name-ssh_number decrypt = refl
ssh_name-ssh_number socket_disconnect = refl
ssh_name-ssh_number proto = refl
ssh_name-ssh_number password_expired = refl
ssh_name-ssh_number file = refl
ssh_name-ssh_number method_none = refl
ssh_name-ssh_number authentication_failed = refl
ssh_name-ssh_number publickey_unverified = refl
ssh_name-ssh_number channel_outoforder = refl
ssh_name-ssh_number channel_failure = refl
ssh_name-ssh_number channel_request_denied = refl
ssh_name-ssh_number channel_unknown = refl
ssh_name-ssh_number channel_window_exceeded = refl
ssh_name-ssh_number channel_packet_exceeded = refl
ssh_name-ssh_number channel_closed = refl
ssh_name-ssh_number channel_eof_sent = refl
ssh_name-ssh_number scp_protocol = refl
ssh_name-ssh_number zlib = refl
ssh_name-ssh_number socket_timeout = refl
ssh_name-ssh_number sftp_protocol = refl
ssh_name-ssh_number request_denied = refl
ssh_name-ssh_number method_not_supported = refl
ssh_name-ssh_number inval = refl
ssh_name-ssh_number invalid_poll_type = refl
ssh_name-ssh_number publickey_protocol = refl
ssh_name-ssh_number eagain = refl
ssh_name-ssh_number buffer_too_small = refl
ssh_name-ssh_number bad_use = refl
ssh_name-ssh_number compress = refl
ssh_name-ssh_number out_of_boundary = refl
ssh_name-ssh_number agent_protocol = refl
ssh_name-ssh_number socket_recv = refl
ssh_name-ssh_number encrypt = refl
ssh_name-ssh_number bad_socket = refl

fx_number : FxCode → ℕ
fx_number fx_ok = 0
fx_number fx_eof = 1
fx_number fx_no_such_file = 2
fx_number fx_permission_denied = 3
fx_number fx_failure = 4
fx_number fx_bad_message = 5
fx_number fx_no_connection = 6
fx_number fx_connection_lost = 7
fx_number fx_op_unsupported = 8
fx_number fx_invalid_handle = 9
fx_number fx_no_such_path = 10
fx_number fx_file_already_exists = 11
fx_number fx_write_protect = 12
fx_number fx_no_media = 13
fx_number fx_no_space_on_filesystem = 14
fx_number fx_quota_exceeded = 15
fx_number fx_unknown_principal = 16
fx_number fx_lock_conflict = 17
fx_number fx_dir_not_empty = 18
fx_number fx_not_a_directory = 19
fx_number fx_invalid_filename = 20
fx_number fx_link_loop = 21

fx_name : ℕ → FxCode
unfolding item
fx_name = item fx_link_loop (
    fx_ok ∷ fx_eof ∷ fx_no_such_file ∷ fx_permission_denied ∷ fx_failure ∷ fx_bad_message
    ∷ fx_no_connection ∷ fx_connection_lost ∷ fx_op_unsupported ∷ fx_invalid_handle
    ∷ fx_no_such_path ∷ fx_file_already_exists ∷ fx_write_protect ∷ fx_no_media
    ∷ fx_no_space_on_filesystem ∷ fx_quota_exceeded ∷ fx_unknown_principal ∷ fx_lock_conflict
    ∷ fx_dir_not_empty ∷ fx_not_a_directory ∷ fx_invalid_filename ∷ fx_link_loop ∷ [])

fx_name-fx_number : (e : FxCode) → fx_name (fx_number e) ≡ e
unfolding fx_name fx_number
fx_name-fx_number fx_ok = refl
fx_name-fx_number fx_eof = refl
fx_name-fx_number fx_no_such_file = refl
fx_name-fx_number fx_permission_denied = refl
fx_name-fx_number fx_failure = refl
fx_name-fx_number fx_bad_message = refl
fx_name-fx_number fx_no_connection = refl
fx_name-fx_number fx_connection_lost = refl
fx_name-fx_number fx_op_unsupported = refl
fx_name-fx_number fx_invalid_handle = refl
fx_name-fx_number fx_no_such_path = refl
fx_name-fx_number fx_file_already_exists = refl
fx_name-fx_number fx_write_protect = refl
fx_name-fx_number fx_no_media = refl
fx_name-fx_number fx_no_space_on_filesystem = refl
fx_name-fx_number fx_quota_exceeded = refl
fx_name-fx_number fx_unknown_principal = refl
fx_name-fx_number fx_lock_conflict = refl
fx_name-fx_number fx_dir_not_empty = refl
fx_name-fx_number fx_not_a_directory = refl
fx_name-fx_number fx_invalid_filename = refl
fx_name-fx_number fx_link_loop = refl

unfoldable pub test_codes : Codes
unfolding ssh_number fx_number
test_codes = record { ssh_error = λ e. negsuc (ssh_number e); fx = fx_number }

-- No number has two names.
pub test_codes-HasDistinctCodes : HasDistinctCodes test_codes
unfolding test_codes below_zero
test_codes-HasDistinctCodes = record {
  ssh_error_injective = λ a b h.
      sym (ssh_name-ssh_number a) ∙ ap (λ z. ssh_name (below_zero z)) h ∙ ssh_name-ssh_number b;
  fx_injective = λ a b h. sym (fx_name-fx_number a) ∙ ap fx_name h ∙ fx_name-fx_number b;
}
