-- ===== src/Error/Names.antt =====
-- `ssh_error_code_to_string` of ssh/ssh_error.hpp and `sftp_error_code_to_string` of
-- ssh/sftp_error.hpp, whose default case asserts that it is not reached. A stringised macro name is the constructor of that name.
use ssh2_cpp.Base.{
  ◌≢◌, ==_iff, ◌↔◌, ℕ, ℤ, eqb_ℤ, eqb_ℤ_iff, ◌==◌, ◌≡◌, refl, Bool, true, false, List, [], ◌∷◌,
  if◌then◌else◌, arith,
}
use ssh2_cpp.Effect.{
  M, World, Outcome, returned, faulted, assertion_failed, pure, assert, ◌>>=◌, ◌>>◌,
}
use ssh2_cpp.Libssh2.{
  Codes, HasDistinctCodes, SshError, FxCode, socket_none, banner_recv, banner_send, invalid_mac,
  kex_failure, alloc, socket_send, key_exchange_failure, timeout, hostkey_init, hostkey_sign,
  decrypt, socket_disconnect, proto, password_expired, file, method_none, authentication_failed,
  publickey_unverified, channel_outoforder, channel_failure, channel_request_denied,
  channel_unknown, channel_window_exceeded, channel_packet_exceeded, channel_closed,
  channel_eof_sent, scp_protocol, zlib, socket_timeout, sftp_protocol, request_denied,
  method_not_supported, inval, invalid_poll_type, publickey_protocol, eagain, buffer_too_small,
  bad_use, compress, out_of_boundary, agent_protocol, socket_recv, encrypt, bad_socket, fx_ok,
  fx_eof, fx_no_such_file, fx_permission_denied, fx_failure, fx_bad_message, fx_no_connection,
  fx_connection_lost, fx_op_unsupported, fx_invalid_handle, fx_no_such_path, fx_file_already_exists,
  fx_write_protect, fx_no_media, fx_no_space_on_filesystem, fx_quota_exceeded, fx_unknown_principal,
  fx_lock_conflict, fx_dir_not_empty, fx_not_a_directory, fx_invalid_filename, fx_link_loop,
}

-- The name of a constant, or a number that has none.
pub data ErrorText (E N : Type 0) : Type 0 where
  named : E → ErrorText E N
  number : N → ErrorText E N

-- The cases of the two `switch` statements, in their order.
ssh_cases : List SshError
ssh_cases =
    socket_none ∷ banner_recv ∷ banner_send ∷ invalid_mac ∷ kex_failure ∷ alloc ∷ socket_send
    ∷ key_exchange_failure ∷ timeout ∷ hostkey_init ∷ hostkey_sign ∷ decrypt ∷ socket_disconnect
    ∷ proto ∷ password_expired ∷ file ∷ method_none ∷ authentication_failed ∷ publickey_unverified
    ∷ channel_outoforder ∷ channel_failure ∷ channel_request_denied ∷ channel_unknown
    ∷ channel_window_exceeded ∷ channel_packet_exceeded ∷ channel_closed ∷ channel_eof_sent
    ∷ scp_protocol ∷ zlib ∷ socket_timeout ∷ sftp_protocol ∷ request_denied ∷ method_not_supported
    ∷ inval ∷ invalid_poll_type ∷ publickey_protocol ∷ eagain ∷ buffer_too_small ∷ bad_use
    ∷ compress ∷ out_of_boundary ∷ agent_protocol ∷ socket_recv ∷ encrypt ∷ bad_socket ∷ []

sftp_cases : List FxCode
sftp_cases =
    fx_ok ∷ fx_eof ∷ fx_no_such_file ∷ fx_permission_denied ∷ fx_failure ∷ fx_bad_message
    ∷ fx_no_connection ∷ fx_connection_lost ∷ fx_op_unsupported ∷ fx_invalid_handle
    ∷ fx_no_such_path ∷ fx_file_already_exists ∷ fx_write_protect ∷ fx_no_media
    ∷ fx_no_space_on_filesystem ∷ fx_quota_exceeded ∷ fx_unknown_principal ∷ fx_lock_conflict
    ∷ fx_dir_not_empty ∷ fx_not_a_directory ∷ fx_invalid_filename ∷ fx_link_loop ∷ []

-- Whether an item stands in a list.
listed : {E : Type 0} → Discrete E → E → List E → Bool
listed equal e [] = false
listed equal e (x ∷ xs) = elim (equal e x) [ yes _ ↦ true | no _ ↦ listed equal e xs ]

module _ {S E N : Type 0} (same : N → N → Bool) (value : E → N) where
  -- The first case whose constant is the code; by default `assert(!"Unknown code")`, and then the
  -- number itself.
  switch_name : List E → N → M S (ErrorText E N)
  switch_name [] code = do assert false; pure (number code)
  switch_name (e ∷ es) code =
      let rest = switch_name es code in if same code (value e) then pure (named e) else rest

-- What an unknown code leads to: the assertion of a debug build fails, another gives the number.
abbrev pub unknown_code : {S E N : Type 0} → N → World S → Outcome (ErrorText E N)
unknown_code code w = if w.debug then faulted assertion_failed else returned (number code)

-- The text of a code is the name of the constant with that number, and of no other constant; a code that
-- is no constant's number is unknown. Nothing is changed.
pub record NamesCodes {S E N : Type 0} (to_string : N → M S (ErrorText E N)) (value : E → N)
    : Type 0 where
  pub names :
      (code : N) (e : E) (w : World S)
      → (to_string code w ≡ (returned (named e), w)) ↔ (code ≡ value e)
  pub unknown :
      (code : N) (w : World S)
      → ((e : E) → code ≢ value e)
      → to_string code w ≡ (unknown_code code w, w)

module _ {S E N : Type 0} (same : N → N → Bool) (value : E → N)
    (same_iff : (a b : N) → (same a b ≡ true) ↔ (a ≡ b)) where
  -- A name stands for a constant with that number.
  switch_name_sound :
      (es : List E) (code : N) (e : E) (w : World S)
      → switch_name same value es code w ≡ (returned (named e), w)
      → code ≡ value e
  unfolding switch_name ◌>>=◌ assert pure
  switch_name_sound [] code e w h = absurd (ground arith)
  switch_name_sound (x ∷ es) code e w h =
      ground (arith, same_iff code (value x), switch_name_sound es code e w)

  -- A code that is no constant's number reaches the default.
  switch_name_default :
      (es : List E) (code : N) (w : World S)
      → ((e : E) → code ≢ value e)
      → switch_name same value es code w ≡ (unknown_code code w, w)
  unfolding switch_name ◌>>=◌ assert pure
  switch_name_default [] code w n = ground arith
  switch_name_default (x ∷ es) code w n =
      ground (arith, same_iff code (value x), n x, switch_name_default es code w n)

module _ {S E N : Type 0} (equal : Discrete E) (same : N → N → Bool) (value : E → N)
    (same_iff : (a b : N) → (same a b ≡ true) ↔ (a ≡ b))
    (injective : (a b : E) → value a ≡ value b → a ≡ b) where
  -- A constant among the cases is found by its number.
  switch_name_complete :
      (es : List E) (e : E) (w : World S)
      → listed equal e es ≡ true
      → switch_name same value es (value e) w ≡ (returned (named e), w)
  unfolding switch_name listed pure
  switch_name_complete [] e w h = cc
  switch_name_complete (x ∷ es) e w h =
      ground (arith, same_iff (value e) (value x), injective e x, switch_name_complete es e w)

  -- A `switch` with a case for every constant names the codes.
  switch_name-NamesCodes :
      (es : List E)
      → ((e : E) → listed equal e es ≡ true)
      → NamesCodes {S = S} (switch_name same value es) value
  switch_name-NamesCodes es all = record {
    names = λ code e w. (
      switch_name_sound same value same_iff es code e w,
      λ h. rw h (switch_name_complete es e w (all e)),
    );
    unknown = switch_name_default same value same_iff es;
  }

SshError-discrete : Discrete SshError
SshError-discrete = hlevel

FxCode-discrete : Discrete FxCode
FxCode-discrete = hlevel

ssh_cases_complete : (e : SshError) → listed SshError-discrete e ssh_cases ≡ true
unfolding listed ssh_cases SshError-discrete
ssh_cases_complete socket_none = refl
ssh_cases_complete _ = refl

sftp_cases_complete : (e : FxCode) → listed FxCode-discrete e sftp_cases ≡ true
unfolding listed sftp_cases FxCode-discrete
sftp_cases_complete fx_ok = refl
sftp_cases_complete _ = refl

module _ {S : Type 0} (k : Codes) where
  pub ssh_error_code_to_string : ℤ → M S (ErrorText SshError ℤ)
  ssh_error_code_to_string code = switch_name eqb_ℤ k.ssh_error ssh_cases code

  pub sftp_error_code_to_string : ℕ → M S (ErrorText FxCode ℕ)
  sftp_error_code_to_string code = switch_name ◌==◌ k.fx sftp_cases code

  -- With distinct codes, the texts of a session's error codes and of SFTP's are these: a code has the
  -- name of a constant exactly if it is the constant's number. A code that is no constant's number fails
  -- the assertion of a build with assertions, and has the number as its text in another. Finding a text
  -- changes nothing.
  pub error_names_exact :
      HasDistinctCodes k
      → NamesCodes ssh_error_code_to_string k.ssh_error × NamesCodes sftp_error_code_to_string k.fx
  unfolding ssh_error_code_to_string sftp_error_code_to_string
  error_names_exact d = (
    switch_name-NamesCodes SshError-discrete eqb_ℤ k.ssh_error eqb_ℤ_iff d.ssh_error_injective
        ssh_cases ssh_cases_complete,
    switch_name-NamesCodes FxCode-discrete ◌==◌ k.fx ==_iff d.fx_injective sftp_cases
        sftp_cases_complete,
  )
