-- ===== src/Session/Methods.antt =====
-- What password authentication and the query of the authentication methods return and throw.
use ssh2_cpp.Base.{
  ◌≡◌, ◌≢◌, arith, ℤ, pos, is_zero, eqb_ℤ, true, false, Bool-cases, inl, inr, List, [], none, Text,
  if◌then◌else◌,
}
use ssh2_cpp.Libssh2.{Libssh2, HasDistinctCodes, authentication_failed}
use ssh2_cpp.Effect.{
  World, returned, thrown, faulted, assertion_failed, ErrorCode, ssh, plain, system_error, pure,
  throw, assert, call, with_lock, assert_act, ◌>>=◌,
}
use ssh2_cpp.Error.{last_error_code}
use ssh2_cpp.Error.Condition.{equals_errc-ssh, permission_denied}
use ssh2_cpp.State.{SessionState}
use ssh2_cpp.Wrapper.Userauth
use ssh2_cpp.Session.{authenticate_by_password, authentication_methods}
use ssh2_cpp.Effect.Laws.{assert-true, nonzero}

module _ {S : Type 0} (api : Libssh2 S) (session : SessionState) (username : Text) where
  abbrev pub password_answer : Text → World S → ℤ × S
  password_answer password w =
      api.userauth.password_ex session.session_ptr username password none w.remote

  abbrev pub last_error_after : S → ℤ × Text
  last_error_after s = (api.session.last_error session.session_ptr s).0

  abbrev pub error_code_after : S → ErrorCode
  error_code_after s = record { value = (last_error_after s).0; category = ssh }

  -- If no number of an error has two names, the mutex is free, and libssh2 reports an error that is not 0
  -- if it fails: a password authentication returns `true` if libssh2 succeeds, `false` if its error is
  -- LIBSSH2_ERROR_AUTHENTICATION_FAILED, and throws any other error.
  pub authenticate_by_password_lem :
      HasDistinctCodes api.codes
      → (password : Text) (w : World S) → w.locked ≡ false
      → (is_zero (password_answer password w).0 ≡ false
          → (last_error_after (password_answer password w).1).0 ≢ pos 0)
      → (authenticate_by_password api session username password w).0 ≡ (
          let s = (password_answer password w).1 in
          if is_zero (password_answer password w).0
          then returned true
          else if eqb_ℤ (last_error_after s).0 (api.codes.ssh_error authentication_failed)
          then returned false
          else thrown (plain (system_error (error_code_after s) (last_error_after s).1)))
  unfolding authenticate_by_password with_lock ◌>>=◌ call pure throw last_error_code
      Userauth.fetch_password
  authenticate_by_password_lem d password w l reported =
      elim (Bool-cases (is_zero (password_answer password w).0)) [
        | inl ok ↦ rw (l, ok) (ground arith)
        | inr bad ↦
            rw (l, bad, nonzero (reported bad), assert-true)
              (ground (
                arith,
                nonzero (reported bad),
                equals_errc-ssh api.codes d (last_error_after (password_answer password w).1).0
                    permission_denied,
              ))
      ]

  -- If the mutex is free, and libssh2 gives no list of methods and then 0 as its last error, a build
  -- without assertions returns no methods, and one with assertions fails one.
  pub authentication_methods-none :
      (split : Text → List Text) (w : World S)
      → w.locked ≡ false
      → (api.userauth.list session.session_ptr username w.remote).0 ≡ none
      → (last_error_after (api.userauth.list session.session_ptr username w.remote).1).0 ≡ pos 0
      → (authentication_methods api session split username w).0
        ≡ (if w.debug then faulted assertion_failed else returned [])
  unfolding authentication_methods with_lock ◌>>=◌ call pure throw last_error_code assert_act assert
      Userauth.fetch_list
  authentication_methods-none split w l missing zero_error =
      rw (l, missing, zero_error) (ground arith)
