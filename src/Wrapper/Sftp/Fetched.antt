-- ===== src/Wrapper/Sftp/Fetched.antt =====
-- The error that is fetched after an SFTP function that failed.
use ssh2_cpp.Base.{refl, eqb_ℤ_iff, ◌≡◌, ◌≢◌, arith, ℕ, ℤ, pos, is_negative, true, Text, Ptr}
use ssh2_cpp.Libssh2.{Libssh2, sftp_protocol}
use ssh2_cpp.Effect.{World, returned, pure, call, ◌>>=◌}
use ssh2_cpp.Error.{int_of_ulong, last_error_code, last_sftp_error_code, throw_if_error}
use ssh2_cpp.Wrapper.Sftp
use ssh2_cpp.Effect.Laws.{assert-true, nonzero}

module _ {S : Type 0} (api : Libssh2 S) (session channel : Ptr) where
  abbrev pub ssh_error_at : S → (ℤ × Text) × S
  ssh_error_at s = api.session.last_error session s

  abbrev pub sftp_error_at : S → ℕ
  sftp_error_at s = (api.sftp.last_error channel (ssh_error_at s).1).0

  -- Where unlinking fails with LIBSSH2_ERROR_SFTP_PROTOCOL, which is not 0, while the channel's last SFTP
  -- code is 0, the throwing wrapper returns as if it had succeeded.
  pub unlink_ex-swallowed :
      (path : Text) (w : World S)
      → is_negative (api.sftp.unlink_ex channel path w.remote).0 ≡ true
      → (let s = (api.sftp.unlink_ex channel path w.remote).1 in
          ((ssh_error_at s).0.0 ≡ api.codes.ssh_error sftp_protocol) × (sftp_error_at s ≡ 0))
      → api.codes.ssh_error sftp_protocol ≢ pos 0
      → (Sftp.unlink_ex api session channel path w).0 ≡ returned tt
  unfolding Sftp.unlink_ex ◌>>=◌ call pure last_sftp_error_code last_error_code throw_if_error
      int_of_ulong
  unlink_ex-swallowed path w bad (protocol, ok) n =
      rw
        (
          bad,
          protocol,
          nonzero n,
          assert-true,
          (eqb_ℤ_iff (api.codes.ssh_error sftp_protocol) _).1 refl,
          ok,
        )
        (ground arith)
