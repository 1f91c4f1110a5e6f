-- ===== src/Filesystem/Directory.antt =====
-- What the result of `create_directory` of ssh/filesystem.hpp says about the path.
use ssh2_cpp.Base.{◌≡◌, refl, ◌∙◌, ap, arith, Bool, true, false, Text, ◌⊎◌, inl, inr, Bool-cases}
use ssh2_cpp.Libssh2.{Libssh2}
use ssh2_cpp.Effect.{
  ◌>>◌, M, World, Outcome, returned, thrown, faulted, Exception, ExceptionKind, system_error,
  logic_error, invalid_argument, range_error, runtime_error, bad_alloc, user_exception, pure, throw,
  catch, handle, continue, with_lock, ◌>>=◌,
}
use ssh2_cpp.State.{SftpChannelState}
use ssh2_cpp.Wrapper.Sftp
use ssh2_cpp.Filesystem.{
  PathStatus, non_existent, non_directory, is_directory, check_status, if_system_error,
  catch_system_error, existing_directory, directory_mode, create_directory,
}

module _ {S A : Type 0} where
  only-true :
      (r : Outcome A) (v : World S) (b : Bool)
      → (continue r (λ _. pure true) v).0 ≡ returned b
      → b ≡ true
  unfolding pure
  only-true (returned a) v b h = ground arith
  only-true (thrown e) v b h = absurd (ground arith)
  only-true (faulted f) v b h = absurd (ground arith)

  locked_only-true :
      (m : M S A) (w : World S) (b : Bool)
      → (with_lock (m >>= λ _. pure true) w).0 ≡ returned b
      → b ≡ true
  unfolding with_lock ◌>>=◌
  locked_only-true m w b h = elim (Bool-cases w.locked) [
    | inl l ↦ absurd (ground (arith, rw l at h))
    | inr l ↦ let v = record w { locked = true } in only-true (m v).0 (m v).1 b (rw l at h)
  ]

-- The exception is a `system_error`.
abbrev pub FromSystem : ExceptionKind → Type 0
FromSystem (system_error ec message) = Unit
FromSystem _ = ⊥

module _ {S : Type 0} (api : Libssh2 S) (fs : SftpChannelState) (path : Text) where
  -- The call that makes the directory.
  abbrev pub attempt : M S Bool
  attempt = with_lock (do
    Sftp.mkdir_ex api fs.session.session_ptr fs.sftp_ptr path (directory_mode api fs)
    pure true)

  -- The path is a directory in the world that the failed attempt left.
  abbrev pub FoundDirectory : World S → Type 0
  FoundDirectory w = (check_status api fs path w).0 ≡ returned is_directory

  found_status :
      (e : Exception) (r : Outcome PathStatus) (v : World S) (b : Bool)
      → (continue r (existing_directory api fs e) v).0 ≡ returned b
      → (b ≡ false) × (r ≡ returned is_directory)
  unfolding existing_directory pure throw
  found_status e (returned is_directory) v b h = (ground arith, refl)
  found_status e (returned non_directory) v b h = absurd (ground arith)
  found_status e (returned non_existent) v b h = absurd (ground arith)
  found_status e (thrown x) v b h = absurd (ground arith)
  found_status e (faulted f) v b h = absurd (ground arith)

  handled :
      (e : Exception) (k : ExceptionKind) (v : World S) (b : Bool)
      → (if_system_error
          (λ e. do status ← check_status api fs path; existing_directory api fs e status)
          e
          k
          v).0
        ≡ returned b
      → (b ≡ false) × FromSystem k × FoundDirectory v
  unfolding if_system_error ◌>>=◌ throw
  handled e (system_error ec message) v b h =
      let (f, found) =
        found_status e (check_status api fs path v).0 (check_status api fs path v).1 b h in
      (f, tt, found)
  handled e (logic_error _) v b h = absurd (ground arith)
  handled e (invalid_argument _) v b h = absurd (ground arith)
  handled e (range_error _) v b h = absurd (ground arith)
  handled e (runtime_error _) v b h = absurd (ground arith)
  handled e (bad_alloc _) v b h = absurd (ground arith)
  handled e (user_exception _) v b h = absurd (ground arith)

  -- The attempt threw this error, and after it the path is found to be a directory.
  abbrev pub FailedOnDirectory : Outcome Bool → World S → Type 0
  FailedOnDirectory r v =
      (e : Exception) × (r ≡ thrown e) × (FromSystem e.kind) × (FoundDirectory v)

  attempted :
      (r : Outcome Bool) (v : World S) (b : Bool)
      → (handle
          (λ e.
            if_system_error
              (λ e. do status ← check_status api fs path; existing_directory api fs e status)
              e
              e.kind)
          r
          v).0
        ≡ returned b
      → (r ≡ returned b) ⊎ ((b ≡ false) × FailedOnDirectory r v)
  attempted (returned a) v b h = inl h
  attempted (thrown e) v b h =
      let (f, s, found) = handled e e.kind v b h in inr (f, (e, refl, s, found))
  attempted (faulted f) v b h = inl h

  -- `create_directory` returns only if the attempt to make the directory returned, and then `true`, or
  -- if the attempt threw a `system_error` and the path is then found to be a directory, and then
  -- `false`.
  pub create_directory-returned :
      (w : World S) (b : Bool)
      → (create_directory api fs path w).0 ≡ returned b
      → ((b ≡ true) × ((attempt w).0 ≡ returned true))
        ⊎ ((b ≡ false) × FailedOnDirectory (attempt w).0 (attempt w).1)
  unfolding create_directory catch_system_error catch
  create_directory-returned w b h = elim (attempted (attempt w).0 (attempt w).1 b h) [
    | inl r ↦ let t = locked_only-true _ w b r in inl (t, r ∙ ap returned t)
    | inr found ↦ inr found
  ]
