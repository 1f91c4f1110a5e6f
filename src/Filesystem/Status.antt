-- ===== src/Filesystem/Status.antt =====
-- The two tests of a path in ssh/filesystem.hpp, `exists` and `check_status`, compared.
use ssh2_cpp.State.{SftpChannelState}
use ssh2_cpp.Libssh2.{Libssh2}
use ssh2_cpp.Base.{fun_ext, Text, ◌≡◌, refl, Bool, true, false, if◌then◌else◌}
use ssh2_cpp.Effect.{
  catch, M, World, Outcome, returned, thrown, faulted, Exception, ExceptionKind, system_error,
  logic_error, invalid_argument, range_error, runtime_error, bad_alloc, user_exception, pure, throw,
  ◌>>=◌, handle, continue,
}
use ssh2_cpp.Filesystem.{
  status_of_type, attributes, is_missing, catch_system_error, check_status, exists, PathStatus,
  non_existent, non_directory, is_directory, if_system_error,
}
use ssh2_cpp.Filesystem.Attribute.{FileAttributes, FileType, directory, type}

-- Whether a status is of a path that is there.
unfoldable pub is_present : PathStatus → Bool
is_present non_existent = false
is_present non_directory = true
is_present is_directory = true

module _ {S : Type 0} where
  missing-agrees :
      (e : Exception) (k : ExceptionKind) (b : Bool) (w : World S)
      → if_system_error (λ x. if b then pure false else throw x) e k w
        ≡ (if_system_error (λ x. if b then pure non_existent else throw x) e k >>= λ s.
              pure (is_present s))
            w
  unfolding if_system_error ◌>>=◌ pure throw is_present
  missing-agrees e (system_error ec message) true w = refl
  missing-agrees e (system_error ec message) false w = refl
  missing-agrees e (logic_error _) b w = refl
  missing-agrees e (invalid_argument _) b w = refl
  missing-agrees e (range_error _) b w = refl
  missing-agrees e (runtime_error _) b w = refl
  missing-agrees e (bad_alloc _) b w = refl
  missing-agrees e (user_exception _) b w = refl

  both_attribute_outcomes :
      (h : Exception → M S Bool) (h' : Exception → M S PathStatus) (f : FileAttributes → PathStatus)
      → ((a : FileAttributes) → is_present (f a) ≡ true)
      → ((e : Exception) (w : World S)
          → if_system_error h e e.kind w
            ≡ (if_system_error h' e e.kind >>= λ s. pure (is_present s)) w)
      → (r : Outcome FileAttributes) (w : World S)
      → (let (x, v) = continue r (λ _. pure true) w in handle (λ e. if_system_error h e e.kind) x v)
        ≡ ((λ (w : World S).
                let (x, v) = continue r (λ a. pure (f a)) w in
                handle (λ e. if_system_error h' e e.kind) x v)
              >>= λ s. pure (is_present s))
            w
  unfolding ◌>>=◌ pure
  both_attribute_outcomes h h' f present missing (returned a) w = rw (present a) refl
  both_attribute_outcomes h h' f present missing (thrown e) w = missing e w
  both_attribute_outcomes h h' f present missing (faulted x) w = refl

present_status : (t : FileType) → is_present (status_of_type t) ≡ true
unfolding is_present status_of_type
present_status directory = refl
present_status _ = refl

module _ {S : Type 0} (api : Libssh2 S) (fs : SftpChannelState) where
  -- `exists` is `check_status` reduced to whether the path is there: the same calls, and `false` exactly
  -- for a path that is not; any other exception passes through both.
  pub exists-check_status :
      (path : Text)
      → exists api fs path ≡ (do status ← check_status api fs path; pure (is_present status))
  unfolding exists check_status catch_system_error catch ◌>>=◌
  exists-check_status path = fun_ext λ w.
      both_attribute_outcomes _ _ _ (λ a. present_status (type api a))
        (λ e v. missing-agrees e e.kind (is_missing api e) v) (attributes api fs path false w).0
        (attributes api fs path false w).1
