-- ===== src/Error/Condition.antt =====
-- The categories of ssh/ssh_error.hpp and ssh/sftp_error.hpp: which portable conditions the codes of
-- each are equal to. `==` between a code and a condition asks the code's category, as in the standard
-- library, where the other direction is for codes of the generic category, which are never made here.
use ssh2_cpp.Base.{
  ◌∙◌, sym, ℕ, ℤ, pos, eqb_ℤ, eqb_ℤ_iff, ◌≡◌, ◌≢◌, refl, Bool, true, false, if◌then◌else◌, arith,
}
use ssh2_cpp.Libssh2.{
  Codes, HasDistinctCodes, SshError, FxCode, authentication_failed, buffer_too_small,
  fx_no_such_file, fx_file_already_exists, fx_op_unsupported,
}
use ssh2_cpp.Effect.{ErrorCode, Category, system, ssh, sftp}

-- The portable conditions of `boost::system::errc` that the library names.
pub data Errc : Type 0 where
  no_such_file_or_directory file_exists operation_not_supported not_supported : Errc
  permission_denied no_buffer_space : Errc

-- `boost::system::error_condition`: a portable condition, or a number of another category.
pub data Condition : Type 0 where
  generic : Errc → Condition
  number : Category → ℤ → Condition

eqb_Errc : Errc → Errc → Bool
eqb_Errc no_such_file_or_directory no_such_file_or_directory = true
eqb_Errc file_exists file_exists = true
eqb_Errc operation_not_supported operation_not_supported = true
eqb_Errc not_supported not_supported = true
eqb_Errc permission_denied permission_denied = true
eqb_Errc no_buffer_space no_buffer_space = true
eqb_Errc _ _ = false

eqb_Category : Category → Category → Bool
eqb_Category system system = true
eqb_Category ssh ssh = true
eqb_Category sftp sftp = true
eqb_Category _ _ = false

eqb_Condition : Condition → Condition → Bool
unfolding eqb_Errc eqb_Category
eqb_Condition (generic a) (generic b) = eqb_Errc a b
eqb_Condition (number c v) (number d u) = if eqb_Category c d then eqb_ℤ v u else false
eqb_Condition (generic a) (number d u) = false
eqb_Condition (number c v) (generic b) = false

not_true : {b : Bool} → (b ≡ true → ⊥) → b ≡ false
not_true {b = true} h = absurd (h refl)
not_true {b = false} h = refl

pos_injective : {a b : ℕ} → pos a ≡ pos b → a ≡ b
pos_injective e = ground arith

module _ (k : Codes) where
  ssh_default_error_condition : ℤ → Condition
  ssh_default_error_condition code =
      if eqb_ℤ code (k.ssh_error authentication_failed)
      then generic permission_denied
      else if eqb_ℤ code (k.ssh_error buffer_too_small)
      then generic no_buffer_space
      else number ssh code

  sftp_default_error_condition : ℤ → Condition
  sftp_default_error_condition code =
      if eqb_ℤ code (pos (k.fx fx_no_such_file))
      then generic no_such_file_or_directory
      else if eqb_ℤ code (pos (k.fx fx_file_already_exists))
      then generic file_exists
      else if eqb_ℤ code (pos (k.fx fx_op_unsupported))
      then generic operation_not_supported
      else number sftp code

  sftp_equivalent : ℤ → Condition → Bool
  unfolding eqb_Condition sftp_default_error_condition
  sftp_equivalent code condition =
      if eqb_Condition condition (sftp_default_error_condition code)
      then true
      else if eqb_ℤ code (pos (k.fx fx_op_unsupported))
      then eqb_Condition condition (generic not_supported)
      else eqb_Condition condition (sftp_default_error_condition code)

  -- `ec == errc`. The base class's `equivalent` compares the default condition.
  unfoldable pub equals_errc : ErrorCode → Errc → Bool
  unfolding sftp_equivalent ssh_default_error_condition eqb_Condition
  equals_errc ec errc = elim ec.category [
    | system ↦ eqb_Condition (number system ec.value) (generic errc)
    | ssh ↦ eqb_Condition (ssh_default_error_condition ec.value) (generic errc)
    | sftp ↦ sftp_equivalent ec.value (generic errc)
  ]

  -- What each comparison means for an SFTP code, by its number.
  abbrev pub sftp_meaning : Errc → ℤ → Bool
  sftp_meaning no_such_file_or_directory v = eqb_ℤ v (pos (k.fx fx_no_such_file))
  sftp_meaning file_exists v = eqb_ℤ v (pos (k.fx fx_file_already_exists))
  sftp_meaning operation_not_supported v = eqb_ℤ v (pos (k.fx fx_op_unsupported))
  sftp_meaning not_supported v = eqb_ℤ v (pos (k.fx fx_op_unsupported))
  sftp_meaning permission_denied v = false
  sftp_meaning no_buffer_space v = false

  -- And for a code of the session.
  abbrev pub ssh_meaning : Errc → ℤ → Bool
  ssh_meaning permission_denied v = eqb_ℤ v (k.ssh_error authentication_failed)
  ssh_meaning no_buffer_space v = eqb_ℤ v (k.ssh_error buffer_too_small)
  ssh_meaning _ v = false

  module _ (d : HasDistinctCodes k) where
    not_both_fx :
        (a b : FxCode)
        → a ≢ b
        → (v : ℤ) → eqb_ℤ v (pos (k.fx a)) ≡ true
        → eqb_ℤ v (pos (k.fx b)) ≡ false
    not_both_fx a b n v h = not_true λ e.
        n (d.fx_injective a b (pos_injective (sym ((eqb_ℤ_iff v _).0 h) ∙ (eqb_ℤ_iff v _).0 e)))

    not_both_ssh :
        (a b : SshError)
        → a ≢ b
        → (v : ℤ) → eqb_ℤ v (k.ssh_error a) ≡ true
        → eqb_ℤ v (k.ssh_error b) ≡ false
    not_both_ssh a b n v h =
        not_true
          λ e. n (d.ssh_error_injective a b (sym ((eqb_ℤ_iff v _).0 h) ∙ (eqb_ℤ_iff v _).0 e))

    -- If no number has two names, an SFTP code equals exactly the conditions of the table: each of
    -- three FX codes its own condition, FX_OP_UNSUPPORTED `not_supported` too, no code any other.
    pub equals_errc-sftp :
        (v : ℤ) (errc : Errc)
        → equals_errc (record { value = v; category = sftp }) errc ≡ sftp_meaning errc v
    unfolding equals_errc
    equals_errc-sftp v no_such_file_or_directory = ground arith
    equals_errc-sftp v _ = ground (
      arith,
      not_both_fx fx_no_such_file fx_file_already_exists (λ e. cc) v,
      not_both_fx fx_no_such_file fx_op_unsupported (λ e. cc) v,
      not_both_fx fx_file_already_exists fx_op_unsupported (λ e. cc) v,
    )

    -- If no number has two names, a session's code equals `permission_denied` exactly if it is
    -- LIBSSH2_ERROR_AUTHENTICATION_FAILED, `no_buffer_space` exactly if it is
    -- LIBSSH2_ERROR_BUFFER_TOO_SMALL, and no other condition of the library.
    pub equals_errc-ssh :
        (v : ℤ) (errc : Errc)
        → equals_errc (record { value = v; category = ssh }) errc ≡ ssh_meaning errc v
    unfolding equals_errc
    equals_errc-ssh v permission_denied = ground arith
    equals_errc-ssh v _ =
        ground (arith, not_both_ssh authentication_failed buffer_too_small (λ e. cc) v)
