-- ===== src/Session/Interactive.antt =====
-- What the authentications of ssh/session.hpp return and throw.
use ssh2_cpp.Wrapper.Userauth
use ssh2_cpp.Effect.Laws.{assert-true, nonzero}
use ssh2_cpp.Error.{last_error_code}
use ssh2_cpp.Session.{authenticate_interactively}
use ssh2_cpp.State.{SessionState}
use ssh2_cpp.Error.Condition.{permission_denied, equals_errc-ssh}
use ssh2_cpp.Base.{
  is_zero, Bool-cases, inl, inr, eqb_ℤ, if◌then◌else◌, pos, ◌≢◌, ℤ, arith, ◌≡◌, refl, ◌∙◌, ap, ℕ,
  Bool, true, false, ◌||◌, List, [], ◌∷◌, Option, none, some, Text,
}
use ssh2_cpp.Libssh2.{authentication_failed, HasDistinctCodes, Libssh2, Challenge, Translator}
use ssh2_cpp.Effect.{
  no_error, call, with_lock, ssh, World, pure, assert, throw, ◌>>=◌, Outcome, returned, thrown,
  ErrorCode, plain, system_error, user_exception,
}
use ssh2_cpp.Session.Translator.{
  fresh_translator, translate_status, rejected, Response, responses, raises, Responder,
  convert_prompts, string_of, after_response, call_responder,
}

-- libssh2 calls the callback for each challenge in turn, on the same `abstract`.
unfoldable pub ask :
    (Challenge → Translator → List Text × Translator) → Translator → List Challenge → Translator
ask callback t [] = t
ask callback t (c ∷ cs) = ask callback (callback c t).1 cs

abbrev pub raised : Response → Option ℕ → Option ℕ
raised (responses rs) before = before
raised (raises x) before = some x

-- The last exception that the responder throws at the challenges, or else the given one.
unfoldable pub last_raised : Responder → List Challenge → Option ℕ → Option ℕ
unfolding convert_prompts string_of
last_raised responder [] before = before
last_raised responder (c ∷ cs) before = last_raised responder cs (
    raised (responder (string_of c.name) (string_of c.instruction) (convert_prompts c.prompts))
      before)

abbrev pub is_asked : List Challenge → Bool
is_asked [] = false
is_asked (c ∷ cs) = true

after_response_lem :
    (responder : Responder) (c : Challenge) (r : Response) (t : Translator)
    → (after_response c.prompts r t).1 ≡ record t { exception = raised r t.exception }
unfolding after_response
after_response_lem responder c (responses rs) t = refl
after_response_lem responder c (raises x) t = refl

asked_translator :
    (responder : Responder) (called : Bool) (exception : Option ℕ) (cs : List Challenge)
    → ask (call_responder responder) (record { called = called; exception = exception }) cs
      ≡ record { called = called || is_asked cs; exception = last_raised responder cs exception }
unfolding ask last_raised call_responder
asked_translator responder true exception [] = refl
asked_translator responder false exception [] = refl
asked_translator responder true exception (c ∷ cs) =
    ap (λ t. ask (call_responder responder) t cs) (after_response_lem responder c _ _)
    ∙ asked_translator responder true _ cs
asked_translator responder false exception (c ∷ cs) =
    ap (λ t. ask (call_responder responder) t cs) (after_response_lem responder c _ _)
    ∙ asked_translator responder true _ cs

-- What an authentication that the server rejects comes to.
abbrev pub rejection : ErrorCode → Text → Bool → Option ℕ → Outcome Bool
rejection ec message false exception = thrown (plain (system_error ec message))
rejection ec message true (some x) = thrown (plain (user_exception x))
rejection ec message true none = returned false

translate_status_ok :
    {S : Type 0} (api : Libssh2 S) (t : Translator) (w : World S)
    → (translate_status api no_error [] t w).0 ≡ returned true
unfolding translate_status pure
translate_status_ok api t w = refl

module _ {S : Type 0} (api : Libssh2 S) (d : HasDistinctCodes api.codes) where
  rejected_lem :
      (ec : ErrorCode) (message : Text) (asked : Bool) (exception : Option ℕ) (w : World S)
      → (asked ≡ false → exception ≡ none)
      → (rejected api ec message asked exception w).0 ≡ rejection ec message asked exception
  unfolding rejected ◌>>=◌ assert pure throw
  rejected_lem ec message false exception w h = ground (arith, h refl)
  rejected_lem ec message true (some x) w h = refl
  rejected_lem ec message true none w h = ground arith

  never_asked :
      (responder : Responder) (cs : List Challenge)
      → is_asked cs ≡ false
      → last_raised responder cs none ≡ none
  unfolding last_raised
  never_asked responder [] h = refl
  never_asked responder (c ∷ cs) h = absurd (ground arith)

  translate_status_lem :
      (v : ℤ) (message : Text) (responder : Responder) (cs : List Challenge) (w : World S)
      → v ≢ pos 0
      → (translate_status api
          (record { value = v; category = ssh })
          message
          (ask (call_responder responder) fresh_translator cs)
          w).0
        ≡ (if eqb_ℤ v (api.codes.ssh_error authentication_failed)
            then rejection
                (record { value = v; category = ssh })
                message
                (is_asked cs)
                (last_raised responder cs none)
            else thrown (plain (system_error (record { value = v; category = ssh }) message)))
  unfolding translate_status throw
  translate_status_lem v message responder cs w n =
      rw (asked_translator responder false none cs, equals_errc-ssh api.codes d v permission_denied)
        (ground (
          arith,
          rejected_lem (record { value = v; category = ssh }) message (is_asked cs)
              (last_raised responder cs none) w (never_asked responder cs),
        ))

module _ {S : Type 0} (api : Libssh2 S) (d : HasDistinctCodes api.codes) (session : SessionState)
    (username : Text) where
  -- What libssh2 answers to an interactive authentication, and then to a question for its last error.
  abbrev pub interactive_answer : Responder → World S → (ℤ × Translator) × S
  interactive_answer responder w =
      api.userauth.keyboard_interactive_ex session.session_ptr username (call_responder responder)
        fresh_translator w.remote

  abbrev pub error_after : S → ℤ × Text
  error_after s = (api.session.last_error session.session_ptr s).0

  abbrev pub failed_code : S → ErrorCode
  failed_code s = record { value = (error_after s).0; category = ssh }

  -- If no two of libssh2's error codes have the same number, the mutex is free, libssh2 calls the callback
  -- for each of the challenges `cs` in turn, and reports an error that is not 0 if it fails: an interactive authentication returns `true` if libssh2
  -- succeeds, whatever the responder did. If the error is LIBSSH2_ERROR_AUTHENTICATION_FAILED, it throws
  -- the responder's last exception, returns `false` if the responder was called and threw none, and
  -- throws the error if the responder was not called. Any other error it throws.
  pub authenticate_interactively_lem :
      (responder : Responder) (cs : List Challenge) (w : World S)
      → w.locked ≡ false
      → (interactive_answer responder w).0.1 ≡ ask (call_responder responder) fresh_translator cs
      → (is_zero (interactive_answer responder w).0.0 ≡ false
          → (error_after (interactive_answer responder w).1).0 ≢ pos 0)
      → (authenticate_interactively api session username responder w).0 ≡ (
          let s = (interactive_answer responder w).1 in
          if is_zero (interactive_answer responder w).0.0
          then returned true
          else if eqb_ℤ (error_after s).0 (api.codes.ssh_error authentication_failed)
          then rejection
              (failed_code s)
              (error_after s).1
              (is_asked cs)
              (last_raised responder cs none)
          else thrown (plain (system_error (failed_code s) (error_after s).1)))
  unfolding authenticate_interactively with_lock ◌>>=◌ call pure last_error_code
      Userauth.fetch_keyboard_interactive_ex
  authenticate_interactively_lem responder cs w l asked reported =
      elim (Bool-cases (is_zero (interactive_answer responder w).0.0)) [
        | inl ok ↦ rw (l, ok, asked) (translate_status_ok api _ _)
        | inr bad ↦
            rw (l, bad, asked, nonzero (reported bad), assert-true)
              ((translate_status_lem api d _ _ responder cs _ (reported bad)))
      ]
