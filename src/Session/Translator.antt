-- ===== src/Session/Translator.antt =====
-- `challenge_response_translator` of ssh/session.hpp: how a responder, whose exceptions may not pass
-- through libssh2, is called back from it, and how its exception comes out again. The members of the
-- object are in a `Translator`, the session's `abstract`; the responder is a parameter.
use ssh2_cpp.Base.{
  ℕ, Bool, true, false, not, List, [], ◌∷◌, Option, none, some, Text, if◌then◌else◌,
}
use ssh2_cpp.Libssh2.{Libssh2, Prompt, Challenge, Translator}
use ssh2_cpp.Effect.{M, ErrorCode, plain, system_error, user_exception, pure, throw, assert, ◌>>◌}
use ssh2_cpp.Error.{is_error}
use ssh2_cpp.Error.Condition.{equals_errc, permission_denied}

-- What a call of the responder does: it gives a range of responses or throws an exception.
pub data Response : Type 0 where
  responses : List Text → Response
  raises : ℕ → Response

-- the name, the instruction and the prompts, each with its `echo`
abbrev pub Responder : Type 0
Responder = Text → Text → List (Text × Bool) → Response

unfoldable pub convert_prompts : List Prompt → List (Text × Bool)
convert_prompts [] = []
convert_prompts (p ∷ ps) = (p.text, p.echo) ∷ convert_prompts ps

-- An optional string, which is a null pointer if it is missing.
unfoldable pub string_of : Option Text → Text
string_of none = []
string_of (some t) = t

-- The walk over the raw responses and the responder's, which ends with the shorter: a raw response
-- that is not reached stays blank.
unfoldable pub convert_responses : List Prompt → List Text → List Text
convert_responses [] rs = []
convert_responses (p ∷ ps) [] = [] ∷ convert_responses ps []
convert_responses (p ∷ ps) (r ∷ rs) = r ∷ convert_responses ps rs

-- The end of `operator()`, by what the responder did.
unfoldable pub after_response : List Prompt → Response → Translator → List Text × Translator
unfolding convert_responses
after_response prompts (responses rs) t = (convert_responses prompts rs, t)
after_response prompts (raises x) t =
    (convert_responses prompts [], record t { exception = some x })

-- `operator()`, which `dethunker` calls on the session's `abstract`
unfoldable pub call_responder : Responder → Challenge → Translator → List Text × Translator
unfolding convert_prompts string_of after_response
call_responder responder c t =
    after_response c.prompts
      (responder (string_of c.name) (string_of c.instruction) (convert_prompts c.prompts))
      (record t { called = true })

-- `challenge_response_translator(resp)`
abbrev pub fresh_translator : Translator
fresh_translator = record { called = false; exception = none }

abbrev is_none : Option ℕ → Bool
is_none none = true
is_none (some x) = false

module _ {S : Type 0} (api : Libssh2 S) where
  -- The case of `permission_denied`, by whether the responder was called and its exception.
  unfoldable pub rejected : ErrorCode → Text → Bool → Option ℕ → M S Bool
  rejected ec message false exception = do
    assert (is_none exception)
    throw (plain (system_error ec message))
  rejected ec message true (some x) = throw (plain (user_exception x))
  rejected ec message true none = do assert true; pure false

  unfoldable pub translate_status : ErrorCode → Text → Translator → M S Bool
  unfolding rejected
  translate_status ec message t =
      if not (is_error ec)
      then pure true
      else if equals_errc api.codes ec permission_denied
      then rejected ec message t.called t.exception
      else throw (plain (system_error ec message))
