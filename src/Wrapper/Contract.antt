-- ===== src/Wrapper/Contract.antt =====
-- What ssh/detail/libssh2/libssh2.hpp promises of the throwing wrappers, as one action: the behaviour
-- is that of the wrapped function, but a failing result becomes an exception.
use ssh2_cpp.Base.{refl, ◌≡◌, Bool, Option, some, [], Text, if◌then◌else◌}
use ssh2_cpp.Libssh2.{ApiFunction}
use ssh2_cpp.Effect.{M, pure, call, ◌>>=◌, ◌>>◌}
use ssh2_cpp.Error.{fresh_slot, ErrorSlot, throw_if_error}

module _ {S A B : Type 0} where
  -- Call the function once; if its result is a failure, fetch the last error and throw it, with the
  -- function's name and the path; else return what is seen of the result.
  unfoldable pub checked :
      ApiFunction
      → Option Text
      → (Option Text → M S ErrorSlot)
      → (S → A × S)
      → (A → Bool)
      → (A → B)
      → M S B
  checked function path fetch step fails view = do
    result ← call function step
    if fails result
        then (do slot ← fetch (some []); throw_if_error slot function path; pure (view result))
        else pure (view result)
  -- Nothing is thrown for a slot that was not written to.

pub throw_if_error-fresh :
    {S : Type 0} (f : ApiFunction) (path : Option Text)
    → throw_if_error {S = S} fresh_slot f path ≡ pure tt
unfolding throw_if_error
throw_if_error-fresh f path = refl
