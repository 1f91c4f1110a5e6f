-- ===== src/Effect/Laws.antt =====
-- The laws by which `do` blocks are rewritten.
use ssh2_cpp.Base.{
  ℤ, pos, is_zero, ◌≢◌, arith, ◌≡◌, refl, fun_ext, Bool, true, false, if◌then◌else◌,
}
use ssh2_cpp.Effect.{
  assert, M, World, Outcome, returned, thrown, faulted, Exception, pure, throw, continue, ◌>>=◌,
}

module _ {S A B : Type 0} where
  pub pure-bind : (a : A) (f : A → M S B) → (pure a >>= f) ≡ f a
  unfolding ◌>>=◌ pure
  pure-bind a f = refl

  pub throw-bind : (e : Exception) (f : A → M S B) → (throw e >>= f) ≡ throw e
  unfolding ◌>>=◌ throw
  throw-bind e f = refl

  pub if-bind :
      (b : Bool) (m n : M S A) (f : A → M S B)
      → ((if b then m else n) >>= f) ≡ (if b then m >>= f else n >>= f)
  if-bind true m n f = refl
  if-bind false m n f = refl

module _ {S A : Type 0} where
  continue-pure : (r : Outcome A) (w : World S) → continue r pure w ≡ (r, w)
  unfolding pure
  continue-pure (returned a) w = refl
  continue-pure (thrown e) w = refl
  continue-pure (faulted f) w = refl

  pub bind-pure : (m : M S A) → (m >>= pure) ≡ m
  unfolding ◌>>=◌
  bind-pure m = fun_ext λ w. continue-pure (m w).0 (m w).1

module _ {S : Type 0} where
  pub bind-pure_unit : (m : M S (Unit {0})) → (m >>= λ _. pure tt) ≡ m
  bind-pure_unit m = bind-pure m

module _ {S A B C : Type 0} where
  continue-continue :
      (f : A → M S B) (g : B → M S C) (r : Outcome A) (w : World S)
      → (continue r f >>= g) w ≡ continue r (λ a. f a >>= g) w
  unfolding ◌>>=◌
  continue-continue f g (returned a) w = refl
  continue-continue f g (thrown e) w = refl
  continue-continue f g (faulted x) w = refl

  pub bind_assoc :
      (m : M S A) (f : A → M S B) (g : B → M S C) → (m >>= f >>= g) ≡ (m >>= λ a. f a >>= g)
  unfolding ◌>>=◌
  bind_assoc m f g = fun_ext λ w. continue-continue f g (m w).0 (m w).1

-- What an assertion does that holds, and why one on an error code holds.
pub assert-true : {S : Type 0} (w : World S) → assert true w ≡ (returned tt, w)
unfolding assert
assert-true w = ground arith

pub nonzero : {v : ℤ} → v ≢ pos 0 → is_zero v ≡ false
nonzero {v = v} n = ground (arith, n)

pub ruleset bind_laws = (pure-bind, throw-bind, if-bind, bind-pure, bind-pure_unit, bind_assoc)
