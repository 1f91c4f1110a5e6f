-- ===== src/Effect.antt =====
-- C++ code that changes state and may throw, as actions over a world: the state of libssh2 and the
-- server, the session's mutex, and a trace of the calls made into libssh2.
pub mod Errors
pub mod Laws
pub mod Locking
pub use Errors.*
use ssh2_cpp.Base.{ℕ, Bool, true, false, not, ◌&&◌, List, ◌∷◌, if◌then◌else◌}
use ssh2_cpp.Libssh2.{ApiFunction}

-- How a run ends otherwise than by returning or throwing: a thread waits for a mutex that it holds,
-- an assertion of a debug build fails, the behaviour is undefined, or the fuel of a loop is used up.
pub data Fault : Type 0 where
  deadlock assertion_failed undefined_behaviour out_of_fuel : Fault

pub data Outcome {ℓ} (A : Type ℓ) : Type ℓ where
  returned : A → Outcome A
  thrown : Exception → Outcome A
  faulted : Fault → Outcome A

-- A call into libssh2, and whether the session's mutex was held.
pub record Call : Type 0 where
  pub function : ApiFunction
  pub under_lock : Bool

-- `debug` says whether assertions are compiled; the newest call comes first.
pub record World (S : Type 0) : Type 0 where
  pub remote : S
  pub locked : Bool
  pub debug : Bool
  pub calls : List Call

abbrev pub M : Type 0 → Type 0 → Type 0
M S A = World S → Outcome A × World S

module _ {S A : Type 0} where
  unfoldable pub pure : A → M S A
  pure a w = (returned a, w)

  unfoldable pub throw : Exception → M S A
  throw e w = (thrown e, w)

  unfoldable pub fault : Fault → M S A
  fault f w = (faulted f, w)

  -- a call into libssh2
  unfoldable pub call : ApiFunction → (S → A × S) → M S A
  call f step w =
      let (a, s) = step w.remote in
      (
        returned a,
        record w { remote = s; calls = record { function = f; under_lock = w.locked } ∷ w.calls },
      )

  -- a look at memory that libssh2 owns, which is no call
  unfoldable pub peek : (S → A) → M S A
  peek look w = (returned (look w.remote), w)

  -- the block in which a `scoped_lock` on the session's mutex lives; the mutex is not recursive
  unlock : Outcome A × World S → Outcome A × World S
  unlock (r, w) = (r, record w { locked = false })

  unfoldable pub with_lock : M S A → M S A
  unfolding unlock
  with_lock m w =
      if w.locked then (faulted deadlock, w) else unlock (m (record w { locked = true }))

  -- `try { m } catch (...) { handler }`
  abbrev pub handle : (Exception → M S A) → Outcome A → M S A
  handle handler (returned a) w = (returned a, w)
  handle handler (thrown e) w = handler e w
  handle handler (faulted f) w = (faulted f, w)

  unfoldable pub catch : M S A → (Exception → M S A) → M S A
  catch m handler w = let (r, w') = m w in handle handler r w'

module _ {S A B : Type 0} where
  abbrev pub continue : Outcome A → (A → M S B) → M S B
  continue (returned a) f w = f a w
  continue (thrown e) f w = (thrown e, w)
  continue (faulted x) f w = (faulted x, w)

  infixl 5 ◌>>=◌ ◌>>◌
  unfoldable pub ◌>>=◌ : M S A → (A → M S B) → M S B
  ◌>>=◌ m f w = let (r, w') = m w in continue r f w'

  abbrev pub ◌>>◌ : M S A → M S B → M S B
  m >> n = m >>= λ _. n

-- `assert(b)`, which a release build leaves out
module _ {S : Type 0} where
  unfoldable pub assert : Bool → M S (Unit {0})
  assert b w = if w.debug && not b then (faulted assertion_failed, w) else (returned tt, w)

  -- `assert(m)` where the asserted expression itself acts
  unfoldable pub assert_act : M S Bool → M S (Unit {0})
  unfolding ◌>>=◌ assert
  assert_act m w = if w.debug then (m >>= assert) w else (returned tt, w)

-- code that computes a value or throws, and changes nothing
module _ {S A : Type 0} where
  unfoldable pub lift : Outcome A → M S A
  lift r w = (r, w)
