-- ===== src/Resources.antt =====
-- What the objects of ssh/detail/*_state.hpp, ssh/agent.hpp, ssh/knownhost.hpp and ssh/filesystem.hpp own in
-- libssh2: sessions, channels, handles, agents and collections that it gave out and has to take back.
pub mod Keeping
pub mod Ledger
pub mod Taking
pub mod States
pub mod Directories
pub mod Removal
pub mod Owners
pub mod Balance
use ssh2_cpp.Base.{
  ◌≡◌, refl, ℕ, Bool, true, false, none, some, List, ◌∷◌, Ptr, if◌then◌else◌, Bool-cases, inl, inr,
  not, ◌&&◌,
}
use ssh2_cpp.Libssh2.{ApiFunction}
use ssh2_cpp.Effect.{
  M, World, Outcome, returned, thrown, faulted, Exception, Fault, pure, throw, fault, call,
  with_lock, catch, handle, continue, ◌>>=◌, assert,
}

pub data Resource : Type 0 where
  a_session a_channel a_handle an_agent a_collection : ℕ → Resource

-- `l` with what a pointer owns.
abbrev pub owned : (ℕ → Resource) → Ptr → List Resource → List Resource
owned r none l = l
owned r (some p) l = r p ∷ l

-- What is live after an action: as `q` says if it returned, and `failed` if it threw.
abbrev pub Settles :
    {A : Type 0} → (A → List Resource → Type 0) → List Resource → Outcome A → List Resource → Type 0
Settles q failed (returned a) l = q a l
Settles q failed (thrown e) l = l ≡ failed
Settles q failed (faulted f) l = Unit

module _ {S : Type 0} (live : S → List Resource) where
  -- `m`, begun with `before` live.
  pub record Balances {A : Type 0} (before : List Resource) (m : M S A)
      (q : A → List Resource → Type 0) (failed : List Resource) : Type 0 where
    pub at : (w : World S) → live w.remote ≡ before → Settles q failed (m w).0 (live (m w).1.remote)

  module _ {A : Type 0} {q : A → List Resource → Type 0} {failed : List Resource} where
    Settles-handle :
        (mid : List Resource) (handler : Exception → M S A) (r : Outcome A) (v : World S)
        → Settles q mid r (live v.remote)
        → ((e : Exception) → Balances mid (handler e) q failed)
        → Settles q failed (handle handler r v).0 (live (handle handler r v).1.remote)
    Settles-handle mid handler (returned a) v s k = s
    Settles-handle mid handler (thrown e) v s k = (k e).at v s
    Settles-handle mid handler (faulted f) v s k = tt

  module _ {A : Type 0} {q : A → List Resource → Type 0} {before failed : List Resource} where
    pub Balances-pure : (a : A) → q a before → Balances before (pure {S = S} a) q failed
    unfolding pure
    Balances-pure a h = record { at = λ w e. rw e h }

    pub Balances-throw :
        (e : Exception) → before ≡ failed → Balances before (throw {S = S} e) q failed
    unfolding throw
    Balances-throw x h = record { at = λ w e. rw e h }

    pub Balances-fault : (f : Fault) → Balances before (fault {S = S} f) q failed
    unfolding fault
    Balances-fault f = record { at = λ w e. tt }

    pub Balances-call :
        (f : ApiFunction) (step : S → A × S)
        → ((s : S) → live s ≡ before → q (step s).0 (live (step s).1))
        → Balances before (call f step) q failed
    unfolding call
    Balances-call f step h = record { at = λ w e. h w.remote e }

    pub Balances-if :
        (t : Bool) (m n : M S A)
        → Balances before m q failed
        → Balances before n q failed
        → Balances before (if t then m else n) q failed
    Balances-if true m n bm bn = bm
    Balances-if false m n bm bn = bn

    pub Balances-with_lock :
        (m : M S A) → Balances before m q failed → Balances before (with_lock m) q failed
    unfolding with_lock
    Balances-with_lock m b = record {
      at = λ w e. elim (Bool-cases w.locked) [
        | inl l ↦ rw l tt
        | inr l ↦ rw l (b.at (record w { locked = true }) e)
      ];
    }

    pub Balances-catch :
        (mid : List Resource) (m : M S A) (handler : Exception → M S A)
        → Balances before m q mid
        → ((e : Exception) → Balances mid (handler e) q failed)
        → Balances before (catch m handler) q failed
    unfolding catch
    Balances-catch mid m handler b k = record {
      at = λ w e. Settles-handle mid handler (m w).0 (m w).1 (b.at w e) k;
    }

  module _ {A B : Type 0} (q : A → List Resource → Type 0) {failed : List Resource} where
    Settles-continue :
        (q' : B → List Resource → Type 0) (k : A → M S B) (r : Outcome A) (v : World S)
        → Settles q failed r (live v.remote)
        → ((a : A) (l : List Resource) → q a l → Balances l (k a) q' failed)
        → Settles q' failed (continue r k v).0 (live (continue r k v).1.remote)
    Settles-continue q' k (returned a) v s b = (b a (live v.remote) s).at v refl
    Settles-continue q' k (thrown e) v s b = s
    Settles-continue q' k (faulted f) v s b = tt

  module _ {A B : Type 0} (q : A → List Resource → Type 0) {before failed : List Resource} where
    pub Balances-bind :
        {q' : B → List Resource → Type 0} (m : M S A) (k : A → M S B)
        → Balances before m q failed
        → ((a : A) (l : List Resource) → q a l → Balances l (k a) q' failed)
        → Balances before (m >>= k) q' failed
    unfolding ◌>>=◌
    Balances-bind {q'} m k b h = record {
      at = λ w e. Settles-continue q q' k (m w).0 (m w).1 (b.at w e) h;
    }

  pub Balances-assert :
      {before failed : List Resource} (t : Bool)
      → Balances before (assert {S = S} t) (λ _ l. l ≡ before) failed
  unfolding assert
  Balances-assert t = record {
    at = λ w e. elim (Bool-cases (w.debug && not t)) [ inl d ↦ rw d tt | inr d ↦ rw d e ];
  }
