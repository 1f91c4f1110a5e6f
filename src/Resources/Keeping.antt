-- ===== src/Resources/Keeping.antt =====
-- Actions that neither take from libssh2 nor give back to it what has to be given back.
use ssh2_cpp.Base.{
  ◌≡◌, refl, ◌∙◌, Bool, true, false, not, ◌&&◌, List, if◌then◌else◌, Bool-cases, inl, inr,
}
use ssh2_cpp.Libssh2.{ApiFunction}
use ssh2_cpp.Effect.{
  M, World, Outcome, returned, thrown, faulted, Exception, Fault, pure, throw, fault, call, peek,
  with_lock, catch, handle, continue, assert, ◌>>=◌,
}
use ssh2_cpp.Resources.{Resource, Balances, Settles}

module _ {S : Type 0} (live : S → List Resource) where
  -- However `m` ends, what was live is live.
  pub record KeepsLive {A : Type 0} (m : M S A) : Type 0 where
    pub at : (w : World S) → live (m w).1.remote ≡ live w.remote

  -- A step of libssh2 that keeps what is live.
  abbrev pub Neutral : {A : Type 0} → (S → A × S) → Type 0
  Neutral step = (s : S) → live (step s).1 ≡ live s

  module _ {A : Type 0} where
    pub KeepsLive-pure : (a : A) → KeepsLive (pure {S = S} a)
    unfolding pure
    KeepsLive-pure a = record { at = λ w. refl }

    pub KeepsLive-throw : (e : Exception) → KeepsLive (throw {S = S} {A = A} e)
    unfolding throw
    KeepsLive-throw e = record { at = λ w. refl }

    pub KeepsLive-fault : (f : Fault) → KeepsLive (fault {S = S} {A = A} f)
    unfolding fault
    KeepsLive-fault f = record { at = λ w. refl }

    pub KeepsLive-peek : (look : S → A) → KeepsLive (peek look)
    unfolding peek
    KeepsLive-peek look = record { at = λ w. refl }

    pub KeepsLive-call :
        (f : ApiFunction) (step : S → A × S) → Neutral step → KeepsLive (call f step)
    unfolding call
    KeepsLive-call f step n = record { at = λ w. n w.remote }

    pub KeepsLive-if :
        (t : Bool) (m n : M S A) → KeepsLive m → KeepsLive n → KeepsLive (if t then m else n)
    KeepsLive-if true m n km kn = km
    KeepsLive-if false m n km kn = kn

    pub KeepsLive-with_lock : (m : M S A) → KeepsLive m → KeepsLive (with_lock m)
    unfolding with_lock
    KeepsLive-with_lock m k = record {
      at = λ w. elim (Bool-cases w.locked) [
        | inl l ↦ rw l refl
        | inr l ↦ rw l (k.at (record w { locked = true }))
      ];
    }

    handle-KeepsLive :
        (handler : Exception → M S A) (r : Outcome A) (v : World S)
        → ((e : Exception) → KeepsLive (handler e))
        → live (handle handler r v).1.remote ≡ live v.remote
    handle-KeepsLive handler (returned a) v k = refl
    handle-KeepsLive handler (thrown e) v k = (k e).at v
    handle-KeepsLive handler (faulted f) v k = refl

    pub KeepsLive-catch :
        (m : M S A) (handler : Exception → M S A)
        → KeepsLive m
        → ((e : Exception) → KeepsLive (handler e))
        → KeepsLive (catch m handler)
    unfolding catch
    KeepsLive-catch m handler km kh = record {
      at = λ w. handle-KeepsLive handler (m w).0 (m w).1 kh ∙ km.at w;
    }

  module _ {A B : Type 0} where
    continue-KeepsLive :
        (f : A → M S B) (r : Outcome A) (v : World S)
        → ((a : A) → KeepsLive (f a))
        → live (continue r f v).1.remote ≡ live v.remote
    continue-KeepsLive f (returned a) v k = (k a).at v
    continue-KeepsLive f (thrown e) v k = refl
    continue-KeepsLive f (faulted x) v k = refl

    pub KeepsLive-bind :
        (m : M S A) (f : A → M S B)
        → KeepsLive m
        → ((a : A) → KeepsLive (f a))
        → KeepsLive (m >>= f)
    unfolding ◌>>=◌
    KeepsLive-bind m f km kf = record {
      at = λ w. continue-KeepsLive f (m w).0 (m w).1 kf ∙ km.at w;
    }

  pub KeepsLive-assert : (t : Bool) → KeepsLive (assert {S = S} t)
  unfolding assert
  KeepsLive-assert t = record {
    at = λ w. elim (Bool-cases (w.debug && not t)) [ inl e ↦ rw e refl | inr e ↦ rw e refl ];
  }

  Settles-kept :
      {A : Type 0} (l l' : List Resource) (r : Outcome A)
      → l' ≡ l
      → Settles (λ _ l''. l'' ≡ l) l r l'
  Settles-kept l l' (returned a) e = e
  Settles-kept l l' (thrown x) e = e
  Settles-kept l l' (faulted f) e = tt

  pub KeepsLive-Balances :
      {A : Type 0} (l : List Resource) (m : M S A)
      → KeepsLive m
      → Balances live l m (λ _ l'. l' ≡ l) l
  KeepsLive-Balances l m k = record { at = λ w e. Settles-kept l _ (m w).0 (k.at w ∙ e) }

pub ruleset keeping_rules = (
  KeepsLive-pure, KeepsLive-throw, KeepsLive-fault, KeepsLive-peek, KeepsLive-call, KeepsLive-if,
  KeepsLive-with_lock, KeepsLive-catch, KeepsLive-bind, KeepsLive-assert,
)
