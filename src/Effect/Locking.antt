-- ===== src/Effect/Locking.antt =====
-- The discipline of ssh/detail/libssh2/libssh2.hpp: every call into libssh2 is made with the session's
-- mutex held, the mutex is released on every way out, and no thread waits for a mutex that it holds.
-- One rule for each way to build an action.
use ssh2_cpp.Base.{
  ◌≡◌, refl, Bool, true, false, not, ◌&&◌, List, [], ◌∷◌, if◌then◌else◌, Bool-cases, inl, inr,
}
use ssh2_cpp.Libssh2.{ApiFunction}
use ssh2_cpp.Effect.{
  M, lift, World, Outcome, returned, thrown, faulted, deadlock, assertion_failed,
  undefined_behaviour, out_of_fuel, Exception, Call, pure, throw, fault, call, peek, with_lock,
  handle, catch, continue, ◌>>=◌, assert,
}

-- Every call in the trace was made with the mutex held.
abbrev pub AllLocked : List Call → Type 0
AllLocked [] = Unit
AllLocked (c ∷ cs) = (c.under_lock ≡ true) × AllLocked cs

abbrev pub NoDeadlock {ℓ} : {A : Type ℓ} → Outcome A → Type 0
NoDeadlock (returned a) = Unit
NoDeadlock (thrown e) = Unit
NoDeadlock (faulted deadlock) = ⊥
NoDeadlock (faulted _) = Unit

-- What holds when an action ends with outcome `r` in world `w`, having begun with the mutex in
-- state `b`.
pub record Ends {A S : Type 0} (b : Bool) (r : Outcome A) (w : World S) : Type 0 where
  pub restored : w.locked ≡ b
  pub guarded : AllLocked w.calls
  pub live : NoDeadlock r

-- `m`, begun with the mutex in state `b`, keeps the discipline.
pub record Keeps {S A : Type 0} (b : Bool) (m : M S A) : Type 0 where
  pub at : (w : World S) → w.locked ≡ b → AllLocked w.calls → Ends b (m w).0 (m w).1

module _ {S A : Type 0} {b : Bool} where
  pub Keeps-pure : (a : A) → Keeps b (pure {S = S} a)
  unfolding pure
  Keeps-pure a = record { at = λ w l h. record { restored = l; guarded = h; live = tt } }

  pub Keeps-throw : (e : Exception) → Keeps b (throw {S = S} {A = A} e)
  unfolding throw
  Keeps-throw e = record { at = λ w l h. record { restored = l; guarded = h; live = tt } }

  pub Keeps-peek : (look : S → A) → Keeps b (peek look)
  unfolding peek
  Keeps-peek look = record { at = λ w l h. record { restored = l; guarded = h; live = tt } }

  pub Keeps-undefined : Keeps b (fault {S = S} {A = A} undefined_behaviour)
  unfolding fault
  Keeps-undefined = record { at = λ w l h. record { restored = l; guarded = h; live = tt } }

  pub Keeps-out_of_fuel : Keeps b (fault {S = S} {A = A} out_of_fuel)
  unfolding fault
  Keeps-out_of_fuel = record { at = λ w l h. record { restored = l; guarded = h; live = tt } }

  pub Keeps-if : (t : Bool) (m n : M S A) → Keeps b m → Keeps b n → Keeps b (if t then m else n)
  Keeps-if true m n km kn = km
  Keeps-if false m n km kn = kn

  Ends-handle :
      (handler : Exception → M S A) (r : Outcome A) (w : World S)
      → Ends b r w
      → ((e : Exception) → Keeps b (handler e))
      → Ends b (handle handler r w).0 (handle handler r w).1
  Ends-handle handler (returned a) w e k = e
  Ends-handle handler (thrown x) w e k = (k x).at w e.restored e.guarded
  Ends-handle handler (faulted f) w e k = e

  pub Keeps-catch :
      (m : M S A) (handler : Exception → M S A)
      → Keeps b m
      → ((e : Exception) → Keeps b (handler e))
      → Keeps b (catch m handler)
  unfolding catch
  Keeps-catch m handler km kh = record {
    at = λ w l h. Ends-handle handler (m w).0 (m w).1 (km.at w l h) kh;
  }

module _ {S A : Type 0} {b : Bool} where
  pub Keeps-lift : (r : Outcome A) → NoDeadlock r → Keeps b (lift {S = S} r)
  unfolding lift
  Keeps-lift r live = record { at = λ w l h. record { restored = l; guarded = h; live = live } }

-- Pure code that throws in one case and returns in the other.
pub NoDeadlock-if :
    {A : Type 0} (t : Bool) (e : Exception) (a : A)
    → NoDeadlock (if t then thrown e else returned a)
NoDeadlock-if true e a = tt
NoDeadlock-if false e a = tt

module _ {S A B : Type 0} {b : Bool} where
  Ends-continue :
      (f : A → M S B) (r : Outcome A) (w : World S)
      → Ends b r w
      → ((a : A) → Keeps b (f a))
      → Ends b (continue r f w).0 (continue r f w).1
  Ends-continue f (returned a) w e k = (k a).at w e.restored e.guarded
  Ends-continue f (thrown x) w e k = record {
    restored = e.restored;
    guarded = e.guarded;
    live = tt;
  }
  Ends-continue f (faulted deadlock) w e k = absurd e.live
  Ends-continue f (faulted assertion_failed) w e k = record {
    restored = e.restored;
    guarded = e.guarded;
    live = tt;
  }
  Ends-continue f (faulted undefined_behaviour) w e k = record {
    restored = e.restored;
    guarded = e.guarded;
    live = tt;
  }
  Ends-continue f (faulted out_of_fuel) w e k = record {
    restored = e.restored;
    guarded = e.guarded;
    live = tt;
  }

  pub Keeps-bind :
      (m : M S A) (f : A → M S B) → Keeps b m → ((a : A) → Keeps b (f a)) → Keeps b (m >>= f)
  unfolding ◌>>=◌
  Keeps-bind m f km kf = record { at = λ w l h. Ends-continue f (m w).0 (m w).1 (km.at w l h) kf }

module _ {S : Type 0} {b : Bool} where
  pub Keeps-assert : (t : Bool) → Keeps b (assert {S = S} t)
  unfolding assert
  Keeps-assert t = record {
    at = λ w l h. elim (Bool-cases (w.debug && not t)) [
      | inl e ↦ rw e (record { restored = l; guarded = h; live = tt })
      | inr e ↦ rw e (record { restored = l; guarded = h; live = tt })
    ];
  }

module _ {S A : Type 0} where
  -- A call into libssh2 needs the mutex.
  pub Keeps-call : (f : ApiFunction) (step : S → A × S) → Keeps true (call f step)
  unfolding call
  Keeps-call f step = record { at = λ w l h. record { restored = l; guarded = (l, h); live = tt } }

  Ends-open :
      (w : World S) (m : M S A)
      → w.locked ≡ false
      → AllLocked w.calls
      → Keeps true m
      → Ends false (with_lock m w).0 (with_lock m w).1
  unfolding with_lock
  Ends-open w m l h k = rw l (
      let e = k.at (record w { locked = true }) refl h in
      record { restored = refl; guarded = e.guarded; live = e.live })

  -- The block of a `scoped_lock` turns an action under the mutex into one that may be called freely.
  pub Keeps-with_lock : (m : M S A) → Keeps true m → Keeps false (with_lock m)
  Keeps-with_lock m k = record { at = λ w l h. Ends-open w m l h k }

pub ruleset locking_rules = (
  Keeps-pure, Keeps-throw, Keeps-peek, Keeps-undefined, Keeps-out_of_fuel, Keeps-if, Keeps-catch,
  Keeps-bind, Keeps-assert, Keeps-call, Keeps-with_lock,
)
