-- ===== src/Resources/Taking.antt =====
-- The wrappers of ssh/detail/libssh2 that take an object from libssh2.
use ssh2_cpp.Base.{
  ◌≡◌, refl, ◌∙◌, ap, ℕ, Bool, Option, none, some, List, ◌∷◌, Text, Ptr, if◌then◌else◌,
}
use ssh2_cpp.Libssh2.{Libssh2, ApiFunction}
use ssh2_cpp.Effect.{M, pure, call, ◌>>=◌, ◌>>◌}
use ssh2_cpp.Error.{ErrorSlot, fresh_slot, last_error_code, last_sftp_error_code, throw_if_error}
use ssh2_cpp.Wrapper.Null.{is_null}
use ssh2_cpp.Resources.{
  Resource, owned, Balances, Balances-pure, Balances-call, Balances-if, Balances-bind,
  Balances-assert,
}
use ssh2_cpp.Resources.Keeping.{KeepsLive, KeepsLive-Balances, keeping_rules}
use ssh2_cpp.Resources.Ledger.{KeepsLedger}

module _ {S : Type 0} (api : Libssh2 S) (live : S → List Resource)
    (keeps : KeepsLedger api live) where
  pub last_error-KeepsLive : (p : Ptr) (m : Option Text) → KeepsLive live (last_error_code api p m)
  unfolding last_error_code
  last_error-KeepsLive p none = search (keeping_rules, keeps.last_errno)
  last_error-KeepsLive p (some m) = search (keeping_rules, keeps.last_error)

  pub sftp_error-KeepsLive :
      (p c : Ptr) (m : Option Text) → KeepsLive live (last_sftp_error_code api p c m)
  unfolding last_sftp_error_code
  sftp_error-KeepsLive p c m = search (keeping_rules, last_error-KeepsLive, keeps.sftp_error)

  pub throw_if_error-KeepsLive :
      (slot : ErrorSlot) (f : ApiFunction) (path : Option Text)
      → KeepsLive live (throw_if_error slot f path)
  unfolding throw_if_error
  throw_if_error-KeepsLive slot f path = search keeping_rules

  -- The fetching of an error does not throw.
  pub last_error-Balances :
      (p : Ptr) (m : Option Text) (l failed : List Resource)
      → Balances live l (last_error_code api p m) (λ _ l'. l' ≡ l) failed
  unfolding last_error_code
  last_error-Balances p none l failed =
      Balances-bind live (λ _ l'. l' ≡ l) _ _
        (Balances-call live _ _ λ s e. keeps.last_errno p s ∙ e)
        λ a l' e.
          Balances-bind live (λ _ l''. l'' ≡ l') _ _ (Balances-assert live _)
            λ x l'' e'. Balances-pure live _ (e' ∙ e)
  last_error-Balances p (some m) l failed =
      Balances-bind live (λ _ l'. l' ≡ l) _ _
        (Balances-call live _ _ λ s e. keeps.last_error p s ∙ e)
        λ a l' e.
          Balances-bind live (λ _ l''. l'' ≡ l') _ _ (Balances-assert live _)
            λ x l'' e'. Balances-pure live _ (e' ∙ e)

  -- A wrapper that calls a function that changes nothing of what is live, and fetches an error.
  pub reporting-Balances :
      {A : Type 0} (f : ApiFunction) (step : S → A × S) (bad : A → Bool) (p : Ptr) (m : Option Text)
      (slot : ErrorSlot) (l failed : List Resource)
      → ((s : S) → live (step s).1 ≡ live s)
      → Balances live l
          (do rc ← call f step; if bad rc then last_error_code api p m else pure slot)
          (λ _ l'. l' ≡ l)
          failed
  reporting-Balances f step bad p m slot l failed n =
      Balances-bind live (λ _ l'. l' ≡ l) _ _ (Balances-call live f step λ s e. n s ∙ e)
        λ a l' e. rw e (
          Balances-if live (bad a) _ _ (last_error-Balances p m l failed)
            (Balances-pure live slot refl))

  -- Any action that neither takes nor gives back, before one that goes on with what is live.
  pub after_neutral :
      {A B : Type 0} {q : B → List Resource → Type 0} {l : List Resource} (m : M S A)
      (k : A → M S B)
      → KeepsLive live m
      → ((a : A) → Balances live l (k a) q l)
      → Balances live l (m >>= k) q l
  after_neutral {l = l} m k n b =
      Balances-bind live (λ _ l'. l' ≡ l) m k (KeepsLive-Balances live l m n)
        λ a l' same. rw same (b a)

  -- What a pointer that was given out owns, with an error exactly if it is null.
  abbrev Given : (ℕ → Resource) → List Resource → Ptr × ErrorSlot → List Resource → Type 0
  Given r l (none, slot) l' = l' ≡ l
  Given r l (some p, slot) l' = (l' ≡ r p ∷ l) × (slot ≡ fresh_slot)

  -- A wrapper that takes an object from libssh2: its error-fetching overload and then the throwing one.
  module _ (r : ℕ → Resource) (f : ApiFunction) (step : S → Ptr × S) (fetch : M S ErrorSlot)
      (path : Option Text) (l : List Resource) where
    abbrev pub fetch_given : Ptr → M S (Ptr × ErrorSlot)
    fetch_given p =
        if is_null p then (do failed ← fetch; pure (p, failed)) else pure (p, fresh_slot)

    fetch_given-Balances :
        (p : Ptr) → KeepsLive live fetch → Balances live (owned r p l) (fetch_given p) (Given r l) l
    fetch_given-Balances none k =
        after_neutral fetch _ k λ slot. Balances-pure live (none, slot) refl
    fetch_given-Balances (some p) k = Balances-pure live (some p, fresh_slot) (refl, refl)

    throw-Given-Balances :
        (p : Ptr) (slot : ErrorSlot) (l' : List Resource)
        → Given r l (p, slot) l'
        → Balances live l'
            (throw_if_error slot f path >>= λ _. pure p)
            (λ h l''. l'' ≡ owned r h l)
            l
    unfolding throw_if_error
    throw-Given-Balances none slot l' e =
        rw e (
          after_neutral _ _ (throw_if_error-KeepsLive slot f path)
            λ x. Balances-pure live none refl)
    throw-Given-Balances (some p) slot l' (e, fresh) =
        rw (e, fresh)
          (Balances-bind live (λ _ l''. l'' ≡ r p ∷ l) _ _ (Balances-pure live tt refl)
            λ x l'' same. Balances-pure live (some p) same)

    pub taking :
        KeepsLive live fetch
        → ((s : S) → live (step s).1 ≡ owned r (step s).0 (live s))
        → Balances live l
            (do (p, slot) ← (do p ← call f step; fetch_given p); throw_if_error slot f path; pure p)
            (λ h l''. l'' ≡ owned r h l)
            l
    taking k given =
        Balances-bind live (Given r l) _ _
          (Balances-bind live (λ p l'. l' ≡ owned r p l) (call f step) fetch_given
            (Balances-call live f step λ s e. given s ∙ ap (owned r (step s).0) e)
            λ p l' e. rw e (fetch_given-Balances p k))
          λ x l' e. throw-Given-Balances x.0 x.1 l' e
