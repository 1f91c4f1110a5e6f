-- ===== src/Resources/States.antt =====
-- What the constructors and destructors of ssh/detail/*_state.hpp take from libssh2 and give back.
use ssh2_cpp.Base.{◌≡◌, refl, ◌∙◌, ap, ℕ, ℤ, Option, none, some, List, Text, Ptr, if◌then◌else◌}
use ssh2_cpp.Libssh2.{Libssh2, ApiFunction, OpenFlags, OpenType}
use ssh2_cpp.Wrapper.Null.{is_null}
use ssh2_cpp.Effect.{M, plain, bad_alloc, pure, throw, call, ◌>>◌}
use ssh2_cpp.Error.{fresh_slot, is_error}
use ssh2_cpp.State.{
  SessionState, SftpChannelState, FileHandleState, unconnected_session, connected_session,
  destroy_session, open_channel, close_channel, open_handle, close_handle, disconnect_if_started,
}
use ssh2_cpp.Wrapper.Session
use ssh2_cpp.Wrapper.Sftp
use ssh2_cpp.Resources.{
  Resource, a_session, a_channel, a_handle, owned, Balances, Balances-pure, Balances-throw,
  Balances-call, Balances-if, Balances-with_lock, Balances-bind,
}
use ssh2_cpp.Resources.Ledger.{KeepsLedger}
use ssh2_cpp.Resources.Taking.{
  taking, reporting-Balances, last_error-KeepsLive, sftp_error-KeepsLive,
}

module _ {S : Type 0} (api : Libssh2 S) (live : S → List Resource)
    (keeps : KeepsLedger api live) where
  -- The constructor of an object: the object owns what was taken; if it throws, nothing was taken.
  abbrev pub Takes : {A : Type 0} → (ℕ → Resource) → (A → Ptr) → M S A → Type 0
  Takes {A} r pointer m =
      (l : List Resource) → Balances live l m (λ a l'. l' ≡ owned r (pointer a) l) l

  -- The destructor gives back what the object owns, and does not throw.
  abbrev pub GivesBack : (ℕ → Resource) → Ptr → M S (Unit {0}) → Type 0
  GivesBack r p m =
      (l failed : List Resource) → Balances live (owned r p l) m (λ _ l'. l' ≡ l) failed

  -- The call that takes an object back.
  pub giving_back :
      {A : Type 0} (r : ℕ → Resource) (p : Ptr) (f : ApiFunction) (step : S → A × S)
      → ((l : List Resource) (s : S) → live s ≡ owned r p l → live (step s).1 ≡ l)
      → (l failed : List Resource)
      → Balances live (owned r p l) (do call f step; pure tt) (λ _ l'. l' ≡ l) failed
  giving_back r p f step h l failed =
      Balances-bind live (λ _ l'. l' ≡ l) (call f step) _ (Balances-call live f step λ s e. h l s e)
        λ a l' e. Balances-pure live tt e

  checked_session-Balances :
      (p : Ptr) (l : List Resource)
      → Balances live
          (owned a_session p l)
          (if is_null p
            then throw (plain (bad_alloc "Failed to allocate new ssh session"))
            else pure p)
          (λ q l'. l' ≡ owned a_session q l)
          l
  checked_session-Balances none l = Balances-throw live _ refl
  checked_session-Balances (some p) l = Balances-pure live (some p) refl

  session_init-Takes : Takes a_session (λ p. p) (Session.init api)
  unfolding Session.init
  session_init-Takes l =
      Balances-bind live (λ p l'. l' ≡ owned a_session p l) _ _
        (Balances-call live _ _ λ s e. keeps.session_init s ∙ ap (owned a_session _) e)
        λ p l' e. rw e (checked_session-Balances p l)

  pub unconnected_session-Takes : Takes a_session (λ o. o.session_ptr) (unconnected_session api)
  unfolding unconnected_session
  unconnected_session-Takes l =
      Balances-bind live _ _ _ (session_init-Takes l) λ p l' e. Balances-pure live _ e

  pub connected_session-Takes :
      (socket : ℤ) (message : Text)
      → Takes a_session (λ o. o.session_ptr) (connected_session api socket message)
  unfolding connected_session Session.fetch_startup
  connected_session-Takes socket message l =
      Balances-bind live _ _ _ (session_init-Takes l) λ p l' e. rw e (
        Balances-bind live (λ _ l''. l'' ≡ owned a_session p l) _ _
          (reporting-Balances api live keeps _ _ _ p _ fresh_slot (owned a_session p l) l
            (keeps.startup p socket))
          λ slot l'' e'.
            Balances-if live (is_error slot.ec) _ _
              (Balances-bind live (λ _ k. k ≡ l) _ _
                (Balances-call live _ _ λ s e''. keeps.session_free p l s (e'' ∙ e'))
                λ x k e''. Balances-throw live _ e'')
              (Balances-pure live _ e'))

  disconnect_if_started-Balances :
      (p : Ptr) (message : Option Text) (l failed : List Resource)
      → Balances live l
          (disconnect_if_started api (record { session_ptr = p; disconnection_message = message }))
          (λ _ l'. l' ≡ l)
          failed
  unfolding disconnect_if_started Session.fetch_disconnect
  disconnect_if_started-Balances p none l failed = Balances-pure live tt refl
  disconnect_if_started-Balances p (some message) l failed =
      Balances-bind live (λ _ l'. l' ≡ l) _ _
        (reporting-Balances api live keeps _ _ _ p _ _ l failed (keeps.disconnect p message))
        λ slot l' e. Balances-pure live tt e

  pub destroy_session-GivesBack :
      (o : SessionState) → GivesBack a_session o.session_ptr (destroy_session api o)
  unfolding destroy_session
  destroy_session-GivesBack o l failed =
      Balances-bind live (λ _ l'. l' ≡ owned a_session o.session_ptr l) _ _
        (disconnect_if_started-Balances o.session_ptr o.disconnection_message
          (owned a_session o.session_ptr l) failed)
        λ x l' e.
          rw e (giving_back a_session o.session_ptr _ _ (keeps.session_free o.session_ptr) l failed)

  pub open_channel-Takes :
      (session : SessionState) → Takes a_channel (λ c. c.sftp_ptr) (open_channel api session)
  unfolding open_channel Sftp.init Sftp.fetch_init
  open_channel-Takes session l =
      Balances-bind live _ _ _
        (Balances-with_lock live _ (
          taking api live keeps a_channel _ _ _ _ l
            (last_error-KeepsLive api live keeps session.session_ptr _)
            (keeps.channel_init session.session_ptr)))
        λ c l' e. Balances-pure live _ e

  pub close_channel-GivesBack :
      (c : SftpChannelState) → GivesBack a_channel c.sftp_ptr (close_channel api c)
  unfolding close_channel
  close_channel-GivesBack c l failed =
      Balances-with_lock live _
        (giving_back a_channel c.sftp_ptr _ _ (keeps.channel_shutdown c.sftp_ptr) l failed)

  pub open_handle-Takes :
      (c : SftpChannelState) (path : Text) (flags : OpenFlags) (mode : ℕ) (type : OpenType)
      → Takes a_handle (λ h. h.file_handle) (open_handle api c path flags mode type)
  unfolding open_handle Sftp.open_ex Sftp.fetch_open_ex
  open_handle-Takes c path flags mode type l =
      Balances-bind live _ _ _
        (Balances-with_lock live _ (
          taking api live keeps a_handle _ _ _ _ l
            (sftp_error-KeepsLive api live keeps c.session.session_ptr c.sftp_ptr _)
            (keeps.handle_open c.sftp_ptr path flags mode type)))
        λ h l' e. Balances-pure live _ e

  pub close_handle-GivesBack :
      (h : FileHandleState) → GivesBack a_handle h.file_handle (close_handle api h)
  unfolding close_handle
  close_handle-GivesBack h l failed =
      Balances-with_lock live _
        (giving_back a_handle h.file_handle _ _ (keeps.handle_close h.file_handle) l failed)
