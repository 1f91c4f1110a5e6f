-- ===== src/Resources/Ledger.antt =====
-- What libssh2 documents of what it gives out and takes back, by what is live in a state.
use ssh2_cpp.Base.{◌≡◌, ℕ, ℤ, Text, Ptr, List}
use ssh2_cpp.Libssh2.{Libssh2, Attributes, OpenFlags, OpenType, StatType}
use ssh2_cpp.Resources.{Resource, a_session, a_channel, a_handle, an_agent, a_collection, owned}
use ssh2_cpp.Resources.Keeping.{Neutral}

-- Giving out: what the pointer that is returned owns is live afterwards. Taking back: what the pointer
-- owned is live no more, the null pointer owning nothing. The other functions that constructors,
-- destructors, directory iterators and recursive removal call change nothing of it.
pub record KeepsLedger {S : Type 0} (api : Libssh2 S) (live : S → List Resource) : Type 0 where
  pub session_init :
      (s : S) → live (api.session.init_ex s).1 ≡ owned a_session (api.session.init_ex s).0 (live s)
  pub session_free :
      (p : Ptr) (l : List Resource) (s : S)
      → live s ≡ owned a_session p l
      → live (api.session.free p s).1 ≡ l
  pub channel_init :
      (p : Ptr) (s : S)
      → live (api.sftp.init p s).1 ≡ owned a_channel (api.sftp.init p s).0 (live s)
  pub channel_shutdown :
      (p : Ptr) (l : List Resource) (s : S)
      → live s ≡ owned a_channel p l
      → live (api.sftp.shutdown p s).1 ≡ l
  pub handle_open :
      (p : Ptr) (path : Text) (flags : OpenFlags) (mode : ℕ) (type : OpenType) (s : S)
      → live (api.sftp.open_ex p path flags mode type s).1
        ≡ owned a_handle (api.sftp.open_ex p path flags mode type s).0 (live s)
  pub handle_close :
      (p : Ptr) (l : List Resource) (s : S)
      → live s ≡ owned a_handle p l
      → live (api.sftp.close_handle p s).1 ≡ l
  pub agent_init :
      (p : Ptr) (s : S)
      → live (api.agent.init p s).1 ≡ owned an_agent (api.agent.init p s).0 (live s)
  pub agent_free :
      (p : Ptr) (l : List Resource) (s : S)
      → live s ≡ owned an_agent p l
      → live (api.agent.free p s).1 ≡ l
  pub collection_init :
      (p : Ptr) (s : S)
      → live (api.knownhost.init p s).1 ≡ owned a_collection (api.knownhost.init p s).0 (live s)
  pub collection_free :
      (p : Ptr) (l : List Resource) (s : S)
      → live s ≡ owned a_collection p l
      → live (api.knownhost.free p s).1 ≡ l
  pub startup : (p : Ptr) (socket : ℤ) → Neutral live (api.session.startup p socket)
  pub disconnect : (p : Ptr) (message : Text) → Neutral live (api.session.disconnect p message)
  pub last_error : (p : Ptr) → Neutral live (api.session.last_error p)
  pub last_errno : (p : Ptr) → Neutral live (api.session.last_errno p)
  pub sftp_error : (p : Ptr) → Neutral live (api.sftp.last_error p)
  pub agent_connect : (p : Ptr) → Neutral live (api.agent.connect p)
  pub agent_disconnect : (p : Ptr) → Neutral live (api.agent.disconnect p)
  pub list_identities : (p : Ptr) → Neutral live (api.agent.list_identities p)
  pub readline :
      (p : Ptr) (line : Text) (type : ℤ) → Neutral live (api.knownhost.readline p line type)
  pub readdir : (p : Ptr) (n m : ℕ) → Neutral live (api.sftp.readdir_ex p n m)
  pub stat :
      (p : Ptr) (path : Text) (t : StatType) (a : Attributes)
      → Neutral live (api.sftp.stat_ex p path t a)
  pub unlink : (p : Ptr) (path : Text) → Neutral live (api.sftp.unlink_ex p path)
  pub rmdir : (p : Ptr) (path : Text) → Neutral live (api.sftp.rmdir_ex p path)
