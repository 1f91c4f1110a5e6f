-- ===== src/Resources/Balance.antt =====
-- What the objects of the library take from libssh2 and give back, together.
use ssh2_cpp.Base.{◌≡◌, ℕ, ℤ, Option, List, Text}
use ssh2_cpp.Libssh2.{Libssh2, OpenFlags, OpenType}
use ssh2_cpp.State.{
  SessionState, SftpChannelState, FileHandleState, AgentState, unconnected_session,
  connected_session, destroy_session, open_channel, close_channel, open_handle, close_handle,
  close_agent,
}
use ssh2_cpp.Identities.{agent_identities}
use ssh2_cpp.KnownHosts.Entry.{Hosts}
use ssh2_cpp.KnownHosts.Collection.{knownhost_collection}
use ssh2_cpp.KnownHosts.File.{destroy_collection, openssh_knownhost_collection, collection_of_file}
use ssh2_cpp.Filesystem.Iterator.{DirectoryIterator, directory_iterator, increment}
use ssh2_cpp.Filesystem.Removal.{remove_all}
use ssh2_cpp.Resources.{
  Resource, a_session, a_channel, a_handle, an_agent, a_collection, owned, Balances,
}
use ssh2_cpp.Resources.Ledger.{KeepsLedger}
use ssh2_cpp.Resources.States.{
  Takes, GivesBack, unconnected_session-Takes, connected_session-Takes, destroy_session-GivesBack,
  open_channel-Takes, close_channel-GivesBack, open_handle-Takes, close_handle-GivesBack,
}
use ssh2_cpp.Resources.Owners.{
  TakesHosts, close_agent-GivesBack, agent_identities-Takes, destroy_collection-Balances,
  knownhost_collection-Takes, openssh_collection-Takes, collection_of_file-Takes,
}
use ssh2_cpp.Resources.Directories.{Holds, held_by, increment-Balances, directory_iterator-Balances}
use ssh2_cpp.Resources.Removal.{Clean, remove_all-Clean}

module _ {S : Type 0} (api : Libssh2 S) (live : S → List Resource)
    (keeps : KeepsLedger api live) where
  -- What each constructor takes and each destructor gives back.
  pub record ObjectsBalance : Type 0 where
    pub unconnected : Takes api live keeps a_session (λ o. o.session_ptr) (unconnected_session api)
    pub connected :
        (socket : ℤ) (message : Text)
        → Takes api live keeps a_session (λ o. o.session_ptr) (connected_session api socket message)
    pub session_destroyed :
        (o : SessionState)
        → GivesBack api live keeps a_session o.session_ptr (destroy_session api o)
    pub channel_opened :
        (session : SessionState)
        → Takes api live keeps a_channel (λ c. c.sftp_ptr) (open_channel api session)
    pub channel_closed :
        (c : SftpChannelState) → GivesBack api live keeps a_channel c.sftp_ptr (close_channel api c)
    pub handle_opened :
        (c : SftpChannelState) (path : Text) (flags : OpenFlags) (mode : ℕ) (type : OpenType)
        → Takes api live keeps a_handle
            (λ h. h.file_handle)
            (open_handle api c path flags mode type)
    pub handle_closed :
        (h : FileHandleState) → GivesBack api live keeps a_handle h.file_handle (close_handle api h)
    pub identities_listed :
        (session : SessionState)
        → Takes api live keeps an_agent (λ a. a.agent_ptr) (agent_identities api session)
    pub agent_closed :
        (a : AgentState) → GivesBack api live keeps an_agent a.agent_ptr (close_agent api a)
    pub collection_made : TakesHosts api live keeps (knownhost_collection api)
    pub collection_loaded :
        (lines : List Text) → TakesHosts api live keeps (openssh_knownhost_collection api lines)
    pub collection_read :
        (filename : Text) (text : Option Text)
        → TakesHosts api live keeps (collection_of_file api filename text)
    pub collection_destroyed :
        (o : Hosts) (l : List Resource)
        → Balances live
            (owned a_collection o.hosts (owned a_session o.session.session_ptr l))
            (destroy_collection api o)
            (λ _ l'. l' ≡ l)
            l
    pub directory_opened :
        (c : SftpChannelState) (path : Text) (l : List Resource)
        → Balances live l (directory_iterator api c path) (Holds api live keeps l) l
    pub directory_read :
        (it : DirectoryIterator) (l : List Resource)
        → Balances live
            (held_by api live keeps it.handle l)
            (increment api it)
            (Holds api live keeps l)
            (held_by api live keeps it.handle l)
    pub all_removed :
        (fs : SftpChannelState) (join : Text → Text → Text) (filename : Text → Text) (fuel : ℕ)
        (target : Text)
        → Clean api live keeps fs (remove_all api join filename fs fuel target)

  -- If libssh2 keeps account of what it gives out and takes back as documented: a constructor that
  -- returns has taken what its object owns and no more, one that throws, even after it took something,
  -- has given all of it back, and a destructor gives back what its object owns and does not throw; for a
  -- session, an SFTP channel, a file handle, the list of an agent's identities and collections of known
  -- hosts, new, from lines or from a file. A directory iterator owns its handle until the end of the
  -- directory or its destruction, and recursive removal gives back every directory that it opened,
  -- whether it returns or throws. Of an action that ends in a fault nothing is said.
  pub objects-ObjectsBalance : ObjectsBalance
  objects-ObjectsBalance = record {
    unconnected = unconnected_session-Takes api live keeps;
    connected = connected_session-Takes api live keeps;
    session_destroyed = destroy_session-GivesBack api live keeps;
    channel_opened = open_channel-Takes api live keeps;
    channel_closed = close_channel-GivesBack api live keeps;
    handle_opened = open_handle-Takes api live keeps;
    handle_closed = close_handle-GivesBack api live keeps;
    identities_listed = agent_identities-Takes api live keeps;
    agent_closed = close_agent-GivesBack api live keeps;
    collection_made = knownhost_collection-Takes api live keeps;
    collection_loaded = openssh_collection-Takes api live keeps;
    collection_read = collection_of_file-Takes api live keeps;
    collection_destroyed = destroy_collection-Balances api live keeps;
    directory_opened = directory_iterator-Balances api live keeps;
    directory_read = increment-Balances api live keeps;
    all_removed = remove_all-Clean api live keeps;
  }
