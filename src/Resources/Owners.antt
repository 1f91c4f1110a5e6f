-- ===== src/Resources/Owners.antt =====
-- What agents and collections of known hosts take from libssh2 and give back.
use ssh2_cpp.Base.{◌≡◌, ◌∙◌, ℤ, Option, none, some, List, [], ◌∷◌, Text, Ptr}
use ssh2_cpp.Libssh2.{Libssh2}
use ssh2_cpp.Effect.{M, throw, catch, ◌>>◌}
use ssh2_cpp.State.{SessionState, AgentState, destroy_session, open_agent, close_agent}
use ssh2_cpp.Wrapper.Agent
use ssh2_cpp.Wrapper.Knownhost
use ssh2_cpp.Identities.{agent_identities}
use ssh2_cpp.KnownHosts.Entry.{Hosts}
use ssh2_cpp.KnownHosts.Collection.{knownhost_collection}
use ssh2_cpp.KnownHosts.File.{
  read_entry, load_entries, destroy_collection, openssh_knownhost_collection, collection_of_file,
  getlines,
}
use ssh2_cpp.Resources.{
  Resource, a_session, an_agent, a_collection, owned, Balances, Balances-pure, Balances-throw,
  Balances-call, Balances-with_lock, Balances-catch, Balances-bind,
}
use ssh2_cpp.Resources.Keeping.{KeepsLive, KeepsLive-bind, KeepsLive-Balances, keeping_rules}
use ssh2_cpp.Resources.Ledger.{KeepsLedger}
use ssh2_cpp.Resources.Taking.{taking, last_error-KeepsLive, throw_if_error-KeepsLive}
use ssh2_cpp.Resources.States.{
  Takes, GivesBack, giving_back, unconnected_session-Takes, destroy_session-GivesBack,
}

module _ {S : Type 0} (api : Libssh2 S) (live : S → List Resource)
    (keeps : KeepsLedger api live) where
  -- Code that gives back what it holds before it lets an exception pass.
  pub undoing :
      {A : Type 0} {q : A → List Resource → Type 0} (held l : List Resource) (m : M S A)
      (undo : M S (Unit {0}))
      → Balances live held m q held
      → Balances live held undo (λ _ l'. l' ≡ l) l
      → Balances live held (catch m λ e. do undo; throw e) q l
  undoing held l m undo b u =
      Balances-catch live held m _ b
        λ e. Balances-bind live (λ _ l'. l' ≡ l) undo _ u λ x l' same. Balances-throw live e same

  connect-KeepsLive : (session agent : Ptr) → KeepsLive live (Agent.connect api session agent)
  unfolding Agent.connect Agent.fetch_connect
  connect-KeepsLive session agent =
      search
        (
          keeping_rules,
          keeps.agent_connect,
          last_error-KeepsLive api live keeps,
          throw_if_error-KeepsLive api live keeps,
        )
        depth 8

  pub open_agent-Takes :
      (session : SessionState)
      → Takes api live keeps an_agent (λ a. a.agent_ptr) (open_agent api session)
  unfolding open_agent Agent.init Agent.fetch_init
  open_agent-Takes session l =
      Balances-bind live (λ p l'. l' ≡ owned an_agent p l) _ _
        (Balances-with_lock live _ (
          taking api live keeps an_agent _ _ _ _ l
            (last_error-KeepsLive api live keeps session.session_ptr _)
            (keeps.agent_init session.session_ptr)))
        λ p l' e.
          Balances-bind live (λ _ l''. l'' ≡ l') _ _
            (Balances-with_lock live _ (
              Balances-catch live l' _ _
                (KeepsLive-Balances live l' _ (connect-KeepsLive session.session_ptr p))
                λ x.
                  Balances-bind live (λ _ l''. l'' ≡ l') _ _
                    (Balances-call live _ _ λ s e'. keeps.agent_disconnect p s ∙ e')
                    λ y l'' e'. Balances-pure live tt e'))
            λ x l'' e'. Balances-pure live _ (e' ∙ e)

  pub close_agent-GivesBack :
      (a : AgentState) → GivesBack api live keeps an_agent a.agent_ptr (close_agent api a)
  unfolding close_agent
  close_agent-GivesBack a l failed = Balances-with_lock live _ (
      Balances-bind live (λ _ l'. l' ≡ owned an_agent a.agent_ptr l) _ _
        (Balances-call live _ _ λ s e. keeps.agent_disconnect a.agent_ptr s ∙ e)
        λ x l' e. rw e (
          giving_back api live keeps an_agent a.agent_ptr _ _ (keeps.agent_free a.agent_ptr) l
            failed))

  list-KeepsLive : (session agent : Ptr) → KeepsLive live (Agent.list_identities api session agent)
  unfolding Agent.list_identities Agent.fetch_list_identities
  list-KeepsLive session agent =
      search
        (
          keeping_rules,
          keeps.list_identities,
          last_error-KeepsLive api live keeps,
          throw_if_error-KeepsLive api live keeps,
        )
        depth 8

  pub agent_identities-Takes :
      (session : SessionState)
      → Takes api live keeps an_agent (λ a. a.agent_ptr) (agent_identities api session)
  unfolding agent_identities
  agent_identities-Takes session l = Balances-bind live _ _ _ (open_agent-Takes session l) λ a l' e.
      rw e (
        Balances-bind live (λ _ l''. l'' ≡ owned an_agent a.agent_ptr l) _ _
          (undoing (owned an_agent a.agent_ptr l) l _ (close_agent api a)
            (Balances-with_lock live _
              (KeepsLive-Balances live _ _ (list-KeepsLive a.session.session_ptr a.agent_ptr)))
            (close_agent-GivesBack a l l))
          λ x l'' e'. Balances-pure live a e')

  -- A collection owns its session too.
  abbrev pub TakesHosts : M S Hosts → Type 0
  TakesHosts m =
      (l : List Resource)
      → Balances live l m
          (λ o l'. l' ≡ owned a_collection o.hosts (owned a_session o.session.session_ptr l)) l

  pub destroy_collection-Balances :
      (o : Hosts) (l : List Resource)
      → Balances live
          (owned a_collection o.hosts (owned a_session o.session.session_ptr l))
          (destroy_collection api o)
          (λ _ l'. l' ≡ l)
          l
  unfolding destroy_collection
  destroy_collection-Balances o l =
      Balances-bind live (λ _ l'. l' ≡ owned a_session o.session.session_ptr l) _ _
        (Balances-call live _ _
          λ s e. keeps.collection_free o.hosts (owned a_session o.session.session_ptr l) s e)
        λ x l' e. rw e (destroy_session-GivesBack api live keeps o.session l l)

  pub knownhost_collection-Takes : TakesHosts (knownhost_collection api)
  unfolding knownhost_collection Knownhost.init Knownhost.fetch_init
  knownhost_collection-Takes l =
      Balances-bind live _ _ _ (unconnected_session-Takes api live keeps l) λ o l' e. rw e (
        let held = owned a_session o.session_ptr l in
        Balances-bind live (λ p l''. l'' ≡ owned a_collection p held) _ _
          (undoing held l _ (destroy_session api o)
            (Balances-with_lock live _ (
              taking api live keeps a_collection _ _ _ _ held
                (last_error-KeepsLive api live keeps o.session_ptr _)
                (keeps.collection_init o.session_ptr)))
            (destroy_session-GivesBack api live keeps o l l))
          λ p l'' e'. Balances-pure live _ e')

  read_entry-KeepsLive :
      (o : Hosts) (type : ℤ) (line : Text) → KeepsLive live (read_entry api o type line)
  unfolding read_entry Knownhost.readline Knownhost.fetch_readline
  read_entry-KeepsLive o type line =
      search
        (
          keeping_rules,
          keeps.readline,
          last_error-KeepsLive api live keeps,
          throw_if_error-KeepsLive api live keeps,
        )
        depth 9

  load_entries-KeepsLive :
      (o : Hosts) (type : ℤ) (lines : List Text) → KeepsLive live (load_entries api o type lines)
  unfolding load_entries
  load_entries-KeepsLive o type [] = search keeping_rules
  load_entries-KeepsLive o type (line ∷ lines) =
      KeepsLive-bind live _ _ (read_entry-KeepsLive o type line)
        λ _. load_entries-KeepsLive o type lines

  pub openssh_collection-Takes :
      (lines : List Text) → TakesHosts (openssh_knownhost_collection api lines)
  unfolding openssh_knownhost_collection
  openssh_collection-Takes lines l =
      Balances-bind live _ _ _ (knownhost_collection-Takes l) λ o l' e. rw e (
        let held = owned a_collection o.hosts (owned a_session o.session.session_ptr l) in
        undoing held l _ (destroy_collection api o)
          (Balances-bind live (λ _ l''. l'' ≡ held) _ _
            (KeepsLive-Balances live held _ (load_entries-KeepsLive o _ lines))
            λ x l'' e'. Balances-pure live o e')
          (destroy_collection-Balances o l))

  pub collection_of_file-Takes :
      (filename : Text) (text : Option Text) → TakesHosts (collection_of_file api filename text)
  unfolding collection_of_file
  collection_of_file-Takes filename none l =
      Balances-bind live _ _ _ (knownhost_collection-Takes l) λ o l' e. rw e (
        Balances-bind live (λ _ l''. l'' ≡ l) _ _ (destroy_collection-Balances o l)
          λ x l'' e'. Balances-throw live _ e')
  collection_of_file-Takes filename (some text) l = openssh_collection-Takes (getlines text) l
