-- ===== src/Identities.antt =====
-- ssh/agent.hpp: the identities of an SSH agent. The agent's state is shared by the collection, its
-- iterators and the identities; `last_owner` says whether the one at hand is the last of them.
pub mod Ending
pub mod Locked
use ssh2_cpp.Base.{
  ℕ, ℤ, pos, eqb_ℤ, Bool, true, false, ◌&&◌, ◌==◌, Option, none, some, Text, Ptr, if◌then◌else◌,
}
use ssh2_cpp.Libssh2.{Libssh2}
use ssh2_cpp.Effect.{M, plain, logic_error, pure, throw, catch, with_lock, ◌>>=◌, ◌>>◌}
use ssh2_cpp.State.{SessionState, AgentState, open_agent, close_agent}
use ssh2_cpp.Wrapper.Null.{same_pointer}
use ssh2_cpp.Wrapper.Agent

pub record Identity : Type 0 where
  pub agent : AgentState
  pub identity : Ptr

-- `identity_iterator_base`; the end has no agent
pub record IdentityIterator : Type 0 where
  pub agent : Option AgentState
  pub pos : Ptr

abbrev pub end : IdentityIterator
end = record { agent = none; pos = none }

-- An agent's state is told from another by its agent, of which no two states have the same.
same_agent : Option AgentState → Option AgentState → Bool
same_agent none none = true
same_agent (some a) (some b) = same_pointer a.agent_ptr b.agent_ptr
same_agent _ _ = false

unfoldable pub equal : IdentityIterator → IdentityIterator → Bool
unfolding same_agent
equal a b = same_agent a.agent b.agent && same_pointer a.pos b.pos

module _ {S : Type 0} (api : Libssh2 S) where
  unfoldable pub authenticate : Identity → Text → M S (Unit {0})
  authenticate i user_name =
      with_lock
        (Agent.userauth api i.agent.session.session_ptr i.agent.agent_ptr user_name i.identity)

  -- `m_agent.reset()`
  reset_agent : Bool → AgentState → M S (Unit {0})
  reset_agent last_owner agent = if last_owner then close_agent api agent else pure tt

  -- what follows the call, still under the lock
  after_get : Bool → AgentState → ℤ → Ptr → M S IdentityIterator
  unfolding reset_agent
  after_get last_owner agent rc position =
      if eqb_ℤ rc (pos 1)
      then (do reset_agent last_owner agent; pure end)
      else pure (record { agent = some agent; pos = position })

  unfoldable pub advance : Bool → Option AgentState → Ptr → M S IdentityIterator
  unfolding after_get
  advance last_owner none position =
      throw (plain (logic_error "Can't increment past the end of a collection"))
  advance last_owner (some agent) position = with_lock (do
    (rc, next) ← Agent.get_identity api agent.session.session_ptr agent.agent_ptr position position
    after_get last_owner agent rc next)

  unfoldable pub increment : Bool → IdentityIterator → M S IdentityIterator
  unfolding advance
  increment last_owner it = advance last_owner it.agent it.pos

  identity_at : Option AgentState → Ptr → M S Identity
  identity_at none position =
      throw (plain (logic_error "Can't dereference the end of a collection"))
  identity_at (some agent) position = pure (record { agent = agent; identity = position })

  unfoldable pub dereference : IdentityIterator → M S Identity
  unfolding identity_at
  dereference it = identity_at it.agent it.pos

  -- `agent_identities(session)`, whose state is destroyed again if there is no list
  unfoldable pub agent_identities : SessionState → M S AgentState
  agent_identities session = do
    agent ← open_agent api session
    catch (with_lock (Agent.list_identities api agent.session.session_ptr agent.agent_ptr))
        λ e. do close_agent api agent; throw e
    pure agent

  -- `begin()`, where the collection is an owner too
  unfoldable pub begin : AgentState → M S IdentityIterator
  unfolding increment
  begin agent = increment false (record { agent = some agent; pos = none })
