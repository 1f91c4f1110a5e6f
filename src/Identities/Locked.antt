-- ===== src/Identities/Locked.antt =====
-- Agent identities and the locking discipline of ssh/detail/libssh2/libssh2.hpp.
use ssh2_cpp.Base.{false, Option, none, some, Text, Ptr}
use ssh2_cpp.Libssh2.{Libssh2}
use ssh2_cpp.Effect.Locking.{Keeps, locking_rules}
use ssh2_cpp.State.{SessionState, AgentState}
use ssh2_cpp.State.Lifetime.{state_rules}
use ssh2_cpp.Wrapper.Locked.AgentCalls.{agent_rules}
use ssh2_cpp.Identities.{
  Identity, IdentityIterator, authenticate, advance, increment, agent_identities, begin,
}

-- The operations on identities, begun with the mutex free, where the agent's state has other owners.
pub record IdentitiesKeepLock {S : Type 0} (api : Libssh2 S) : Type 0 where
  pub authenticate_keeps : (i : Identity) (user : Text) → Keeps false (authenticate api i user)
  pub increment_keeps : (it : IdentityIterator) → Keeps false (increment api false it)
  pub agent_identities_keeps : (s : SessionState) → Keeps false (agent_identities api s)
  pub begin_keeps : (a : AgentState) → Keeps false (begin api a)

module _ {S : Type 0} (api : Libssh2 S) where
  authenticate-Keeps : (i : Identity) (user : Text) → Keeps false (authenticate api i user)
  unfolding authenticate
  authenticate-Keeps i user = search agent_rules

  advance-Keeps : (a : Option AgentState) (p : Ptr) → Keeps false (advance api false a p)
  unfolding advance
  advance-Keeps none p = search locking_rules
  advance-Keeps (some a) p = search agent_rules depth 8

  increment-Keeps : (it : IdentityIterator) → Keeps false (increment api false it)
  unfolding increment
  increment-Keeps it = advance-Keeps it.agent it.pos

  agent_identities-Keeps : (s : SessionState) → Keeps false (agent_identities api s)
  unfolding agent_identities
  agent_identities-Keeps s = search (agent_rules, state_rules) depth 8

  begin-Keeps : (a : AgentState) → Keeps false (begin api a)
  unfolding begin
  begin-Keeps a = increment-Keeps (record { agent = some a; pos = none })

  -- Listing an agent's identities, authenticating by one, and incrementing an iterator over them while
  -- the agent's state has another owner, begun with the session's mutex free, make all their calls into
  -- libssh2 with the mutex held, never wait for a mutex that they hold, and end with the mutex free,
  -- whether they return or throw.
  pub identities-IdentitiesKeepLock : IdentitiesKeepLock api
  identities-IdentitiesKeepLock = record {
    authenticate_keeps = authenticate-Keeps;
    increment_keeps = increment-Keeps;
    agent_identities_keeps = agent_identities-Keeps;
    begin_keeps = begin-Keeps;
  }
