-- ===== src/Wrapper/Agent.antt =====
-- ssh/detail/libssh2/agent.hpp. A function `fetch_f` is the error-fetching overload, `f` the throwing
-- one; the session, from which errors are fetched, comes first.
pub mod Contract
use ssh2_cpp.Base.{ℤ, is_negative, Option, none, Text, Ptr, if◌then◌else◌}
use ssh2_cpp.Libssh2.{
  Libssh2, libssh2_agent_init, libssh2_agent_connect, libssh2_agent_get_identity,
  libssh2_agent_list_identities, libssh2_agent_userauth,
}
use ssh2_cpp.Effect.{M, pure, call, ◌>>=◌, ◌>>◌}
use ssh2_cpp.Error.{ErrorSlot, fresh_slot, last_error_code, throw_if_error}
use ssh2_cpp.Wrapper.Null.{is_null}

module _ {S : Type 0} (api : Libssh2 S) where
  unfoldable pub fetch_init : Ptr → ErrorSlot → M S (Ptr × ErrorSlot)
  fetch_init session slot = do
    agent ← call libssh2_agent_init (api.agent.init session)
    if is_null agent
        then (do failed ← last_error_code api session slot.e_msg; pure (agent, failed))
        else pure (agent, slot)

  unfoldable pub init : Ptr → M S (Ptr)
  unfolding fetch_init
  init session = do
    (agent, slot) ← fetch_init session fresh_slot
    throw_if_error slot libssh2_agent_init none
    pure agent

  unfoldable pub fetch_connect : Ptr → Ptr → ErrorSlot → M S ErrorSlot
  fetch_connect session agent slot = do
    rc ← call libssh2_agent_connect (api.agent.connect agent)
    if is_negative rc then last_error_code api session slot.e_msg else pure slot

  unfoldable pub connect : Ptr → Ptr → M S (Unit {0})
  unfolding fetch_connect
  connect session agent = do
    slot ← fetch_connect session agent fresh_slot
    throw_if_error slot libssh2_agent_connect none

  unfoldable pub fetch_get_identity :
      Ptr → Ptr → Ptr → Ptr → ErrorSlot → M S ((ℤ × Ptr) × ErrorSlot)
  fetch_get_identity session agent out previous slot = do
    (rc, store) ← call libssh2_agent_get_identity (api.agent.get_identity agent out previous)
    if is_negative rc
        then (do failed ← last_error_code api session slot.e_msg; pure ((rc, store), failed))
        else pure ((rc, store), slot)

  unfoldable pub get_identity : Ptr → Ptr → Ptr → Ptr → M S (ℤ × Ptr)
  unfolding fetch_get_identity
  get_identity session agent out previous = do
    (result, slot) ← fetch_get_identity session agent out previous fresh_slot
    throw_if_error slot libssh2_agent_get_identity none
    pure result

  unfoldable pub fetch_list_identities : Ptr → Ptr → ErrorSlot → M S ErrorSlot
  fetch_list_identities session agent slot = do
    rc ← call libssh2_agent_list_identities (api.agent.list_identities agent)
    if is_negative rc then last_error_code api session slot.e_msg else pure slot

  unfoldable pub list_identities : Ptr → Ptr → M S (Unit {0})
  unfolding fetch_list_identities
  list_identities session agent = do
    slot ← fetch_list_identities session agent fresh_slot
    throw_if_error slot libssh2_agent_list_identities none

  unfoldable pub fetch_userauth : Ptr → Ptr → Text → Ptr → ErrorSlot → M S ErrorSlot
  fetch_userauth session agent user_name identity slot = do
    rc ← call libssh2_agent_userauth (api.agent.userauth agent user_name identity)
    if is_negative rc then last_error_code api session slot.e_msg else pure slot

  unfoldable pub userauth : Ptr → Ptr → Text → Ptr → M S (Unit {0})
  unfolding fetch_userauth
  userauth session agent user_name identity = do
    slot ← fetch_userauth session agent user_name identity fresh_slot
    throw_if_error slot libssh2_agent_userauth none
