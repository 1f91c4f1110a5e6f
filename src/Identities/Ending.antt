-- ===== src/Identities/Ending.antt =====
-- The end of an iteration over the identities of ssh/agent.hpp.
use ssh2_cpp.Base.{◌≡◌, refl, pos, Bool, true, false, some, Ptr, if◌then◌else◌}
use ssh2_cpp.Libssh2.{Libssh2}
use ssh2_cpp.Effect.{World, returned, faulted, deadlock, pure, call, with_lock, ◌>>=◌}
use ssh2_cpp.Error.{throw_if_error}
use ssh2_cpp.State.{AgentState, close_agent}
use ssh2_cpp.Wrapper.Agent
use ssh2_cpp.Identities.{end, increment}

module _ {S : Type 0} (api : Libssh2 S) where
  -- With the mutex free and no identity behind the position, incrementing an iterator gives the end if
  -- the agent's state has another owner; if the iterator is its last owner, the state is destroyed
  -- under the lock that its destruction takes, and the thread waits for itself.
  pub increment_end :
      (last_owner : Bool) (agent : AgentState) (position : Ptr) (w : World S)
      → w.locked ≡ false
      → (api.agent.get_identity agent.agent_ptr position position w.remote).0.0 ≡ pos 1
      → (increment api last_owner (record { agent = some agent; pos = position }) w).0
        ≡ (if last_owner then faulted deadlock else returned end)
  unfolding increment with_lock ◌>>=◌ call pure Agent.get_identity throw_if_error close_agent
  increment_end true agent position w l e = rw (l, e) refl
  increment_end false agent position w l e = rw (l, e) refl
