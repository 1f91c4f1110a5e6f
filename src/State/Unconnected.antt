-- ===== src/State/Unconnected.antt =====
-- The constructor of `agent_state` of ssh/detail/agent_state.hpp where the agent cannot be reached.
use ssh2_cpp.Base.{◌≡◌, ◌≢◌, arith, ℕ, pos, is_negative, true, false, some, ◌∷◌}
use ssh2_cpp.Libssh2.{
  Libssh2, ApiFunction, libssh2_agent_init, libssh2_agent_connect, libssh2_agent_disconnect,
  libssh2_session_last_error,
}
use ssh2_cpp.Effect.{World, Call, returned, pure, throw, call, catch, with_lock, ◌>>=◌}
use ssh2_cpp.Effect.Laws.{assert-true, nonzero}
use ssh2_cpp.Error.{last_error_code, throw_if_error}
use ssh2_cpp.State.{SessionState, open_agent}
use ssh2_cpp.Wrapper.Agent

abbrev pub locked_call : ApiFunction → Call
locked_call f = record { function = f; under_lock = true }

module _ {S : Type 0} (api : Libssh2 S) (session : SessionState) where
  -- If the mutex is free, an agent object is created, connecting to the agent fails, and libssh2's error
  -- is then not 0: the constructor returns an agent state all the same, having disconnected the agent
  -- and not freed it.
  pub open_agent-unconnected :
      (p : ℕ) (w : World S)
      → w.locked ≡ false
      → (api.agent.init session.session_ptr w.remote).0 ≡ some p
      → (let s = (api.agent.init session.session_ptr w.remote).1 in
          let c = api.agent.connect (some p) s in
          (is_negative c.0 ≡ true) × ((api.session.last_error session.session_ptr c.1).0.0 ≢ pos 0))
      → ((open_agent api session w).0 ≡ returned (record { session = session; agent_ptr = some p }))
        × ((open_agent api session w).1.calls
            ≡ locked_call libssh2_agent_disconnect
              ∷ locked_call libssh2_session_last_error
              ∷ locked_call libssh2_agent_connect
              ∷ locked_call libssh2_agent_init
              ∷ w.calls)
  unfolding open_agent Agent.init Agent.connect with_lock catch ◌>>=◌ call pure throw
      last_error_code throw_if_error
  open_agent-unconnected p w l created (bad, n) = (
    rw (l, created, bad, nonzero n, assert-true, nonzero n) (ground arith),
    rw (l, created, bad, nonzero n, assert-true, nonzero n) (ground arith),
  )
