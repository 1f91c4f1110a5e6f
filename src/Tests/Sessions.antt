-- ===== src/Tests/Sessions.antt =====
-- Authentication with servers that reject it, or ask for none.
use ssh2_cpp.State.Unconnected.{open_agent-unconnected, locked_call}
use ssh2_cpp.Session.Locked.{session-SessionKeepsLock, SessionKeepsLock}
use ssh2_cpp.Base.{◌≡◌, refl, pos, negsuc, some, none, List, [], ◌∷◌, true, false}
use ssh2_cpp.Libssh2.{
  libssh2_agent_init, libssh2_agent_connect, libssh2_session_last_error, libssh2_agent_disconnect,
  Libssh2, Challenge,
}
use ssh2_cpp.Effect.{World, returned, thrown, faulted, assertion_failed, plain, user_exception}
use ssh2_cpp.State.{open_agent, SessionState}
use ssh2_cpp.Session.{authenticate_by_password, authenticate_interactively, authentication_methods}
use ssh2_cpp.Session.Translator.{Responder, raises}
use ssh2_cpp.Session.Interactive.{ask, last_raised, authenticate_interactively_lem}
use ssh2_cpp.Session.Methods.{authenticate_by_password_lem, authentication_methods-none}
use ssh2_cpp.Tests.Disk.{fresh_disk}
use ssh2_cpp.Tests.Numbers.{test_codes, test_codes-HasDistinctCodes}
use ssh2_cpp.Tests.Server.{Server, api}

abbrev session : SessionState
session = record { session_ptr = some 1; disconnection_message = none }

abbrev world : World Server
world = record {
  remote = record { content = []; position = 0; hosts = []; disk = fresh_disk };
  locked = false;
  debug = true;
  calls = [];
}

abbrev one_challenge : List Challenge
one_challenge =
    record {
      name = none;
      instruction = none;
      prompts = record { text = 80 ∷ []; echo = false } ∷ [];
    }
    ∷ []

abbrev cancels : Responder
cancels = λ name instruction prompts. raises 9

-- a server that asks once and rejects every user
unfoldable strict_api : Libssh2 Server
unfolding api ask
strict_api = record api {
  session = record api.session { last_error = λ p s. ((negsuc 17, []), s) };
  userauth = record api.userauth {
    password_ex = λ p user password callback s. (negsuc 17, s);
    keyboard_interactive_ex = λ p user callback t s. ((negsuc 17, ask callback t one_challenge), s);
  };
}

-- a server that asks for no authentication
unfoldable open_api : Libssh2 Server
unfolding api
open_api = record api { session = record api.session { last_error = λ p s. ((pos 0, []), s) } }

authenticate_interactively_lem_example :
    (authenticate_interactively strict_api session (117 ∷ []) cancels world).0
    ≡ thrown (plain (user_exception 9))
unfolding strict_api last_raised test_codes api
authenticate_interactively_lem_example =
    authenticate_interactively_lem strict_api test_codes-HasDistinctCodes session (117 ∷ []) cancels
      one_challenge world refl refl λ _ e. cc

authenticate_by_password_lem_example :
    (authenticate_by_password strict_api session (117 ∷ []) (112 ∷ []) world).0 ≡ returned false
unfolding strict_api test_codes api
authenticate_by_password_lem_example =
    authenticate_by_password_lem strict_api session (117 ∷ []) test_codes-HasDistinctCodes
      (112 ∷ []) world refl λ _ e. cc

authentication_methods-none_example :
    (authentication_methods open_api session (λ t. t ∷ []) (117 ∷ []) world).0
    ≡ faulted assertion_failed
unfolding open_api api
authentication_methods-none_example =
    authentication_methods-none open_api session (117 ∷ []) (λ t. t ∷ []) world refl refl refl

session-SessionKeepsLock_example : SessionKeepsLock api session
session-SessionKeepsLock_example = session-SessionKeepsLock api session

open_agent-unconnected_example :
    ((open_agent api session world).0 ≡ returned (record { session = session; agent_ptr = some 2 }))
    × ((open_agent api session world).1.calls
        ≡ locked_call libssh2_agent_disconnect
          ∷ locked_call libssh2_session_last_error
          ∷ locked_call libssh2_agent_connect
          ∷ locked_call libssh2_agent_init
          ∷ [])
unfolding api
open_agent-unconnected_example =
    open_agent-unconnected api session 2 world refl refl (refl, λ e. cc)
