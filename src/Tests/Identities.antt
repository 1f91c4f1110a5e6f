-- ===== src/Tests/Identities.antt =====
-- Agent identities and host keys at concrete inputs.
use ssh2_cpp.Base.{◌≡◌, refl, arith, [], ◌∷◌, true, false, none, some}
use ssh2_cpp.Effect.{World, faulted, deadlock}
use ssh2_cpp.State.{AgentState}
use ssh2_cpp.Identities.{increment}
use ssh2_cpp.Identities.Ending.{increment_end}
use ssh2_cpp.Identities.Locked.{IdentitiesKeepLock, identities-IdentitiesKeepLock}
use ssh2_cpp.HostKey.Hexify.{hexify}
use ssh2_cpp.HostKey.Hexify.RoundTrip.{parse_hex, parse_hex-hexify}
use ssh2_cpp.Tests.Disk.{fresh_disk}
use ssh2_cpp.Tests.Server.{Server, api}

abbrev agent : AgentState
agent = record {
  session = record { session_ptr = some 1; disconnection_message = none };
  agent_ptr = some 2;
}

abbrev world : World Server
world = record {
  remote = record { content = []; position = 0; hosts = []; disk = fresh_disk };
  locked = false;
  debug = true;
  calls = [];
}

-- The test agent has no identities.
increment_end_example :
    (increment api true (record { agent = some agent; pos = none }) world).0 ≡ faulted deadlock
unfolding api
increment_end_example = increment_end api true agent none world refl refl

identities-IdentitiesKeepLock_example : IdentitiesKeepLock api
identities-IdentitiesKeepLock_example = identities-IdentitiesKeepLock api

parse_hex-hexify_example : parse_hex 1 2 (hexify (10 ∷ 255 ∷ []) (b':' ∷ []) true) ≡ 10 ∷ 255 ∷ []
parse_hex-hexify_example =
    parse_hex-hexify (10 ∷ 255 ∷ []) (b':' ∷ []) true ((omega arith, (omega arith, tt)))
