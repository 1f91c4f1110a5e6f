-- ===== src/Tests/Ledger.antt =====
-- A server that only keeps account of what it gave out.
use ssh2_cpp.Base.{◌≡◌, refl, ℕ, pos, negsuc, none, some, List, [], ◌∷◌, Ptr}
use ssh2_cpp.Libssh2.{Libssh2, no_attributes}
use ssh2_cpp.Resources.{Resource, a_session, a_channel, a_handle, an_agent, a_collection, owned}
use ssh2_cpp.Resources.Ledger.{KeepsLedger}
use ssh2_cpp.Resources.Balance.{ObjectsBalance, objects-ObjectsBalance}
use ssh2_cpp.Tests.Server.{api}

abbrev Account : Type 0
Account = List Resource

-- Taking back what was given out last; the null pointer is nothing.
abbrev take_back : Ptr → Account → Account
take_back none s = s
take_back (some p) [] = []
take_back (some p) (r ∷ s) = s

unfoldable ledger_api : Libssh2 Account
ledger_api = record {
  codes = api.codes;
  actions = api.actions;
  checks = api.checks;
  modes = api.modes;
  bits = api.bits;
  masks = api.masks;
  hostkeys = api.hostkeys;
  session = record {
    init_ex = λ s. (some 1, a_session 1 ∷ s);
    startup = λ p socket s. (negsuc 4, s);
    disconnect = λ p message s. (pos 0, s);
    free = λ p s. (pos 0, take_back p s);
    last_error = λ p s. ((negsuc 4, []), s);
    last_errno = λ p s. (negsuc 4, s);
    hostkey = λ p type s. ((none, type), s);
    hostkey_hash = λ p t s. (none, s);
    methods = λ p t s. (none, s);
  };
  userauth = record {
    list = λ p user s. (none, s);
    authenticated = λ p s. (pos 0, s);
    password_ex = λ p user password callback s. (pos 0, s);
    keyboard_interactive_ex = λ p user callback t s. ((pos 0, t), s);
    publickey_fromfile_ex = λ p user public private passphrase s. (pos 0, s);
  };
  agent = record {
    init = λ p s. (some 2, an_agent 2 ∷ s);
    connect = λ p s. (negsuc 41, s);
    disconnect = λ p s. (pos 0, s);
    free = λ p s. (tt, take_back p s);
    get_identity = λ p out previous s. ((pos 1, out), s);
    list_identities = λ p s. (negsuc 41, s);
    userauth = λ p user identity s. (pos 0, s);
  };
  knownhost = record {
    entry = λ p s. record { name = none; key = none; typemask = 0 };
    init = λ p s. (some 3, a_collection 3 ∷ s);
    free = λ p s. (tt, take_back p s);
    readline = λ p line t s. (negsuc 33, s);
    writeline = λ p host n t s. ((negsuc 33, [], 0), s);
    get = λ p out previous s. ((pos 1, out), s);
    add = λ p host salt key t out s. ((pos 0, out), s);
    del = λ p host s. (pos 0, s);
    check = λ p host key t out s. ((pos 2, out), s);
  };
  sftp = record {
    init = λ p s. (some 4, a_channel 4 ∷ s);
    shutdown = λ p s. (pos 0, take_back p s);
    last_error = λ p s. (2, s);
    open_ex = λ p path flags mode t s. (some 5, a_handle 5 ∷ s);
    close_handle = λ p s. (pos 0, take_back p s);
    symlink_ex = λ p path target action s. ((pos 0, target), s);
    stat_ex = λ p path t a s. ((pos 0, no_attributes), s);
    fstat_ex = λ p a t s. ((pos 0, no_attributes), s);
    unlink_ex = λ p path s. (pos 0, s);
    mkdir_ex = λ p path mode s. (pos 0, s);
    rmdir_ex = λ p path s. (pos 0, s);
    rename_ex = λ p source destination flags s. (pos 0, s);
    read = λ p n s. ((pos 0, []), s);
    write = λ p bytes s. (pos 0, s);
    readdir_ex = λ p n m s. ((negsuc 30, [], [], no_attributes), s);
    tell64 = λ p s. (0, s);
    seek64 = λ p n s. (tt, s);
  };
}

take_back_lem : (r : ℕ → Resource) (p : Ptr) (l s : Account) → s ≡ owned r p l → take_back p s ≡ l
take_back_lem r none l s e = e
take_back_lem r (some p) l s e = rw e refl

abbrev live : Account → List Resource
live s = s

ledger_api-KeepsLedger : KeepsLedger ledger_api live
unfolding ledger_api
ledger_api-KeepsLedger = record {
  session_init = λ s. refl;
  session_free = λ p l s e. take_back_lem a_session p l s e;
  channel_init = λ p s. refl;
  channel_shutdown = λ p l s e. take_back_lem a_channel p l s e;
  handle_open = λ p path flags mode type s. refl;
  handle_close = λ p l s e. take_back_lem a_handle p l s e;
  agent_init = λ p s. refl;
  agent_free = λ p l s e. take_back_lem an_agent p l s e;
  collection_init = λ p s. refl;
  collection_free = λ p l s e. take_back_lem a_collection p l s e;
  startup = λ p socket s. refl;
  disconnect = λ p message s. refl;
  last_error = λ p s. refl;
  last_errno = λ p s. refl;
  sftp_error = λ p s. refl;
  agent_connect = λ p s. refl;
  agent_disconnect = λ p s. refl;
  list_identities = λ p s. refl;
  readline = λ p line type s. refl;
  readdir = λ p n m s. refl;
  stat = λ p path t a s. refl;
  unlink = λ p path s. refl;
  rmdir = λ p path s. refl;
}

objects-ObjectsBalance_example : ObjectsBalance ledger_api live ledger_api-KeepsLedger
objects-ObjectsBalance_example = objects-ObjectsBalance ledger_api live ledger_api-KeepsLedger
