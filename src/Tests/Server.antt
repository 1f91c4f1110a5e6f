-- ===== src/Tests/Server.antt =====
-- A server with one file, which answers a read or a write with at most two bytes at a time, and a
-- collection of known hosts.
use ssh2_cpp.Base.{
  ◌∷◌, ◌++◌, refl, arith, ℕ, ℤ, pos, negsuc, min, ◌+◌, Text, Ptr, none, some, [], take, drop,
  length, length-take, take-eq_of_le,
}
use ssh2_cpp.Libssh2.{
  Libssh2, SessionApi, UserauthApi, AgentApi, KnownhostApi, SftpApi, no_attributes,
}
use ssh2_cpp.Stream.Transfer.Reading.{ReadsFile}
use ssh2_cpp.Stream.Transfer.Writing.{WritesFile, splice}
use ssh2_cpp.KnownHosts.Iterator.Walk.{next_address, answer}
use ssh2_cpp.Tests.Hosts.{HostList, stored, add_lines, write_host, delete_host, check_host}
use ssh2_cpp.Tests.Disk.{Disk}
use ssh2_cpp.Tests.Numbers.{test_codes}

pub record Server : Type 0 where
  pub content : Text
  pub position : ℕ
  pub hosts : HostList
  pub disk : Disk

abbrev pub read_chunk : ℕ → Server → ℕ
read_chunk n s = min 2 (min n (length (drop s.position s.content)))

abbrev pub write_chunk : Text → Server → ℕ
write_chunk bytes s = min 2 (length bytes)

abbrev failing : ℤ
failing = negsuc 30

abbrev session_api : SessionApi Server
session_api = record {
  init_ex = λ s. (some 1, s);
  startup = λ p socket s. (pos 0, s);
  disconnect = λ p message s. (pos 0, s);
  free = λ p s. (pos 0, s);
  last_error = λ p s. ((failing, []), s);
  last_errno = λ p s. (failing, s);
  hostkey = λ p type s. ((none, type), s);
  hostkey_hash = λ p t s. (none, s);
  methods = λ p t s. (none, s);
}

abbrev userauth_api : UserauthApi Server
userauth_api = record {
  list = λ p user s. (none, s);
  authenticated = λ p s. (pos 0, s);
  password_ex = λ p user password callback s. (pos 0, s);
  keyboard_interactive_ex = λ p user callback t s. ((pos 0, t), s);
  publickey_fromfile_ex = λ p user public private passphrase s. (pos 0, s);
}

-- an agent that cannot be reached
abbrev agent_api : AgentApi Server
agent_api = record {
  init = λ p s. (some 2, s);
  connect = λ p s. (failing, s);
  disconnect = λ p s. (pos 0, s);
  free = λ p s. (tt, s);
  get_identity = λ p out previous s. ((pos 1, out), s);
  list_identities = λ p s. (pos 0, s);
  userauth = λ p user identity s. (failing, s);
}

abbrev knownhost_api : KnownhostApi Server
knownhost_api = record {
  entry = λ p s. record { name = none; key = none; typemask = 0 };
  init = λ p s. (some 3, s);
  free = λ p s. (tt, s);
  readline = λ p line t s. (pos 0, record s { hosts = add_lines (stored line) s.hosts });
  writeline = λ p host n t s. (write_host host n s.hosts, s);
  get = λ p out previous s. (answer (next_address previous s.hosts), s);
  add = λ p host salt key t out s. ((pos 0, out), s);
  del = λ p host s. (pos 0, record s { hosts = delete_host host s.hosts });
  check = λ p host key t out s. (check_host (host ++ 32 ∷ key) s.hosts, s);
}

abbrev sftp_api : SftpApi Server
sftp_api = record {
  init = λ p s. (some 4, s);
  shutdown = λ p s. (pos 0, s);
  last_error = λ p s. (0, s);
  open_ex = λ p path flags mode t s. (some 5, s);
  close_handle = λ p s. (pos 0, s);
  symlink_ex = λ p path target action s. ((pos 0, target), s);
  stat_ex = λ p path t a s. ((pos 0, record no_attributes { filesize = length s.content }), s);
  fstat_ex = λ p a t s. ((pos 0, record no_attributes { filesize = length s.content }), s);
  unlink_ex = λ p path s. (failing, s);
  mkdir_ex = λ p path mode s. (pos 0, s);
  rmdir_ex = λ p path s. (failing, s);
  rename_ex = λ p source destination flags s. (pos 0, s);
  read = λ p n s. (
    (pos (read_chunk n s), take (read_chunk n s) (drop s.position s.content)),
    record s { position = s.position + read_chunk n s },
  );
  write = λ p bytes s. (
    pos (write_chunk bytes s),
    record {
      content = splice s.content s.position (take (write_chunk bytes s) bytes);
      position = s.position + write_chunk bytes s;
      hosts = s.hosts;
      disk = s.disk;
    },
  );
  readdir_ex = λ p n m s. ((pos 0, [], [], no_attributes), s);
  tell64 = λ p s. (s.position, s);
  seek64 = λ p n s. (tt, record s { position = n });
}

-- the numbers of libssh2_sftp.h
unfoldable pub api : Libssh2 Server
unfolding test_codes
api = record {
  codes = test_codes;
  actions = record { symlink = pos 0; readlink = pos 1; realpath = pos 2 };
  checks = record { match = pos 0; mismatch = pos 1; notfound = pos 2; failure = pos 3 };
  modes = record {
    irusr = 0o400;
    iwusr = 0o200;
    irwxu = 0o700;
    irgrp = 0o40;
    ixgrp = 0o10;
    iroth = 0o4;
    ixoth = 0o1;
  };
  bits = record {
    attr_size = 1;
    attr_uidgid = 2;
    attr_permissions = 4;
    attr_acmodtime = 8;
    ifmt = 0o170000;
    ififo = 0o10000;
    ifchr = 0o20000;
    ifdir = 0o40000;
    ifblk = 0o60000;
    ifreg = 0o100000;
    iflnk = 0o120000;
    ifsock = 0o140000;
  };
  masks = record {
    type_mask = 0xffff;
    type_plain = 1;
    type_sha1 = 2;
    type_custom = 3;
    keyenc_raw = 0x10000;
    keyenc_base64 = 0x20000;
    key_mask = 0x1c0000;
    key_rsa1 = 0x40000;
    key_sshrsa = 0x80000;
    key_sshdss = 0xc0000;
    file_openssh = pos 1;
  };
  hostkeys = record {
    hostkey_type_unknown = pos 0;
    hostkey_type_rsa = pos 1;
    hostkey_type_dss = pos 2;
    hostkey_hash_md5 = pos 1;
    hostkey_hash_sha1 = pos 2;
    method_hostkey = pos 1;
  };
  session = session_api;
  userauth = userauth_api;
  agent = agent_api;
  knownhost = knownhost_api;
  sftp = sftp_api;
}

pub api-ReadsFile :
    (handle : Ptr) → ReadsFile api handle (λ s. s.content) (λ s. s.position) read_chunk
unfolding api
api-ReadsFile handle = record {
  bounded = λ n s. omega arith;
  available = λ n s. omega arith;
  progress = λ n s wanted left. omega arith;
  code = λ n s. refl;
  bytes = λ n s.
      take-eq_of_le (read_chunk n s) (take (read_chunk n s) (drop s.position s.content))
        (omega (arith, length-take (read_chunk n s) (drop s.position s.content)));
  kept = λ n s. refl;
  moved = λ n s. refl;
}

pub api-WritesFile :
    (handle : Ptr) → WritesFile api handle (λ s. s.content) (λ s. s.position) write_chunk
unfolding api
api-WritesFile handle = record {
  bounded = λ bytes s. omega arith;
  progress = λ bytes s some_bytes. omega arith;
  code = λ bytes s. refl;
  stored = λ bytes s within. refl;
  moved = λ bytes s. refl;
}
