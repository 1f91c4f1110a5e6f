-- ===== src/Lib.antt =====
-- Verification library of ssh2-cpp, a C++ wrapper of libssh2.
--
-- The program. ssh/detail/libssh2/*.hpp wraps each function of libssh2 twice, once with an error code as
-- an out-parameter and once throwing; ssh/ssh_error.hpp and ssh/sftp_error.hpp fetch libssh2's last error
-- and compare its codes with portable conditions; ssh/detail/*_state.hpp own a session, an SFTP channel,
-- a file handle and an agent connection, and share the session's mutex, which guards libssh2;
-- ssh/session.hpp authenticates a session; ssh/stream.hpp opens, reads, writes and seeks remote files;
-- ssh/filesystem.hpp queries and changes remote paths; ssh/host_key.hpp and ssh/knownhost.hpp hold a
-- session's host key and collections of known hosts; ssh/agent.hpp lists the identities of an agent.
--
-- The files. Base holds shared numbers, lists and tests. Libssh2 is the interface of libssh2, which is
-- not in the repository: a record of functions over an unknown state, which the definitions take as
-- the parameter `api`. Effect is the language of actions: a world is libssh2's state, the mutex, whether
-- assertions are compiled, and the trace of the calls into libssh2; an action returns, throws or ends in
-- a fault (deadlock, failed assertion, undefined behaviour, no fuel left). Effect.Locking has the locking
-- discipline that libssh2.hpp asks for, with one rule for each way to build an action.
-- Error models ssh_error.hpp and sftp_error.hpp: fetching and throwing (Error), comparing codes
-- (Error.Condition), the codes' names (Error.Names). Wrapper has a module for each file of
-- ssh/detail/libssh2: `fetch_f` is the error-fetching overload of `f`, `f` the throwing one; Wrapper.Contract
-- is what libssh2.hpp promises of a throwing wrapper. State models ssh/detail/*_state.hpp.
-- Stream.Openmode, Stream.Position, Stream.Transfer and Stream.Device model ssh/stream.hpp: the open modes,
-- `seek`, `read` and `write`, and the device classes. Filesystem and Filesystem.Attribute model
-- `sftp_filesystem` and `file_attributes` of ssh/filesystem.hpp, Filesystem.Iterator its
-- `directory_iterator`, and Filesystem.Removal its recursive removal. Session and Session.Translator model
-- the authentications of ssh/session.hpp and the object that carries a callback's exception through
-- libssh2, Session.Connection the objects that a session makes, and Owner the moves of sessions and
-- filesystem connections. HostKey models ssh/host_key.hpp, with `hexify` in HostKey.Hexify, and Identities
-- ssh/agent.hpp. KnownHosts models ssh/knownhost.hpp: an entry (Entry), the iterator (Iterator), searching
-- and changing a collection (Collection), and loading and saving it (File). What the source relies
-- on libssh2 and a server for is a record of laws over a view of their state, such as `PrintsLines`,
-- `ListsHosts`, `ReadsLines`, `ServesDirectories` and `OpensFiles`.
-- Resources keeps account of what libssh2 gives out and the objects give back, by a logic of actions with
-- one rule for each way to build one.
-- Tests holds small concrete servers and runs at concrete inputs.
--
-- Bounds. Integers of the source are natural numbers or integers, with the 64-bit conversions of `seek`
-- and the conversion of an SFTP code to `int` written out. The loops of `read` and `write` take fuel; one
-- more than the number of bytes is enough when libssh2 behaves as documented, since each call then moves
-- at least one byte or ends the loop. Saving known hosts takes fuel for one round more than there are
-- entries, and the recursive removal of a directory for two more than there are entries below it: each
-- round moves to the next entry, and each directory below has fewer entries.
--
-- Not modelled: `boost::iostreams`, `boost::filesystem` and the copying of strings; threads other than the
-- one that runs, of which only the mutex is seen; the counts of shared owners, of which only the last one
-- matters; copies of a directory iterator that share its handle; directories that change while they are
-- listed; what a file holds when saving to it fails; the conversion of the lengths of paths to
-- `unsigned int`.
pub mod Base
pub mod Effect
pub mod Error
pub mod Filesystem
pub mod HostKey
pub mod Identities
pub mod KnownHosts
pub mod Libssh2
pub mod Owner
pub mod Resources
pub mod Session
pub mod State
pub mod Stream
pub mod Tests
pub mod Wrapper
