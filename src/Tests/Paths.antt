-- ===== src/Tests/Paths.antt =====
-- Operations on paths with the test server.
use ssh2_cpp.Filesystem.Iterator.Locked.{iterators-IteratorsKeepLock, IteratorsKeepLock}
use ssh2_cpp.Base.{refl, ◌⊎◌, true, false, ◌≡◌, some, none, Text, [], ◌∷◌}
use ssh2_cpp.Effect.{pure, ◌>>=◌}
use ssh2_cpp.State.{SftpChannelState}
use ssh2_cpp.Filesystem.{create_directory, exists, check_status}
use ssh2_cpp.Filesystem.Directory.{attempt, FailedOnDirectory, create_directory-returned}
use ssh2_cpp.Wrapper.Sftp
use ssh2_cpp.Effect.{World, returned, catch, with_lock, call}
use ssh2_cpp.Error.{throw_if_error}
use ssh2_cpp.Filesystem.{catch_system_error}
use ssh2_cpp.Tests.Disk.{fresh_disk}
use ssh2_cpp.Tests.Server.{Server}
use ssh2_cpp.Filesystem.Status.{is_present, exists-check_status}
use ssh2_cpp.Filesystem.Locked.{PathsKeepLock, paths-PathsKeepLock}
use ssh2_cpp.Tests.Server.{api}

abbrev filesystem : SftpChannelState
filesystem = record {
  session = record { session_ptr = some 1; disconnection_message = none };
  sftp_ptr = some 4;
}

abbrev path_a : Text
path_a = 47 ∷ 97 ∷ []

abbrev path_b : Text
path_b = 47 ∷ 98 ∷ []

exists-check_status_example :
    exists api filesystem path_a
    ≡ (do status ← check_status api filesystem path_a; pure (is_present status))
exists-check_status_example = exists-check_status api filesystem path_a

paths-PathsKeepLock_example : PathsKeepLock api filesystem
paths-PathsKeepLock_example = paths-PathsKeepLock api filesystem

abbrev world : World Server
world = record {
  remote = record { content = []; position = 0; hosts = []; disk = fresh_disk };
  locked = false;
  debug = true;
  calls = [];
}

create_directory-returned_example :
    ((true ≡ true) × ((attempt api filesystem path_a world).0 ≡ returned true))
    ⊎ ((true ≡ false)
        × FailedOnDirectory api filesystem path_a
            (attempt api filesystem path_a world).0
            (attempt api filesystem path_a world).1)
unfolding create_directory catch_system_error catch with_lock Sftp.mkdir_ex ◌>>=◌ call pure
    throw_if_error api
create_directory-returned_example = create_directory-returned api filesystem path_a world true refl

iterators-IteratorsKeepLock_example : IteratorsKeepLock api
iterators-IteratorsKeepLock_example = iterators-IteratorsKeepLock api
