-- ===== src/Tests/Streams.antt =====
-- Reading, writing and seeking in the server's file, which holds five bytes.
use ssh2_cpp.Stream.Locked.{StreamsKeepLock, streams-StreamsKeepLock}
use ssh2_cpp.Libssh2.{libssh2_sftp_seek64}
use ssh2_cpp.Base.{
  true, ◌≡◌, refl, arith, Text, pos, negsuc, ◌+◌, ◌<◌, ◌^◌, false, some, none, [], ◌∷◌, ◌↔◌,
}
use ssh2_cpp.Effect.{throw, logic_error, pure, plain, call, thrown, ◌>>=◌, World, returned}
use ssh2_cpp.State.Lifetime.{LifetimesKeepLock, lifetimes-LifetimesKeepLock}
use ssh2_cpp.State.{SessionState, SftpChannelState, FileHandleState}
use ssh2_cpp.Stream.Position.{beg, seek, cur, add_offset}
use ssh2_cpp.Stream.Position.Overflow.{OutOfRange, seek_cur_refused, seek_unlocked, seek_cur_exact}
use ssh2_cpp.Stream.Transfer.Reading.Loop.{Reads, read-Reads}
use ssh2_cpp.Stream.Transfer.Writing.Loop.{Writes, write-Writes}
use ssh2_cpp.Tests.Disk.{fresh_disk}
use ssh2_cpp.Tests.Server.{Server, api, api-ReadsFile, api-WritesFile}

abbrev session : SessionState
session = record { session_ptr = some 1; disconnection_message = none }

abbrev channel : SftpChannelState
channel = record { session = session; sftp_ptr = some 4 }

abbrev handle : FileHandleState
handle = record { sftp = channel; file_handle = some 5 }

abbrev path : Text
path = 47 ∷ 102 ∷ []

abbrev five_bytes : Server
five_bytes = record {
  content = 1 ∷ 2 ∷ 3 ∷ 4 ∷ 5 ∷ [];
  position = 0;
  hosts = [];
  disk = fresh_disk;
}

abbrev world : World Server
world = record { remote = five_bytes; locked = false; debug = true; calls = [] }

read-Reads_example :
    (w' : World Server) × Reads api handle (api-ReadsFile (some 5)) 8 7 path world w'
read-Reads_example =
    read-Reads api handle (api-ReadsFile (some 5)) 8 7 path world refl (omega arith)

write-Writes_example :
    (w' : World Server) × Writes api handle
      (api-WritesFile (some 5))
      6
      path
      (7 ∷ 8 ∷ 9 ∷ [])
      world
      w'
write-Writes_example =
    write-Writes api handle (api-WritesFile (some 5)) 6 path (7 ∷ 8 ∷ 9 ∷ []) world refl
      (omega arith) (omega arith)

abbrev world_at_3 : World Server
world_at_3 = record world { remote = record five_bytes { position = 3 } }

seek_cur_exact_example :
    ((seek api handle path (negsuc 1) cur world_at_3).0 ≡ returned (pos 1))
    ↔ ((3 + 0 ≡ 1 + 2) × (1 < 2 ^ 63))
unfolding api
seek_cur_exact_example =
    seek_cur_exact api handle path (negsuc 1) world_at_3 (omega arith) (omega arith, omega arith) 1

seek_test :
    (seek api handle path (negsuc 9) cur world_at_3).0
    ≡ thrown (plain (logic_error "Cannot seek before start of file"))
unfolding seek ◌>>=◌ call pure throw add_offset api
seek_test = refl

seek_cur_refused_example :
    (((seek api handle path (negsuc 9) cur world_at_3).0
        ≡ thrown (plain (logic_error "Cannot seek before start of file")))
      ↔ OutOfRange 3 (negsuc 9))
    × (OutOfRange 3 (negsuc 9)
        → (seek api handle path (negsuc 9) cur world_at_3).1.remote
          ≡ (api.sftp.tell64 handle.file_handle world_at_3.remote).1)
unfolding api
seek_cur_refused_example =
    seek_cur_refused api handle path (negsuc 9) world_at_3 (omega arith) (omega arith, omega arith)

seek_unlocked_example :
    (seek api handle path (pos 2) beg world).1.calls
    ≡ record { function = libssh2_sftp_seek64; under_lock = false } ∷ []
seek_unlocked_example = seek_unlocked api handle path 2 world refl

streams-StreamsKeepLock_example : StreamsKeepLock api
streams-StreamsKeepLock_example = streams-StreamsKeepLock api

lifetimes-LifetimesKeepLock_example : LifetimesKeepLock api
lifetimes-LifetimesKeepLock_example = lifetimes-LifetimesKeepLock api
