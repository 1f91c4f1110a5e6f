-- ===== src/Stream/Locked.antt =====
-- Opening, reading and writing, and the locking discipline of ssh/detail/libssh2/libssh2.hpp.
use ssh2_cpp.Base.{suc, zero, ℤ, false, Text, ℕ}
use ssh2_cpp.Libssh2.{Libssh2}
use ssh2_cpp.Effect.Locking.{Keeps-lift, NoDeadlock-if, NoDeadlock, Keeps, locking_rules}
use ssh2_cpp.Wrapper.Locked.SftpCalls.{sftp_rules}
use ssh2_cpp.State.Lifetime.{state_rules}
use ssh2_cpp.State.{SftpChannelState, FileHandleState}
use ssh2_cpp.Stream.Position.{with_file_name}
use ssh2_cpp.Stream.Openmode.{openmode_to_libssh2_flags, translate_flags, Openmode, StdOpenmode}
use ssh2_cpp.Stream.Transfer.{
  read, read_loop, read_some, after_read, write, write_loop, write_some, after_write,
}
use ssh2_cpp.Stream.Openmode.Meaning.{openmode_to_libssh2_flags_table}
use ssh2_cpp.Stream.Device.{
  open_input_file, open_output_file, input_device_std, output_device_std, io_device_std, open_file,
  input_device, output_device, io_device,
}

module _ {S : Type 0} (api : Libssh2 S) (handle : FileHandleState) where
  read_some-Keeps : (n : ℕ) → Keeps false (read_some api handle n)
  unfolding read_some
  read_some-Keeps n = search sftp_rules

  write_some-Keeps : (bytes : Text) → Keeps false (write_some api handle bytes)
  unfolding write_some
  write_some-Keeps bytes = search sftp_rules

  read_loop-Keeps :
      (fuel n : ℕ) (count : ℤ) (filled : Text)
      → Keeps false (read_loop api handle fuel n count filled)
  unfolding read_loop after_read
  read_loop-Keeps zero n count filled = search locking_rules
  read_loop-Keeps (suc fuel) n count filled =
      search (locking_rules, read_some-Keeps, read_loop-Keeps fuel)

  write_loop-Keeps :
      (fuel : ℕ) (bytes : Text) (count : ℤ) → Keeps false (write_loop api handle fuel bytes count)
  unfolding write_loop after_write
  write_loop-Keeps zero bytes count = search locking_rules
  write_loop-Keeps (suc fuel) bytes count =
      search (locking_rules, write_some-Keeps, write_loop-Keeps fuel)

  read-Keeps : (fuel n : ℕ) (path : Text) → Keeps false (read api handle fuel path n)
  unfolding read with_file_name
  read-Keeps fuel n path = search (locking_rules, read_loop-Keeps)

  write-Keeps : (fuel : ℕ) (path bytes : Text) → Keeps false (write api handle fuel path bytes)
  unfolding write with_file_name
  write-Keeps fuel path bytes = search (locking_rules, write_loop-Keeps)

flags-NoDeadlock : (m : Openmode) → NoDeadlock (openmode_to_libssh2_flags m)
flags-NoDeadlock m = rw (openmode_to_libssh2_flags_table m) (NoDeadlock-if _ _ _)

translate-NoDeadlock : (std : StdOpenmode) → NoDeadlock (translate_flags std)
unfolding translate_flags
translate-NoDeadlock std = NoDeadlock-if std.std_ate _ _

ruleset opening_rules =
    (locking_rules, state_rules, Keeps-lift, flags-NoDeadlock, translate-NoDeadlock)

module _ {S : Type 0} (api : Libssh2 S) (channel : SftpChannelState) (path : Text) where
  input_device-Keeps : (m : Openmode) → Keeps false (input_device api channel path m)
  unfolding input_device open_input_file
  input_device-Keeps m = search opening_rules depth 8

  output_device-Keeps : (m : Openmode) → Keeps false (output_device api channel path m)
  unfolding output_device open_output_file
  output_device-Keeps m = search opening_rules depth 8

  io_device-Keeps : (m : Openmode) → Keeps false (io_device api channel path m)
  unfolding io_device open_file
  io_device-Keeps m = search opening_rules depth 8

  input_device_std-Keeps : (m : StdOpenmode) → Keeps false (input_device_std api channel path m)
  unfolding input_device_std
  input_device_std-Keeps m = search (opening_rules, input_device-Keeps) depth 8

  output_device_std-Keeps : (m : StdOpenmode) → Keeps false (output_device_std api channel path m)
  unfolding output_device_std
  output_device_std-Keeps m = search (opening_rules, output_device-Keeps) depth 8

  io_device_std-Keeps : (m : StdOpenmode) → Keeps false (io_device_std api channel path m)
  unfolding io_device_std
  io_device_std-Keeps m = search (opening_rules, io_device-Keeps) depth 8

-- Opening each kind of device in each kind of mode, and reading and writing through a handle, begun with
-- the mutex free.
pub record StreamsKeepLock {S : Type 0} (api : Libssh2 S) : Type 0 where
  pub input_device_keeps :
      (c : SftpChannelState) (p : Text) (m : Openmode) → Keeps false (input_device api c p m)
  pub output_device_keeps :
      (c : SftpChannelState) (p : Text) (m : Openmode) → Keeps false (output_device api c p m)
  pub io_device_keeps :
      (c : SftpChannelState) (p : Text) (m : Openmode) → Keeps false (io_device api c p m)
  pub input_device_std_keeps :
      (c : SftpChannelState) (p : Text) (m : StdOpenmode) → Keeps false (input_device_std api c p m)
  pub output_device_std_keeps :
      (c : SftpChannelState) (p : Text) (m : StdOpenmode)
      → Keeps false (output_device_std api c p m)
  pub io_device_std_keeps :
      (c : SftpChannelState) (p : Text) (m : StdOpenmode) → Keeps false (io_device_std api c p m)
  pub read_keeps : (h : FileHandleState) (fuel n : ℕ) (p : Text) → Keeps false (read api h fuel p n)
  pub write_keeps :
      (h : FileHandleState) (fuel : ℕ) (p bytes : Text) → Keeps false (write api h fuel p bytes)

-- Opening a device, reading and writing, begun with the session's mutex free, make all their calls into
-- libssh2 with the mutex held, never wait for a mutex that they hold, and end with the mutex free,
-- whether they return, throw or have no fuel left.
pub streams-StreamsKeepLock : {S : Type 0} (api : Libssh2 S) → StreamsKeepLock api
streams-StreamsKeepLock api = record {
  input_device_keeps = input_device-Keeps api;
  output_device_keeps = output_device-Keeps api;
  io_device_keeps = io_device-Keeps api;
  input_device_std_keeps = input_device_std-Keeps api;
  output_device_std_keeps = output_device_std-Keeps api;
  io_device_std_keeps = io_device_std-Keeps api;
  read_keeps = read-Keeps api;
  write_keeps = write-Keeps api;
}
