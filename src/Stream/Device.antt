-- ===== src/Stream/Device.antt =====
-- The devices of ssh/stream.hpp: how each opens its file, and the operations that it passes on. A device
-- is the path and the handle; `boost::iostreams` builds the streams on them.
use Prim.Native.Nat.{bit_or}
use ssh2_cpp.Base.{true, ℕ, Text, ◌*◌}
use ssh2_cpp.Libssh2.{Libssh2, openfile}
use ssh2_cpp.Effect.{M, lift, pure, ◌>>=◌}
use ssh2_cpp.State.{SftpChannelState, FileHandleState, open_handle}
use ssh2_cpp.Stream.Openmode.{
  Openmode, StdOpenmode, no_mode, mode_or, translate_flags, openmode_to_libssh2_flags,
}

module _ {S : Type 0} (api : Libssh2 S) where
  -- 0644
  file_mode : ℕ
  file_mode =
      bit_or (bit_or (bit_or api.modes.irusr api.modes.iwusr) api.modes.irgrp) api.modes.iroth

  unfoldable pub open_file : SftpChannelState → Text → Openmode → M S FileHandleState
  unfolding file_mode
  open_file sftp open_path opening_mode = do
    flags ← lift (openmode_to_libssh2_flags opening_mode)
    open_handle api sftp open_path flags file_mode openfile

  unfoldable pub open_input_file : SftpChannelState → Text → Openmode → M S FileHandleState
  unfolding open_file
  open_input_file sftp open_path opening_mode =
      open_file sftp open_path (mode_or opening_mode (record no_mode { input = true }))

  unfoldable pub open_output_file : SftpChannelState → Text → Openmode → M S FileHandleState
  unfolding open_file
  open_output_file sftp open_path opening_mode =
      open_file sftp open_path (mode_or opening_mode (record no_mode { output = true }))

-- `sftp_input_device`, `sftp_output_device` and `sftp_io_device` have the same members.
pub record SftpDevice : Type 0 where
  pub open_path : Text
  pub handle : FileHandleState

module _ {S : Type 0} (api : Libssh2 S) where
  -- The constructors that take an `openmode`.
  unfoldable pub input_device : SftpChannelState → Text → Openmode → M S SftpDevice
  input_device channel path opening_mode = do
    handle ← open_input_file api channel path opening_mode
    pure (record { open_path = path; handle = handle })

  unfoldable pub output_device : SftpChannelState → Text → Openmode → M S SftpDevice
  output_device channel path opening_mode = do
    handle ← open_output_file api channel path opening_mode
    pure (record { open_path = path; handle = handle })

  unfoldable pub io_device : SftpChannelState → Text → Openmode → M S SftpDevice
  io_device channel path opening_mode = do
    handle ← open_file api channel path opening_mode
    pure (record { open_path = path; handle = handle })

  -- The constructors that take a standard mode.
  unfoldable pub input_device_std : SftpChannelState → Text → StdOpenmode → M S SftpDevice
  unfolding input_device
  input_device_std channel path opening_mode = do
    mode ← lift (translate_flags opening_mode)
    input_device channel path mode

  unfoldable pub output_device_std : SftpChannelState → Text → StdOpenmode → M S SftpDevice
  unfolding output_device
  output_device_std channel path opening_mode = do
    mode ← lift (translate_flags opening_mode)
    output_device channel path mode

  unfoldable pub io_device_std : SftpChannelState → Text → StdOpenmode → M S SftpDevice
  unfolding io_device
  io_device_std channel path opening_mode = do
    mode ← lift (translate_flags opening_mode)
    io_device channel path mode

-- `DEFAULT_BUFFER_SIZE`, which `optimal_buffer_size` returns
abbrev pub default_buffer_size : ℕ
default_buffer_size = 1024 * 32
