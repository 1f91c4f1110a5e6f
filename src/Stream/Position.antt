-- ===== src/Stream/Position.antt =====
-- `seek` of ssh/stream.hpp. Offsets are `int64_t`; libssh2's positions and sizes are `uint64_t`, so a
-- relative position is a sum modulo 2^64, read as a signed number.
pub mod Overflow
use ssh2_cpp.Base.{
  ℕ, ◌+◌, ◌-◌, ◌%◌, ◌^◌, ℤ, pos, negsuc, pos_part, is_negative, ltb, Text, some, if◌then◌else◌,
}
use ssh2_cpp.Libssh2.{Libssh2, no_attributes, follow_link, libssh2_sftp_tell64, libssh2_sftp_seek64}
use ssh2_cpp.Effect.{
  M, Exception, plain, invalid_argument, logic_error, pure, throw, call, with_lock, catch, ◌>>=◌,
  ◌>>◌,
}
use ssh2_cpp.State.{FileHandleState}
use ssh2_cpp.Wrapper.Sftp

-- `std::ios_base::seekdir`
pub data Seekdir : Type 0 where
  beg cur end other : Seekdir

-- The conversions between `int64_t` and `uint64_t`.
to_uint64 : ℤ → ℕ
to_uint64 (pos n) = n % 2 ^ 64
to_uint64 (negsuc n) = 2 ^ 64 - 1 - n % 2 ^ 64

to_int64 : ℕ → ℤ
to_int64 u = if ltb u (2 ^ 63) then pos u else negsuc (2 ^ 64 - 1 - u)

-- A `uint64_t` plus a `stream_offset`, stored in a `stream_offset`.
unfoldable pub add_offset : ℕ → ℤ → ℤ
unfolding to_uint64 to_int64
add_offset base off = to_int64 ((base + to_uint64 off) % 2 ^ 64)

-- `catch (boost::exception& e) { e << errinfo_file_name(path); throw; }`
unfoldable pub with_file_name : {S A : Type 0} → Text → M S A → M S A
with_file_name path m = catch m λ e. throw (record e { file_name = some path })

module _ {S : Type 0} (api : Libssh2 S) where
  new_position : FileHandleState → Text → ℤ → Seekdir → M S ℤ
  unfolding with_file_name
  new_position handle open_path off beg = pure off
  new_position handle open_path off cur = do
    position ← call libssh2_sftp_tell64 (api.sftp.tell64 handle.file_handle)
    pure (add_offset position off)
  new_position handle open_path off end = do
    attributes ← with_file_name open_path (
        with_lock (
          Sftp.fstat api handle.sftp.session.session_ptr handle.sftp.sftp_ptr handle.file_handle
            no_attributes follow_link))
    pure (add_offset attributes.filesize off)
  new_position handle open_path off other =
      throw (plain (invalid_argument "Unknown seek direction"))

  unfoldable pub seek : FileHandleState → Text → ℤ → Seekdir → M S ℤ
  unfolding new_position
  seek handle open_path off way = do
    position ← new_position handle open_path off way
    if is_negative position
        then throw (plain (logic_error "Cannot seek before start of file"))
        else (do
          call libssh2_sftp_seek64 (api.sftp.seek64 handle.file_handle (pos_part position))
          pure position)
