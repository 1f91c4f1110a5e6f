-- ===== src/Stream/Transfer.antt =====
-- `read` and `write` of ssh/stream.hpp: loops that call libssh2 until the whole buffer is transferred or
-- the file ends. Each call is made under the mutex of its own. The loops take fuel, one unit for a call.
pub mod Reading
pub mod Writing
use ssh2_cpp.Base.{
  true, false, ℕ, zero, suc, ℤ, pos, pos_part, ◌+ℤ◌, ◌-ℤ◌, ltb_ℤ, eqb_ℤ, is_zero, is_negative,
  length, take, drop, List, [], ◌++◌, Text, if◌then◌else◌,
}
use ssh2_cpp.Libssh2.{Libssh2}
use ssh2_cpp.Effect.{
  M, pure, fault, undefined_behaviour, out_of_fuel, with_lock, assert, ◌>>=◌, ◌>>◌,
}
use ssh2_cpp.State.{FileHandleState}
use ssh2_cpp.Stream.Position.{with_file_name}
use ssh2_cpp.Wrapper.Sftp

module _ {S : Type 0} (api : Libssh2 S) (handle : FileHandleState) where
  -- One locked call of `libssh2::sftp::read`, into the buffer of the given length.
  unfoldable pub read_some : ℕ → M S (ℤ × Text)
  read_some len =
      with_lock
        (Sftp.read api handle.sftp.session.session_ptr handle.sftp.sftp_ptr handle.file_handle len)

  -- The body of the loop behind a call that returned `rc`: the end of the file ends it, the bytes are
  -- counted, and it goes on while the buffer is not full.
  unfoldable pub after_read : (ℤ → Text → M S (ℤ × Text)) → ℕ → ℤ → Text → ℤ → Text → M S (ℤ × Text)
  after_read again buffer_size count filled rc stored =
      if is_zero rc
      then pure (count, filled)
      else let count' = count +ℤ rc in
        let filled' = take (pos_part count') (filled ++ take (pos_part rc) stored) in
        if ltb_ℤ count' (pos buffer_size) then again count' filled' else pure (count', filled')

  -- `filled` are the first `count` bytes of the buffer, which has `buffer_size` bytes.
  unfoldable pub read_loop : ℕ → ℕ → ℤ → Text → M S (ℤ × Text)
  read_loop zero buffer_size count filled = fault out_of_fuel
  read_loop (suc fuel) buffer_size count filled =
      if is_negative count then fault undefined_behaviour else (do
        (rc, stored) ← read_some (pos_part (pos buffer_size -ℤ count))
        after_read (read_loop fuel buffer_size) buffer_size count filled rc stored)

  -- The count that is returned, and the bytes that the buffer then begins with.
  unfoldable pub read : ℕ → Text → ℕ → M S (ℤ × Text)
  read fuel open_path buffer_size = with_file_name open_path (read_loop fuel buffer_size (pos 0) [])

  -- One locked call of `libssh2::sftp::write`.
  unfoldable pub write_some : Text → M S ℤ
  write_some bytes =
      with_lock (
        Sftp.write api handle.sftp.session.session_ptr handle.sftp.sftp_ptr handle.file_handle
          bytes)

  unfoldable pub after_write : (ℤ → M S ℤ) → ℕ → ℤ → M S ℤ
  after_write again data_size count =
      if ltb_ℤ count (pos data_size) then again count else pure count

  unfoldable pub write_loop : ℕ → Text → ℤ → M S ℤ
  write_loop zero bytes count = fault out_of_fuel
  write_loop (suc fuel) bytes count = if is_negative count then fault undefined_behaviour else (do
    rc ← write_some (drop (pos_part count) bytes)
    after_write (write_loop fuel bytes) (length bytes) (count +ℤ rc))

  unfoldable pub write : ℕ → Text → Text → M S ℤ
  write fuel open_path bytes = with_file_name open_path (do
    count ← write_loop fuel bytes (pos 0)
    assert (eqb_ℤ count (pos (length bytes)))
    pure count)
