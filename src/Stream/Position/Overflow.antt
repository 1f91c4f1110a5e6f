-- ===== src/Stream/Position/Overflow.antt =====
-- Sums of positions and offsets, and what `seek` does at their limits.
use ssh2_cpp.State.{FileHandleState}
use ssh2_cpp.Libssh2.{libssh2_sftp_seek64, Libssh2}
use ssh2_cpp.Effect.{logic_error, plain, thrown, returned, World, ◌>>=◌, call, throw, pure}
use ssh2_cpp.Base.{
  ◌⊎◌, ◌∷◌, false, Text, ℕ, ◌+◌, ◌^◌, ◌≤◌, ◌<◌, ℤ, pos, negsuc, pos_part, neg_part, ◌≡◌, arith, ◌↔◌,
}
use ssh2_cpp.Stream.Position.{beg, cur, seek, add_offset}

-- A value of `int64_t`.
abbrev pub InInt64 : ℤ → Type 0
InInt64 z = (pos_part z < 2 ^ 63) × (neg_part z ≤ 2 ^ 63)

-- The sum of a position and an offset is below 0, or 2^63 or more.
abbrev pub OutOfRange : ℕ → ℤ → Type 0
OutOfRange base off =
    (base + pos_part off < neg_part off) ⊎ (2 ^ 63 + neg_part off ≤ base + pos_part off)

-- The sum of a position below 2^63 and an `int64_t` is exact if it is an `int64_t` that is not
-- negative, and comes out negative otherwise: it never wraps around to a wrong position.
pub add_offset_exact :
    (base : ℕ) (off : ℤ)
    → base < 2 ^ 63
    → InInt64 off
    → ((p : ℕ)
        → (add_offset base off ≡ pos p) ↔ ((base + pos_part off ≡ p + neg_part off) × (p < 2 ^ 63)))
unfolding add_offset
add_offset_exact base (pos n) b r p = ground arith
add_offset_exact base (negsuc n) b r p = ground arith

module _ {S : Type 0} (api : Libssh2 S) (handle : FileHandleState) (path : Text) where
  -- A seek from the current position, which is below 2^63, by an `int64_t` returns exactly their sum,
  -- and only if the sum is an `int64_t` that is not negative.
  pub seek_cur_exact :
      (off : ℤ) (w : World S)
      → (api.sftp.tell64 handle.file_handle w.remote).0 < 2 ^ 63
      → InInt64 off
      → (p : ℕ)
      → ((seek api handle path off cur w).0 ≡ returned (pos p)) ↔ (
          ((api.sftp.tell64 handle.file_handle w.remote).0 + pos_part off ≡ p + neg_part off)
          × (p < 2 ^ 63))
  unfolding seek ◌>>=◌ pure throw call
  seek_cur_exact off w b r p =
      ground (arith, add_offset_exact (api.sftp.tell64 handle.file_handle w.remote).0 off b r p)

  -- A seek from the current position, which is below 2^63, by an `int64_t` throws `logic_error` exactly
  -- if their sum is negative or is 2^63 or more, and has then left libssh2 as the query of the position
  -- left it: no position is set.
  pub seek_cur_refused :
      (off : ℤ) (w : World S)
      → (api.sftp.tell64 handle.file_handle w.remote).0 < 2 ^ 63
      → InInt64 off
      → (((seek api handle path off cur w).0
            ≡ thrown (plain (logic_error "Cannot seek before start of file")))
          ↔ OutOfRange (api.sftp.tell64 handle.file_handle w.remote).0 off)
        × (OutOfRange (api.sftp.tell64 handle.file_handle w.remote).0 off
            → (seek api handle path off cur w).1.remote
              ≡ (api.sftp.tell64 handle.file_handle w.remote).1)
  unfolding seek ◌>>=◌ pure throw call add_offset
  seek_cur_refused (pos n) w b r = ground arith
  seek_cur_refused (negsuc n) w b r = ground arith

  -- A seek from the beginning to an offset that is not negative makes one call into libssh2, which sets
  -- the position, and makes it without holding the session's mutex, if the mutex was free.
  pub seek_unlocked :
      (n : ℕ) (w : World S)
      → w.locked ≡ false
      → (seek api handle path (pos n) beg w).1.calls
        ≡ record { function = libssh2_sftp_seek64; under_lock = false } ∷ w.calls
  unfolding seek ◌>>=◌ pure throw call
  seek_unlocked n w h = ground arith
