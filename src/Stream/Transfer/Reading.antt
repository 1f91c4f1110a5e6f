-- ===== src/Stream/Transfer/Reading.antt =====
-- `read` of ssh/stream.hpp over the answers of a server: one round of its loop.
use ssh2_cpp.Stream.Position.{with_file_name}
pub mod Loop
use ssh2_cpp.Base.{
  sym, ap, dec_lt, ℕ_discrete, append-nil, append_assoc, take_split, drop-drop, length-drop, zero,
  eq-nil_of_length, [], length-take, length-append, take-eq_of_le, ◌++◌, ◌∙◌, ◌≢◌, refl, ◌<◌, ◌-◌,
  pos-+ℤ, ◌≢◌, pos_part-sub, suc, ◌-◌, true, ℕ, ◌+◌, ◌≤◌, ◌<◌, ℤ, pos, length, take, drop, ◌∷◌,
  Text, Ptr, ◌≡◌, false, arith,
}
use ssh2_cpp.Libssh2.{Libssh2, libssh2_sftp_read}
use ssh2_cpp.Effect.{catch, Outcome, World, returned, ◌>>=◌, pure, call, with_lock}
use ssh2_cpp.State.{FileHandleState}
use ssh2_cpp.Wrapper.Sftp.{fetch_read}
use ssh2_cpp.Wrapper.Sftp
use ssh2_cpp.Error.{throw_if_error}
use ssh2_cpp.Stream.Transfer.{read, after_read, read_loop, read_some}

-- What libssh2 documents of `libssh2_sftp_read` on a handle, in blocking mode, as long as the
-- connection holds: it stores the next bytes of the file, at most as many as asked for, and advances by
-- their number; it stores none only at the end of the file or if none is asked for.
pub record ReadsFile {S : Type 0} (api : Libssh2 S) (handle : Ptr) (content : S → Text)
    (position : S → ℕ) (chunk : ℕ → S → ℕ) : Type 0 where
  pub bounded : (n : ℕ) (s : S) → chunk n s ≤ n
  pub available : (n : ℕ) (s : S) → chunk n s ≤ length (drop (position s) (content s))
  pub progress :
      (n : ℕ) (s : S) → 0 < n → 0 < length (drop (position s) (content s)) → 0 < chunk n s
  pub code : (n : ℕ) (s : S) → (api.sftp.read handle n s).0.0 ≡ pos (chunk n s)
  pub bytes :
      (n : ℕ) (s : S)
      → take (chunk n s) (api.sftp.read handle n s).0.1
        ≡ take (chunk n s) (drop (position s) (content s))
  pub kept : (n : ℕ) (s : S) → content (api.sftp.read handle n s).1 ≡ content s
  pub moved : (n : ℕ) (s : S) → position (api.sftp.read handle n s).1 ≡ position s + chunk n s

module _ {S : Type 0} (api : Libssh2 S) (handle : FileHandleState) where
  abbrev pub answer : ℕ → World S → (ℤ × Text) × S
  answer n w = api.sftp.read handle.file_handle n w.remote

  abbrev pub world_after : ℕ → World S → World S
  world_after n w = record w {
    remote = (answer n w).1;
    locked = false;
    calls = record { function = libssh2_sftp_read; under_lock = true } ∷ w.calls;
  }

  read_some_lem :
      (n k : ℕ) (w : World S)
      → w.locked ≡ false
      → (answer n w).0.0 ≡ pos k
      → read_some api handle n w ≡ (returned (answer n w).0, world_after n w)
  unfolding read_some Sftp.read ◌>>=◌ pure call with_lock throw_if_error
  read_some_lem n k w l e = ground arith

module _ {S : Type 0} (api : Libssh2 S) (handle : FileHandleState) {content : S → Text}
    {position : S → ℕ} {chunk : ℕ → S → ℕ}
    (reads : ReadsFile api handle.file_handle content position chunk) where
  abbrev pub rest_of : World S → Text
  rest_of w = drop (position w.remote) (content w.remote)

  -- One round of the loop, with `c` bytes read before it and `k` bytes by it.
  module _ (fuel n c : ℕ) (filled : Text) (w : World S) (l : w.locked ≡ false)
      (whole : length filled ≡ c) where
    abbrev pub k : ℕ
    k = chunk (n - c) w.remote

    pub filled' : Text
    filled' = filled ++ take k (rest_of w)

    -- What the round leaves at the front of the buffer.
    filled_after : take (c + k) (filled ++ take k (answer api handle (n - c) w).0.1) ≡ filled'
    unfolding filled'
    filled_after = rw (reads.bytes (n - c) w.remote) (
        take-eq_of_le (c + k) (filled ++ take k (rest_of w))
          (omega (arith, length-append filled (take k (rest_of w)), length-take k (rest_of w))))

    pub length-filled' : length filled' ≡ c + k
    unfolding filled'
    length-filled' = omega (
      arith,
      length-append filled (take k (rest_of w)),
      length-take k (rest_of w),
      reads.available (n - c) w.remote,
    )

    round :
        read_loop api handle (suc fuel) n (pos c) filled w
        ≡ after_read api handle
            (read_loop api handle fuel n)
            n
            (pos c)
            filled
            (pos k)
            (answer api handle (n - c) w).0.1
            (world_after api handle (n - c) w)
    unfolding read_loop ◌>>=◌
    round =
        rw (pos_part-sub n c, read_some_lem api handle (n - c) k w l (reads.code (n - c) w.remote))
          (rw (reads.code (n - c) w.remote) refl)

    pub round_end :
        k ≡ 0
        → read_loop api handle (suc fuel) n (pos c) filled w
          ≡ (returned (pos c, filled), world_after api handle (n - c) w)
    unfolding after_read pure
    round_end e = round ∙ ground arith

    pub round_more :
        k ≢ 0
        → c + k < n
        → read_loop api handle (suc fuel) n (pos c) filled w
          ≡ read_loop api handle fuel n (pos (c + k)) filled' (world_after api handle (n - c) w)
    unfolding after_read
    round_more e more = round ∙ rw pos-+ℤ (rw (filled_after) (ground arith))

    pub round_last :
        k ≢ 0
        → n ≤ c + k
        → read_loop api handle (suc fuel) n (pos c) filled w
          ≡ (returned (pos (c + k), filled'), world_after api handle (n - c) w)
    unfolding after_read pure
    round_last e last = round ∙ rw pos-+ℤ (rw (filled_after) (ground arith))
