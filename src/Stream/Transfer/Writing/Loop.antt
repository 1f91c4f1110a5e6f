-- ===== src/Stream/Transfer/Writing/Loop.antt =====
-- `write` of ssh/stream.hpp over the answers of a server: the loop and the function.
use ssh2_cpp.Effect.{pure, assert, returned, ◌>>=◌, catch, World}
use ssh2_cpp.State.{FileHandleState}
use ssh2_cpp.Libssh2.{Libssh2}
use ssh2_cpp.Stream.Position.{with_file_name}
use ssh2_cpp.Stream.Transfer.{write, write_loop, after_write}
use ssh2_cpp.Stream.Transfer.Writing.{
  WritesFile, world_after, splice, splice-splice, length-splice, write_round,
}
use ssh2_cpp.Base.{
  take-append-drop, drop-drop, ◌++◌, length-take, take-eq_of_le, dec_lt, take, ◌∙◌, length-drop,
  ◌-◌, ap, ◌<◌, ◌+◌, drop, ◌≤◌, length, false, ◌≡◌, pos, Text, ℕ, arith, refl, suc, zero,
}

module _ {S : Type 0} (api : Libssh2 S) (handle : FileHandleState) {content : S → Text}
    {position : S → ℕ} {chunk : Text → S → ℕ}
    (writes : WritesFile api handle.file_handle content position chunk) where
  -- Where the loop ends that has `todo` left to write.
  record Stores (fuel c : ℕ) (bytes : Text) (w w' : World S) : Type 0 where
    result : write_loop api handle fuel bytes (pos c) w ≡ (returned (pos (length bytes)), w')
    stored : content w'.remote ≡ splice (content w.remote) (position w.remote) (drop c bytes)
    advanced : position w'.remote ≡ position w.remote + length (drop c bytes)
    released : w'.locked ≡ false

  module _ (fuel c : ℕ) (bytes : Text) (w : World S) (l : w.locked ≡ false)
      (within : position w.remote ≤ length (content w.remote)) (part : c ≤ length bytes) where
    abbrev todo : Text
    todo = drop c bytes

    abbrev j : ℕ
    j = chunk todo w.remote

    abbrev next : World S
    next = world_after api handle todo w

    j_bounds : c + j ≤ length bytes
    j_bounds = omega (arith, writes.bounded todo w.remote, length-drop c bytes)

    goes_on : c < length bytes → 0 < j
    goes_on more = writes.progress todo w.remote (omega (arith, length-drop c bytes))

    Stores-last : c + j ≡ length bytes → Stores (suc fuel) c bytes w next
    unfolding after_write pure
    Stores-last e = record {
      result = write_round api handle fuel c j bytes w l (writes.code todo w.remote) ∙ ground arith;
      stored =
          writes.stored todo w.remote within
          ∙ ap (splice (content w.remote) (position w.remote))
              (take-eq_of_le j todo (omega (arith, length-drop c bytes)));
      advanced = omega (arith, writes.moved todo w.remote, length-drop c bytes);
      released = refl;
    }

    within_next : position next.remote ≤ length (content next.remote)
    within_next = omega (
      arith,
      writes.moved todo w.remote,
      ap length (writes.stored todo w.remote within),
      length-splice (content w.remote) (position w.remote) (take j todo) within,
      length-take j todo,
      writes.bounded todo w.remote,
    )

    stored_next :
        splice (content next.remote) (position next.remote) (drop (c + j) bytes)
        ≡ splice (content w.remote) (position w.remote) todo
    stored_next =
        ap (λ t. splice t (position next.remote) (drop (c + j) bytes))
          (writes.stored todo w.remote within)
        ∙ splice-splice (content w.remote) (position w.remote) (take j todo) (drop (c + j) bytes)
            (position next.remote) within
            (omega
              (arith, writes.moved todo w.remote, length-take j todo, writes.bounded todo w.remote))
        ∙ ap (splice (content w.remote) (position w.remote)) (
            ap (λ t. take j todo ++ t) (drop-drop c j (c + j) bytes refl) ∙ take-append-drop j todo)

    Stores-more :
        {w' : World S}
        → c + j < length bytes
        → Stores fuel (c + j) bytes next w'
        → Stores (suc fuel) c bytes w w'
    unfolding after_write
    Stores-more more d = record {
      result =
          write_round api handle fuel c j bytes w l (writes.code todo w.remote)
          ∙ ground (arith, d.result);
      stored = d.stored ∙ stored_next;
      advanced = omega (
        arith,
        d.advanced,
        writes.moved todo w.remote,
        length-drop c bytes,
        length-drop (c + j) bytes,
      );
      released = d.released;
    }

  write_loop-Stores :
      (fuel c : ℕ) (bytes : Text) (w : World S)
      → w.locked ≡ false
      → position w.remote ≤ length (content w.remote)
      → c ≤ length bytes
      → length bytes - c < fuel
      → (w' : World S) × Stores fuel c bytes w w'
  write_loop-Stores zero c bytes w l within part enough = absurd (omega arith)
  write_loop-Stores (suc fuel) c bytes w l within part enough =
      elim (dec_lt (c + j fuel c bytes w l within part) (length bytes)) [
        | yes more ↦
            let (w', d) =
              write_loop-Stores fuel (c + j fuel c bytes w l within part) bytes
                (next fuel c bytes w l within part) refl (within_next fuel c bytes w l within part)
                (omega arith) (omega (arith, goes_on fuel c bytes w l within part)) in
            (w', Stores-more fuel c bytes w l within part more d)
        | no last ↦ (
          _,
          Stores-last fuel c bytes w l within part
              (omega (arith, j_bounds fuel c bytes w l within part)),
        )
      ]

  -- What a write does: it returns the number of its bytes, which then stand in the file from the
  -- position on, the rest of the file being as before; the position is behind them, the mutex free.
  pub record Writes (fuel : ℕ) (path bytes : Text) (w w' : World S) : Type 0 where
    pub result : write api handle fuel path bytes w ≡ (returned (pos (length bytes)), w')
    pub stored : content w'.remote ≡ splice (content w.remote) (position w.remote) bytes
    pub advanced : position w'.remote ≡ position w.remote + length bytes
    pub released : w'.locked ≡ false

  -- On a handle whose writes are as documented, at a position in the file, with the mutex free and fuel
  -- for one call more than there are bytes, `write` stores all the bytes and returns their number,
  -- however few each call accepts.
  pub write-Writes :
      (fuel : ℕ) (path bytes : Text) (w : World S)
      → w.locked ≡ false
      → position w.remote ≤ length (content w.remote)
      → length bytes < fuel
      → (w' : World S) × Writes fuel path bytes w w'
  unfolding write with_file_name catch ◌>>=◌ assert pure
  write-Writes fuel path bytes w l within enough =
      let (w', d) = write_loop-Stores fuel 0 bytes w l within (omega arith) (omega arith) in
      (
        w',
        record {
          result = rw d.result (ground arith);
          stored = d.stored;
          advanced = d.advanced;
          released = d.released;
        },
      )
