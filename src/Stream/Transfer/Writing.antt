-- ===== src/Stream/Transfer/Writing.antt =====
-- `write` of ssh/stream.hpp over the answers of a server: one round of its loop.
pub mod Loop
use ssh2_cpp.Error.{throw_if_error}
use ssh2_cpp.Effect.{returned, with_lock, call, pure, ◌>>=◌, World}
use ssh2_cpp.State.{FileHandleState}
use ssh2_cpp.Libssh2.{libssh2_sftp_write, Libssh2}
use native.Mathlib.Nat.{add-zero}
use ssh2_cpp.Wrapper.Sftp
use ssh2_cpp.Stream.Transfer.{write_some, write_loop, after_write}
use ssh2_cpp.Base.{
  append_assoc, take-append, sym, drop-append, ◌∷◌, drop-drop, take-append-drop, pos-+ℤ, true,
  length-take, ◌∙◌, length-append, ap, pos, false, ℤ, ◌+◌, append-nil, ◌<◌, drop, ◌≡◌, length, ◌++◌,
  ◌≤◌, [], Ptr, take, Text, ℕ, arith, refl, suc,
}

-- The file with `xs` written over it from `p` on.
abbrev pub splice : Text → ℕ → Text → Text
splice c p xs = (take p c ++ xs) ++ drop (p + length xs) c

-- What libssh2 documents of `libssh2_sftp_write` on a handle that does not append, in blocking mode,
-- as long as the connection holds: it writes a beginning of the bytes at the position, which is not
-- behind the end of the file, returns their number and advances by it; it writes none only of none.
pub record WritesFile {S : Type 0} (api : Libssh2 S) (handle : Ptr) (content : S → Text)
    (position : S → ℕ) (chunk : Text → S → ℕ) : Type 0 where
  pub bounded : (bytes : Text) (s : S) → chunk bytes s ≤ length bytes
  pub progress : (bytes : Text) (s : S) → 0 < length bytes → 0 < chunk bytes s
  pub code : (bytes : Text) (s : S) → (api.sftp.write handle bytes s).0 ≡ pos (chunk bytes s)
  pub stored :
      (bytes : Text) (s : S)
      → position s ≤ length (content s)
      → content (api.sftp.write handle bytes s).1
        ≡ splice (content s) (position s) (take (chunk bytes s) bytes)
  pub moved :
      (bytes : Text) (s : S)
      → position (api.sftp.write handle bytes s).1 ≡ position s + chunk bytes s

pub splice-nil : (c : Text) (p : ℕ) → splice c p [] ≡ c
splice-nil c p = rw append-nil (ap (λ m. take p c ++ drop m c) (add-zero p) ∙ take-append-drop p c)

pub length-splice :
    (c : Text) (p : ℕ) (xs : Text) → p ≤ length c → p + length xs ≤ length (splice c p xs)
length-splice c p xs h = omega (
  arith,
  length-append (take p c ++ xs) (drop (p + length xs) c),
  length-append (take p c) xs,
  length-take p c,
)

-- Two writes, the second where the first ended, are one write of both.
pub splice-splice :
    (c : Text) (p : ℕ) (xs ys : Text) (q : ℕ)
    → p ≤ length c
    → q ≡ p + length xs
    → splice (splice c p xs) q ys ≡ splice c p (xs ++ ys)
splice-splice c p xs ys q h e =
    ap (λ t. (t ++ ys) ++ drop (q + length ys) (splice c p xs)) (take-append front back q e')
    ∙ ap (λ t. (front ++ ys) ++ t) behind
    ∙ ap (λ t. t ++ drop (p + length (xs ++ ys)) c) (append_assoc (take p c) xs ys)
  where
    front : Text
    front = take p c ++ xs

    back : Text
    back = drop (p + length xs) c

    e' : q ≡ length front
    e' = omega (arith, length-append (take p c) xs, length-take p c)

    behind : drop (q + length ys) (splice c p xs) ≡ drop (p + length (xs ++ ys)) c
    behind =
        drop-drop q (length ys) (q + length ys) (splice c p xs) refl
        ∙ ap (drop (length ys)) (drop-append front back q e')
        ∙ sym (
            drop-drop (p + length xs) (length ys) (p + length (xs ++ ys)) c
              (omega (arith, length-append xs ys)))

module _ {S : Type 0} (api : Libssh2 S) (handle : FileHandleState) where
  abbrev pub answer : Text → World S → ℤ × S
  answer bytes w = api.sftp.write handle.file_handle bytes w.remote

  abbrev pub world_after : Text → World S → World S
  world_after bytes w = record w {
    remote = (answer bytes w).1;
    locked = false;
    calls = record { function = libssh2_sftp_write; under_lock = true } ∷ w.calls;
  }

  write_some_lem :
      (bytes : Text) (k : ℕ) (w : World S)
      → w.locked ≡ false
      → (answer bytes w).0 ≡ pos k
      → write_some api handle bytes w ≡ (returned (pos k), world_after bytes w)
  unfolding write_some Sftp.write ◌>>=◌ pure call with_lock throw_if_error
  write_some_lem bytes k w l e = ground arith

  -- One round of the loop, with `c` bytes written before it and `k` bytes by it.
  pub write_round :
      (fuel c k : ℕ) (bytes : Text) (w : World S)
      → w.locked ≡ false
      → (answer (drop c bytes) w).0 ≡ pos k
      → write_loop api handle (suc fuel) bytes (pos c) w
        ≡ after_write api handle
            (write_loop api handle fuel bytes)
            (length bytes)
            (pos (c + k))
            (world_after (drop c bytes) w)
  unfolding write_loop ◌>>=◌
  write_round fuel c k bytes w l e = rw (write_some_lem (drop c bytes) k w l e) (rw pos-+ℤ refl)
