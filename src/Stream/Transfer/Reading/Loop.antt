-- ===== src/Stream/Transfer/Reading/Loop.antt =====
-- `read` of ssh/stream.hpp over the answers of a server: the loop and the function.
use ssh2_cpp.Stream.Position.{with_file_name}
use ssh2_cpp.Effect.{returned, Outcome, catch, World}
use ssh2_cpp.State.{FileHandleState}
use ssh2_cpp.Libssh2.{Libssh2}
use ssh2_cpp.Stream.Transfer.{read, read_loop}
use ssh2_cpp.Stream.Transfer.Reading.{
  ReadsFile, world_after, rest_of, filled', length-filled', round_end, round_more, round_last,
}
use ssh2_cpp.Base.{
  refl, zero, take_split, dec_lt, length-drop, drop-drop, sym, ℕ_discrete, ◌∙◌, length-take,
  append_assoc, ap, ◌≤◌, length-append, eq-nil_of_length, drop, ◌≢◌, suc, [], ◌+◌, ◌<◌, length, ℤ,
  false, take, arith, ◌++◌, ◌≡◌, ◌-◌, pos, Text, ℕ, append-nil,
}

sub_zero : (n : ℕ) → n - 0 ≡ n
sub_zero n = omega arith

same_end :
    {S : Type 0} {d e : ℕ} {t u : Text} {w : World S}
    → t ≡ u
    → d ≡ e
    → ◌≡◌ {A = Outcome (ℤ × Text) × World S} (returned (pos d, t), w) (returned (pos e, u), w)
same_end p q = cc

module _ {S : Type 0} (api : Libssh2 S) (handle : FileHandleState) {content : S → Text}
    {position : S → ℕ} {chunk : ℕ → S → ℕ}
    (reads : ReadsFile api handle.file_handle content position chunk) where
  abbrev rest : World S → Text
  rest = rest_of api handle reads

  -- The bytes that the loop has delivered when it ends, and the world that it then leaves.
  abbrev delivered : ℕ → ℕ → Text → World S → Text
  delivered n c filled w = filled ++ take (n - c) (rest w)

  record Delivers (fuel n c : ℕ) (filled : Text) (w w' : World S) : Type 0 where
    result :
        read_loop api handle fuel n (pos c) filled w
        ≡ (returned (pos (length (delivered n c filled w)), delivered n c filled w), w')
    kept : content w'.remote ≡ content w.remote
    advanced : position w'.remote ≡ position w.remote + length (take (n - c) (rest w))
    released : w'.locked ≡ false

  module _ (fuel n c : ℕ) (filled : Text) (w : World S) (l : w.locked ≡ false)
      (whole : length filled ≡ c) where
    abbrev j : ℕ
    j = chunk (n - c) w.remote

    nothing_left : j ≡ 0 → take (n - c) (rest w) ≡ []
    nothing_left e =
        eq-nil_of_length (take (n - c) (rest w))
          (grind (arith, length-take (n - c) (rest w), reads.progress (n - c) w.remote))

    abbrev next : World S
    next = world_after api handle (n - c) w

    Delivers-end : j ≡ 0 → Delivers (suc fuel) n c filled w next
    Delivers-end e = record {
      result =
          rw (nothing_left e, append-nil, whole)
            (round_end api handle reads fuel n c filled w l whole e);
      kept = reads.kept (n - c) w.remote;
      advanced = rw (nothing_left e) (omega (arith, reads.moved (n - c) w.remote));
      released = refl;
    }

    length-delivered : length (delivered n c filled w) ≡ c + length (take (n - c) (rest w))
    length-delivered = omega (arith, length-append filled (take (n - c) (rest w)))

    all_asked : j ≢ 0 → n ≤ c + j → n - c ≡ j
    all_asked e last = omega (arith, reads.bounded (n - c) w.remote)

    delivered_last :
        j ≢ 0
        → n ≤ c + j
        → filled' api handle reads fuel n c filled w l whole ≡ delivered n c filled w
    unfolding filled'
    delivered_last e last = ap (λ m. filled ++ take m (rest w)) (sym (all_asked e last))

    taken_last : j ≢ 0 → n ≤ c + j → length (take (n - c) (rest w)) ≡ j
    taken_last e last =
        omega
          (arith, length-take (n - c) (rest w), all_asked e last, reads.available (n - c) w.remote)

    Delivers-last : j ≢ 0 → n ≤ c + j → Delivers (suc fuel) n c filled w next
    Delivers-last e last = record {
      result =
          round_last api handle reads fuel n c filled w l whole e last
          ∙ same_end (delivered_last e last) (omega (arith, length-delivered, taken_last e last));
      kept = reads.kept (n - c) w.remote;
      advanced = omega (arith, reads.moved (n - c) w.remote, taken_last e last);
      released = refl;
    }

    rest-next : rest next ≡ drop j (rest w)
    rest-next =
        ap (λ t. drop (position next.remote) t) (reads.kept (n - c) w.remote)
        ∙ drop-drop (position w.remote) j (position next.remote) (content w.remote)
            (reads.moved (n - c) w.remote)

    delivered_more :
        c + j < n
        → delivered n (c + j) (filled' api handle reads fuel n c filled w l whole) next
          ≡ delivered n c filled w
    unfolding filled'
    delivered_more more =
        append_assoc filled (take j (rest w)) (take (n - (c + j)) (rest next))
        ∙ ap (λ t. filled ++ t)
            (ap (λ t. take j (rest w) ++ take (n - (c + j)) t) rest-next
              ∙ sym (take_split j (n - (c + j)) (n - c) (rest w) (omega arith)))

    taken_more :
        c + j < n → j + length (take (n - (c + j)) (rest next)) ≡ length (take (n - c) (rest w))
    taken_more more = omega (
      arith,
      length-take (n - c) (rest w),
      length-take (n - (c + j)) (rest next),
      ap length rest-next,
      length-drop j (rest w),
      reads.available (n - c) w.remote,
    )

    Delivers-more :
        {w' : World S}
        → j ≢ 0
        → c + j < n
        → Delivers fuel n (c + j) (filled' api handle reads fuel n c filled w l whole) next w'
        → Delivers (suc fuel) n c filled w w'
    Delivers-more e more d = record {
      result =
          round_more api handle reads fuel n c filled w l whole e more
          ∙ d.result
          ∙ same_end (delivered_more more) (ap length (delivered_more more));
      kept = d.kept ∙ reads.kept (n - c) w.remote;
      advanced = omega (arith, d.advanced, reads.moved (n - c) w.remote, taken_more more);
      released = d.released;
    }

  -- Enough fuel for one call more than there are bytes to read: the loop ends, and delivers.
  read_loop-Delivers :
      (fuel n c : ℕ) (filled : Text) (w : World S)
      → w.locked ≡ false
      → length filled ≡ c
      → n - c < fuel
      → (w' : World S) × Delivers fuel n c filled w w'
  read_loop-Delivers zero n c filled w l whole enough = absurd (omega arith)
  read_loop-Delivers (suc fuel) n c filled w l whole enough =
      elim (ℕ_discrete (j fuel n c filled w l whole) 0) [
        | yes e ↦ (_, Delivers-end fuel n c filled w l whole e)
        | no e ↦ elim (dec_lt (c + j fuel n c filled w l whole) n) [
          | yes more ↦
              let (w', d) =
                read_loop-Delivers fuel n (c + j fuel n c filled w l whole)
                  (filled' api handle reads fuel n c filled w l whole)
                  (next fuel n c filled w l whole) refl
                  (length-filled' api handle reads fuel n c filled w l whole) (omega arith) in
              (w', Delivers-more fuel n c filled w l whole e more d)
          | no last ↦ (_, Delivers-last fuel n c filled w l whole e (omega arith))
        ]
      ]

  -- The world keeps the file's contents, the mutex is free, and the position has moved by the bytes read.
  pub record Reads (fuel n : ℕ) (path : Text) (w w' : World S) : Type 0 where
    pub result :
        read api handle fuel path n w
        ≡ (returned (pos (length (take n (rest w))), take n (rest w)), w')
    pub kept : content w'.remote ≡ content w.remote
    pub advanced : position w'.remote ≡ position w.remote + length (take n (rest w))
    pub released : w'.locked ≡ false

  -- On a handle whose reads are as documented, with the mutex free and fuel for one call more than there
  -- are bytes asked for, `read` returns the next bytes of the file, as many as asked for or all that are
  -- left, with their count, however few each call delivers; it advances the position by them, keeps the
  -- file and leaves the mutex free.
  pub read-Reads :
      (fuel n : ℕ) (path : Text) (w : World S)
      → w.locked ≡ false
      → n < fuel
      → (w' : World S) × Reads fuel n path w w'
  unfolding read with_file_name catch
  read-Reads fuel n path w l enough =
      let (w', d) = read_loop-Delivers fuel n 0 [] w l refl (omega arith) in
      (
        w',
        record {
          result = rw (rw (sub_zero n) at d.result) refl;
          kept = d.kept;
          advanced = rw (sub_zero n) at d.advanced;
          released = d.released;
        },
      )
