-- ===== src/KnownHosts/Entry/Line.antt =====
-- `to_string` of ssh/knownhost.hpp over libssh2's printing of an entry.
use ssh2_cpp.Base.{
  ltb, ◌%◌, ◌-◌, min, ◌≡◌, ◌≢◌, refl, ap, ◌∙◌, arith, ℕ, ◌+◌, ◌<◌, ◌^◌, ◌==◌, ℤ, pos, is_negative,
  true, false, Option, none, some, List, [], ◌∷◌, ◌++◌, take, length, Text, if◌then◌else◌,
  eqb_ℤ_iff, take-append, append_assoc,
}
use ssh2_cpp.Libssh2.{
  libssh2_session_last_errno, libssh2_knownhost_writeline, Libssh2, HasDistinctCodes,
  buffer_too_small,
}
use ssh2_cpp.Effect.{ssh, World, returned, pure, call, with_lock, ◌>>=◌}
use ssh2_cpp.Effect.Laws.{assert-true, nonzero}
use ssh2_cpp.Error.{fresh_slot, last_error_code, throw_if_error}
use ssh2_cpp.Error.Condition.{equals_errc-ssh, no_buffer_space}
use ssh2_cpp.Wrapper.Knownhost
use ssh2_cpp.KnownHosts.Entry.{Hosts, to_string}

-- The line of the entry at an address, in a list of addresses with their lines.
unfoldable pub line_at : ℕ → List (ℕ × Text) → Option Text
line_at p [] = none
line_at p ((q, t) ∷ hosts) = let rest = line_at p hosts in if p == q then some t else rest

-- What libssh2 documents of `libssh2_knownhost_writeline` in a collection that consists of the entries
-- `view s`, for an entry with the line `t`, its newline left off: into no buffer it fails as the
-- buffer is too small, and reports the length of the line with its newline; into a buffer with a byte
-- more than that it writes the line, a newline and a null byte, and reports the same length. Neither it
-- nor the question for the last error changes the collection.
pub record PrintsLines {S : Type 0} (api : Libssh2 S) (owner : Hosts) (type : ℤ)
    (view : S → List (ℕ × Text)) : Type 0 where
  pub error_code : api.codes.ssh_error buffer_too_small ≢ pos 0
  pub refused :
      (p : ℕ) (t : Text) (s : S)
      → line_at p (view s) ≡ some t
      → let r = (api.knownhost.writeline owner.hosts (some p) 0 type s) in
        (is_negative r.0.0 ≡ true)
        × (r.0.2 ≡ length t + 1)
        × ((api.session.last_errno owner.session.session_ptr r.1).0
            ≡ api.codes.ssh_error buffer_too_small)
  pub printed :
      (p : ℕ) (t : Text) (s : S)
      → line_at p (view s) ≡ some t
      → (api.knownhost.writeline owner.hosts (some p) (length t + 2) type s).0
        ≡ (pos 0, t ++ 10 ∷ 0 ∷ [], length t + 1)
  pub writeline_keeps :
      (p n : ℕ) (s : S) → view (api.knownhost.writeline owner.hosts (some p) n type s).1 ≡ view s
  pub last_errno_keeps :
      (s : S) → view (api.session.last_errno owner.session.session_ptr s).1 ≡ view s

module _ {S : Type 0} (api : Libssh2 S) (d : HasDistinctCodes api.codes) (owner : Hosts) (type : ℤ)
    (view : S → List (ℕ × Text)) (prints : PrintsLines api owner type view) where
  -- The entry's line was returned, the collection is as before, and the mutex is free.
  pub record Prints (p : ℕ) (t : Text) (w w' : World S) : Type 0 where
    pub result : to_string api (record { owner = owner; pos = some p }) type w ≡ (returned t, w')
    pub same : view w'.remote ≡ view w.remote
    pub released : w'.locked ≡ false

  abbrev measured : ℕ → World S → (ℤ × Text × ℕ) × S
  measured p w = api.knownhost.writeline owner.hosts (some p) 0 type w.remote

  abbrev measured_world : ℕ → World S → World S
  measured_world p w = record w {
    remote = (api.session.last_errno owner.session.session_ptr (measured p w).1).1;
    locked = false;
    calls =
        record { function = libssh2_session_last_errno; under_lock = true }
        ∷ record { function = libssh2_knownhost_writeline; under_lock = true }
        ∷ w.calls;
  }

  abbrev printed_world : ℕ → ℕ → World S → World S
  printed_world p n w = record w {
    remote = (api.knownhost.writeline owner.hosts (some p) n type w.remote).1;
    locked = false;
    calls = record { function = libssh2_knownhost_writeline; under_lock = true } ∷ w.calls;
  }

  module _ (p : ℕ) (t : Text) (w : World S) (l : w.locked ≡ false)
      (e : line_at p (view w.remote) ≡ some t) where
    measure_lem :
        with_lock
          (Knownhost.fetch_writeline api owner.session.session_ptr owner.hosts
            (some p)
            0
            type
            (record fresh_slot { e_msg = none }))
          w
        ≡ (
          returned (
            ((measured p w).0.1, length t + 1),
            record {
              ec = record { value = api.codes.ssh_error buffer_too_small; category = ssh };
              e_msg = none;
            },
          ),
          measured_world p w,
        )
    unfolding with_lock ◌>>=◌ call pure last_error_code Knownhost.fetch_writeline
    measure_lem =
        let (bad, needed, reported) = prints.refused p t w.remote e in
        rw (l, bad, reported, nonzero prints.error_code, assert-true, needed) refl

    print_lem :
        with_lock
          (Knownhost.writeline api owner.session.session_ptr owner.hosts
            (some p)
            (length t + 2)
            type)
          w
        ≡ (returned (t ++ 10 ∷ 0 ∷ [], length t + 1), printed_world p (length t + 2) w)
    unfolding with_lock ◌>>=◌ call pure Knownhost.writeline throw_if_error
    print_lem = rw (l, prints.printed p t w.remote e) refl

  -- The numbers that `to_string` computes for a line.
  size_of_line : (t : Text) → length t + 2 < 2 ^ 64 → (length t + 1 + 1) % 2 ^ 64 ≡ length t + 2
  size_of_line t h = omega arith

  not_empty : (t : Text) → (length t + 2 == 0) ≡ false
  not_empty t = ground arith

  whole_line : (t : Text) → (length t + 1 == length t + 2 - 1) ≡ true
  whole_line t = ground arith

  copied :
      (t : Text)
      → length t + 2 < 2 ^ 64
      → min ((length t + 2 + 2 ^ 64 - 2) % 2 ^ 64) ((length t + 1 + 2 ^ 64 - 1) % 2 ^ 64) ≡ length t
  copied t h = omega arith

  room : (t : Text) → ltb (length t + 2) (length t) ≡ false
  room t = ground arith

  -- The line is the buffer but for its newline and its null byte.
  line_taken : (rest t : Text) → take (length t) ((t ++ 10 ∷ 0 ∷ []) ++ rest) ≡ t
  line_taken rest t = rw append_assoc (take-append t _ (length t) refl)

  -- In a collection that prints its entries as documented, whose codes are distinct, and with the mutex
  -- free: `to_string` of an entry returns its line, without a newline, if a buffer for it has a size
  -- below 2^64; it keeps the collection and leaves the mutex free.
  pub to_string-Prints :
      (p : ℕ) (t : Text) (w : World S)
      → w.locked ≡ false
      → line_at p (view w.remote) ≡ some t
      → length t + 2 < 2 ^ 64
      → (w' : World S) × Prints p t w w'
  unfolding to_string ◌>>=◌ pure
  to_string-Prints p t w l e fits =
      let v = measured_world p w in
      let same : view v.remote ≡ view w.remote =
        prints.last_errno_keeps (measured p w).1 ∙ prints.writeline_keeps p 0 w.remote in
      (
        printed_world p (length t + 2) v,
        record {
          result =
              rw
                (
                  measure_lem p t w l e,
                  equals_errc-ssh api.codes d (api.codes.ssh_error buffer_too_small)
                      no_buffer_space,
                  (eqb_ℤ_iff (api.codes.ssh_error buffer_too_small) _).1 refl,
                  assert-true,
                  size_of_line t fits,
                  not_empty t,
                  print_lem p t v refl (ap (line_at p) same ∙ e),
                  whole_line t,
                  assert-true,
                )
                (rw (copied t fits, room t)
                  (ap (λ (u : Text). (returned u, printed_world p (length t + 2) v))
                    (line_taken _ t)));
          same = prints.writeline_keeps p (length t + 2) v.remote ∙ same;
          released = refl;
        },
      )
