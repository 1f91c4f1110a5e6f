-- ===== src/KnownHosts/Iterator/Walk.antt =====
-- The walk of an iterator of ssh/knownhost.hpp over the entries of a collection.
use ssh2_cpp.Base.{
  ◌≡◌, ◌≢◌, refl, arith, ℕ, ◌==◌, ℤ, pos, true, false, none, some, List, [], ◌∷◌, ◌++◌, Text, Ptr,
  if◌then◌else◌,
}
use ssh2_cpp.Libssh2.{Libssh2, libssh2_knownhost_get}
use ssh2_cpp.Effect.{World, returned, pure, call, with_lock, ◌>>=◌}
use ssh2_cpp.Effect.Laws.{assert-true}
use ssh2_cpp.Error.{throw_if_error}
use ssh2_cpp.Wrapper.Knownhost
use ssh2_cpp.KnownHosts.Entry.{Hosts}
use ssh2_cpp.KnownHosts.Entry.Line.{line_at}
use ssh2_cpp.KnownHosts.Iterator.{next_host}

-- The address of the first entry, or of the one behind that at `p`.
unfoldable pub next_address : Ptr → List (ℕ × Text) → Ptr
next_address current [] = none
next_address none ((q, t) ∷ hosts) = some q
next_address (some p) ((q, t) ∷ hosts) =
    let first = next_address none hosts in
    let later = next_address (some p) hosts in if p == q then first else later

-- What libssh2 answers when there is a next entry, or none.
abbrev pub answer : Ptr → ℤ × Ptr
answer none = (pos 1, none)
answer (some q) = (pos 0, some q)

-- What libssh2 documents of `libssh2_knownhost_get` in a collection that consists of the entries
-- `view s`: from no position it gives the first entry, from an entry the one behind it, and it reports
-- the end where there is none; it does not change the collection.
pub record ListsHosts {S : Type 0} (api : Libssh2 S) (owner : Hosts) (view : S → List (ℕ × Text))
    : Type 0 where
  pub first :
      (s : S) → (api.knownhost.get owner.hosts none none s).0 ≡ answer (next_address none (view s))
  pub next :
      (p : ℕ) (t : Text) (s : S)
      → line_at p (view s) ≡ some t
      → (api.knownhost.get owner.hosts none (some p) s).0 ≡ answer (next_address (some p) (view s))
  pub get_keeps :
      (current : Ptr) (s : S) → view (api.knownhost.get owner.hosts none current s).1 ≡ view s

-- No two entries have the same address.
abbrev pub IsDistinct : List (ℕ × Text) → Type 0
IsDistinct [] = Unit
IsDistinct ((p, t) ∷ hosts) = (line_at p hosts ≡ none) × IsDistinct hosts

line_at-append :
    (p q : ℕ) (t : Text) (before rest : List (ℕ × Text))
    → line_at q (before ++ (p, t) ∷ rest) ≡ none
    → q ≢ p
unfolding line_at
line_at-append p q t [] rest h = ground arith
line_at-append p q t ((r, u) ∷ before) rest h = ground (arith, line_at-append p q t before rest)

-- In distinct entries, the entry behind a beginning is found by its address, and then the next.
pub entry_behind :
    (p : ℕ) (t : Text) (before rest : List (ℕ × Text))
    → IsDistinct (before ++ (p, t) ∷ rest)
    → (line_at p (before ++ (p, t) ∷ rest) ≡ some t)
      × (next_address (some p) (before ++ (p, t) ∷ rest) ≡ next_address none rest)
unfolding line_at next_address
entry_behind p t [] rest d = ground arith
entry_behind p t ((q, u) ∷ before) rest d =
    ground (arith, entry_behind p t before rest d.1, line_at-append p q t before rest d.0)

module _ {S : Type 0} (api : Libssh2 S) (owner : Hosts) where
  abbrev pub moved_world : Ptr → World S → World S
  moved_world current w = record w {
    remote = (api.knownhost.get owner.hosts none current w.remote).1;
    locked = false;
    calls = record { function = libssh2_knownhost_get; under_lock = true } ∷ w.calls;
  }

  pub next_host_lem :
      (current next : Ptr) (w : World S)
      → w.locked ≡ false
      → (api.knownhost.get owner.hosts none current w.remote).0 ≡ answer next
      → next_host api owner current w ≡ (returned next, moved_world current w)
  unfolding next_host with_lock ◌>>=◌ call pure Knownhost.get throw_if_error
  next_host_lem current none w l e = rw (l, e, assert-true, assert-true) refl
  next_host_lem current (some q) w l e = rw (l, e, assert-true) refl
