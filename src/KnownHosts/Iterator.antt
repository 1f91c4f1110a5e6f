-- ===== src/KnownHosts/Iterator.antt =====
-- `knownhost_iterator` of ssh/knownhost.hpp, with `next_host` and `erase`.
pub mod Walk
use ssh2_cpp.Base.{
  ℕ, ℤ, pos, eqb_ℤ, Bool, true, false, ◌||◌, Option, none, some, ◌==◌, Ptr, if◌then◌else◌,
}
use ssh2_cpp.Libssh2.{Libssh2}
use ssh2_cpp.Effect.{
  M, undefined_behaviour, fault, plain, logic_error, pure, throw, with_lock, assert, ◌>>=◌, ◌>>◌,
}
use ssh2_cpp.Wrapper.Knownhost
use ssh2_cpp.Wrapper.Null.{is_null, same_pointer}
use ssh2_cpp.KnownHosts.Entry.{Hosts, KnownHost}

-- The end iterator has no collection.
pub record KnownHostIterator : Type 0 where
  pub owner : Option Hosts
  pub pos : Ptr

-- `knownhost_iterator()`
abbrev pub end : KnownHostIterator
end = record { owner = none; pos = none }

-- `equal`, which compares the addresses only
unfoldable pub equal : KnownHostIterator → KnownHostIterator → Bool
equal a b = same_pointer a.pos b.pos

module _ {S : Type 0} (api : Libssh2 S) where
  -- `if (rc == 1) { assert(host == NULL); host = NULL; }`
  unfoldable pub found_host : ℤ → Ptr → M S Ptr
  found_host rc host = do
    assert (eqb_ℤ rc (pos 0) || eqb_ℤ rc (pos 1))
    if eqb_ℤ rc (pos 1) then (do assert (is_null host); pure none) else pure host

  unfoldable pub next_host : Hosts → Ptr → M S Ptr
  unfolding found_host
  next_host owner current_position = with_lock (do
    (rc, host) ← Knownhost.get api owner.session.session_ptr owner.hosts none current_position
    found_host rc host)

  unfoldable pub begin : Hosts → M S KnownHostIterator
  begin owner = do first ← next_host owner none; pure (record { owner = some owner; pos = first })

  -- A position without a collection has no session to lock.
  unfoldable pub advance : Option Hosts → Ptr → M S KnownHostIterator
  advance owner none = throw (plain (logic_error "Can't increment past the end of a collection"))
  advance none (some p) = fault undefined_behaviour
  advance (some owner) (some p) = do
    next ← next_host owner (some p)
    pure (record { owner = some owner; pos = next })

  unfoldable pub increment : KnownHostIterator → M S KnownHostIterator
  unfolding advance
  increment it = advance it.owner it.pos

  unfoldable pub host_at : Option Hosts → Ptr → M S KnownHost
  host_at owner none = throw (plain (logic_error "Can't dereference the end of a collection"))
  host_at none (some p) = fault undefined_behaviour
  host_at (some owner) (some p) = pure (record { owner = owner; pos = some p })

  unfoldable pub dereference : KnownHostIterator → M S KnownHost
  unfolding host_at
  dereference it = host_at it.owner it.pos

  unfoldable pub delete_at : Option Hosts → Ptr → M S (Unit {0})
  delete_at none position = fault undefined_behaviour
  delete_at (some owner) position =
      with_lock (Knownhost.del api owner.session.session_ptr owner.hosts position)

  unfoldable pub erase : KnownHostIterator → M S KnownHostIterator
  unfolding delete_at
  erase it = do next ← increment it; delete_at it.owner it.pos; pure next
