-- ===== src/Wrapper/Locked/KnownhostCalls.antt =====
-- The throwing wrappers of ssh/detail/libssh2/knownhost.hpp, called with the mutex held.
use ssh2_cpp.Base.{Option, ℤ, ℕ, Text, true, Ptr}
use ssh2_cpp.Effect.Locking.{Keeps}
use ssh2_cpp.Libssh2.{Libssh2}
use ssh2_cpp.Wrapper.Knownhost
use ssh2_cpp.Wrapper.Locked.{wrapper_rules}

module _ {S : Type 0} (api : Libssh2 S) (session : Ptr) where
  pub init-Keeps : Keeps true (Knownhost.init api session)
  unfolding Knownhost.init Knownhost.fetch_init
  init-Keeps = search wrapper_rules

  pub readline-Keeps :
      (a0 : Ptr) → (a1 : Text) → (a2 : ℤ) → Keeps true (Knownhost.readline api session a0 a1 a2)
  unfolding Knownhost.readline Knownhost.fetch_readline
  readline-Keeps a0 a1 a2 = search wrapper_rules

  pub writeline-Keeps :
      (a0 : Ptr)
      → (a1 : Ptr) → (a2 : ℕ) → (a3 : ℤ) → Keeps true (Knownhost.writeline api session a0 a1 a2 a3)
  unfolding Knownhost.writeline Knownhost.fetch_writeline
  writeline-Keeps a0 a1 a2 a3 = search wrapper_rules

  pub get-Keeps :
      (a0 : Ptr) → (a1 : Ptr) → (a2 : Ptr) → Keeps true (Knownhost.get api session a0 a1 a2)
  unfolding Knownhost.get Knownhost.fetch_get
  get-Keeps a0 a1 a2 = search wrapper_rules

  pub add-Keeps :
      (a0 : Ptr)
      → (a1 : Text) → (a2 : Option Text) → (a3 : Text) → (a4 : ℤ) → (a5 : Ptr)
      → Keeps true (Knownhost.add api session a0 a1 a2 a3 a4 a5)
  unfolding Knownhost.add Knownhost.fetch_add
  add-Keeps a0 a1 a2 a3 a4 a5 = search wrapper_rules

  pub del-Keeps : (a0 : Ptr) → (a1 : Ptr) → Keeps true (Knownhost.del api session a0 a1)
  unfolding Knownhost.del Knownhost.fetch_del
  del-Keeps a0 a1 = search wrapper_rules

  pub check-Keeps :
      (a0 : Ptr)
      → (a1 : Text) → (a2 : Text) → (a3 : ℤ) → (a4 : Ptr)
      → Keeps true (Knownhost.check api session a0 a1 a2 a3 a4)
  unfolding Knownhost.check Knownhost.fetch_check
  check-Keeps a0 a1 a2 a3 a4 = search wrapper_rules

pub ruleset knownhost_rules = (
  wrapper_rules, init-Keeps, readline-Keeps, writeline-Keeps, get-Keeps, add-Keeps, del-Keeps,
  check-Keeps,
)
