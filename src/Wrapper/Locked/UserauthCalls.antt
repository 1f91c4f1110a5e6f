-- ===== src/Wrapper/Locked/UserauthCalls.antt =====
-- The throwing wrappers of ssh/detail/libssh2/userauth.hpp, called with the mutex held.
use ssh2_cpp.Base.{List, true, Text, Ptr}
use ssh2_cpp.Effect.Locking.{Keeps}
use ssh2_cpp.Libssh2.{Translator, Challenge, Libssh2}
use ssh2_cpp.Wrapper.Userauth
use ssh2_cpp.Wrapper.Locked.{wrapper_rules}

module _ {S : Type 0} (api : Libssh2 S) (session : Ptr) where
  pub list-Keeps : (a0 : Text) → Keeps true (Userauth.list api session a0)
  unfolding Userauth.list Userauth.fetch_list
  list-Keeps a0 = search wrapper_rules

  pub password-Keeps :
      (a0 : Text) → (a1 : Text) → (a2 : Ptr) → Keeps true (Userauth.password api session a0 a1 a2)
  unfolding Userauth.password Userauth.fetch_password
  password-Keeps a0 a1 a2 = search wrapper_rules

  pub keyboard_interactive_ex-Keeps :
      (a0 : Text)
      → (a1 : (Challenge → Translator → List Text × Translator)) → (a2 : Translator)
      → Keeps true (Userauth.keyboard_interactive_ex api session a0 a1 a2)
  unfolding Userauth.keyboard_interactive_ex Userauth.fetch_keyboard_interactive_ex
  keyboard_interactive_ex-Keeps a0 a1 a2 = search wrapper_rules

  pub public_key_from_file-Keeps :
      (a0 : Text)
      → (a1 : Text) → (a2 : Text) → (a3 : Text)
      → Keeps true (Userauth.public_key_from_file api session a0 a1 a2 a3)
  unfolding Userauth.public_key_from_file Userauth.fetch_public_key_from_file
  public_key_from_file-Keeps a0 a1 a2 a3 = search wrapper_rules

pub ruleset userauth_rules = (
  wrapper_rules, list-Keeps, password-Keeps, keyboard_interactive_ex-Keeps,
  public_key_from_file-Keeps,
)
