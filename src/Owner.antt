-- ===== src/Owner.antt =====
-- The moves of ssh/session.hpp's `session` and ssh/filesystem.hpp's `sftp_filesystem`. Each is a
-- `std::auto_ptr` to its state, which destroys what it points at; a moved-from object points at nothing.
pub mod Swap
use ssh2_cpp.Base.{Option, none, some}
use ssh2_cpp.Effect.{M, pure, ◌>>=◌, ◌>>◌}
use ssh2_cpp.Libssh2.{Libssh2}
use ssh2_cpp.State.{SessionState, SftpChannelState, destroy_session, close_channel}

module _ {S A : Type 0} (destroy : A → M S (Unit {0})) where
  -- the destruction of an object
  unfoldable pub destroy_object : Option A → M S (Unit {0})
  destroy_object none = pure tt
  destroy_object (some a) = destroy a

  -- the new object, and the other one afterwards
  unfoldable pub move_construct : Option A → Option A × Option A
  move_construct other = (other, none)

  -- an object that is assigned to, and the other one afterwards
  unfoldable pub move_assign : Option A → Option A → M S (Option A × Option A)
  unfolding destroy_object
  move_assign target other = do destroy_object target; pure (other, none)

  unfoldable pub swap : Option A → Option A → M S (Option A × Option A)
  unfolding move_construct move_assign
  swap lhs rhs =
      let (tmp, lhs') = move_construct lhs in
      do
        (lhs'', rhs') ← move_assign lhs' rhs
        (rhs'', tmp') ← move_assign rhs' tmp
        destroy_object tmp'
        pure (lhs'', rhs'')

module _ {S : Type 0} (api : Libssh2 S) where
  unfoldable pub move_session :
      Option SessionState → Option SessionState → M S (Option SessionState × Option SessionState)
  unfolding move_assign
  move_session target other = move_assign (destroy_session api) target other

  unfoldable pub swap_sessions :
      Option SessionState → Option SessionState → M S (Option SessionState × Option SessionState)
  swap_sessions lhs rhs = swap (destroy_session api) lhs rhs

  unfoldable pub move_filesystem :
      Option SftpChannelState
      → Option SftpChannelState
      → M S (Option SftpChannelState × Option SftpChannelState)
  unfolding move_assign
  move_filesystem target other = move_assign (close_channel api) target other

  unfoldable pub swap_filesystems :
      Option SftpChannelState
      → Option SftpChannelState
      → M S (Option SftpChannelState × Option SftpChannelState)
  swap_filesystems lhs rhs = swap (close_channel api) lhs rhs
