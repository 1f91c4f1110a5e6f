-- ===== src/Owner/Swap.antt =====
-- Swapping the objects of ssh/session.hpp and ssh/filesystem.hpp.
use ssh2_cpp.Base.{◌≡◌, refl, Option}
use ssh2_cpp.Effect.{M, World, returned, pure, ◌>>=◌}
use ssh2_cpp.Libssh2.{Libssh2}
use ssh2_cpp.State.{SessionState, SftpChannelState}
use ssh2_cpp.Owner.{destroy_object, move_assign, swap, swap_sessions, swap_filesystems}

swap_lem :
    {S A : Type 0} (destroy : A → M S (Unit {0})) (lhs rhs : Option A) (w : World S)
    → swap destroy lhs rhs w ≡ (returned (rhs, lhs), w)
unfolding swap move_assign destroy_object ◌>>=◌ pure
swap_lem destroy lhs rhs w = refl

-- Swapping two sessions, or two filesystem connections, each of which may have been moved from,
-- exchanges what they own: it destroys neither and makes no call into libssh2.
pub swap-exchanges :
    {S : Type 0} (api : Libssh2 S) (s t : Option SessionState) (c d : Option SftpChannelState)
    (w : World S)
    → (swap_sessions api s t w ≡ (returned (t, s), w))
      × (swap_filesystems api c d w ≡ (returned (d, c), w))
unfolding swap_sessions swap_filesystems
swap-exchanges api s t c d w = (swap_lem _ s t w, swap_lem _ c d w)
