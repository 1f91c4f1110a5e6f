-- ===== src/Filesystem/Links.antt =====
-- The functions of ssh/filesystem.hpp on a link that was found in a directory.
use ssh2_cpp.Base.{Text}
use ssh2_cpp.Libssh2.{Libssh2}
use ssh2_cpp.Effect.{M}
use ssh2_cpp.State.{SftpChannelState}
use ssh2_cpp.Filesystem.{resolve_link_target, canonical_path}
use ssh2_cpp.Filesystem.Iterator.{SftpFile}

module _ {S : Type 0} (api : Libssh2 S) (fs : SftpChannelState) where
  unfoldable pub resolve_found_link : SftpFile → M S Text
  resolve_found_link link = resolve_link_target api fs link.path

  unfoldable pub canonical_found_path : SftpFile → M S Text
  canonical_found_path link = canonical_path api fs link.path
