-- ===== src/Filesystem/Removal/Steps.antt =====
-- The steps of the removal of a directory in ssh/filesystem.hpp, with a server that serves directories as
-- documented.
use ssh2_cpp.Base.{
  is_negative, ltb_ℤ, is_zero, ◌≡◌, refl, arith, ℕ, ◌<◌, ◌≤◌, pos, Bool, true, false, Option, none,
  some, ◌∷◌, take, length, Text,
}
use ssh2_cpp.Libssh2.{
  Libssh2, ApiFunction, Attributes, libssh2_sftp_open_ex, libssh2_sftp_readdir_ex,
  libssh2_sftp_close_handle, libssh2_sftp_unlink_ex, libssh2_sftp_rmdir_ex, libssh2_sftp_stat_ex,
  no_open_flags, opendir, no_attributes, link_itself,
}
use ssh2_cpp.Effect.{World, returned, pure, call, with_lock, catch, ◌>>=◌}
use ssh2_cpp.Effect.Laws.{assert-true}
use ssh2_cpp.Error.{throw_if_error}
use ssh2_cpp.State.{SftpChannelState, FileHandleState, open_handle, close_handle}
use ssh2_cpp.Wrapper.Sftp
use ssh2_cpp.Filesystem.{is_directory, attributes, check_status, catch_system_error, do_remove}
use ssh2_cpp.Filesystem.Iterator.{
  DirectoryIterator, open_directory, next_file, after_readdir, name_length, c_string,
}
use ssh2_cpp.Filesystem.Removal.Tree.{Listing, Fits, Opens, Reads, Removes, Typed}

-- The world after a call into libssh2 under the lock.
module _ {S : Type 0} where
  abbrev pub called : ApiFunction → World S → S → World S
  called f w s = record w {
    remote = s;
    locked = false;
    calls = record { function = f; under_lock = true } ∷ w.calls;
  }

count_positive : (n : Text) → 0 < length n → is_zero (pos (length n)) ≡ false
count_positive n h = ground arith

count_allowed : (n : Text) → 0 < length n → ltb_ℤ (pos 0) (pos (length n)) ≡ true
count_allowed n h = ground arith

name_length-pos : (n : Text) → length n ≤ 1024 → name_length (pos (length n)) ≡ length n
unfolding name_length
name_length-pos n h = omega arith

module _ {S : Type 0} (api : Libssh2 S) (join : Text → Text → Text) (filename : Text → Text)
    (entries : Text → Listing) (is_folder : Text → Bool) (fs : SftpChannelState)
    (here : S → Text → Bool) (unread : S → ℕ → Option Listing) (handle : Text → S → ℕ) where
  abbrev pub handle_state : ℕ → FileHandleState
  handle_state h = record { sftp = fs; file_handle = some h }

  abbrev pub opened_world : Text → World S → World S
  opened_world p w =
      called libssh2_sftp_open_ex w
        (api.sftp.open_ex fs.sftp_ptr p no_open_flags 0 opendir w.remote).1

  pub open_directory_lem :
      (p : Text) (w : World S)
      → w.locked ≡ false
      → Opens api join filename entries is_folder fs here unread handle p w.remote
      → open_directory api fs p w ≡ (returned (handle_state (handle p w.remote)), opened_world p w)
  unfolding open_directory open_handle with_lock ◌>>=◌ call pure Sftp.open_ex throw_if_error
  open_directory_lem p w l o = rw (l, o.opened) refl

  abbrev pub read_world : ℕ → World S → World S
  read_world h w =
      called libssh2_sftp_readdir_ex w (api.sftp.readdir_ex (some h) 1024 1024 w.remote).1

  -- the iterator at the entry that was read
  abbrev pub moved : DirectoryIterator → ℕ → Text → Attributes → World S → DirectoryIterator
  moved it h n a w = record it {
    attributes = a;
    file_name = n;
    long_entry = c_string (take 1023 (api.sftp.readdir_ex (some h) 1024 1024 w.remote).0.2);
  }

  pub next_file_lem :
      (it : DirectoryIterator) (h : ℕ) (n : Text) (a : Attributes) (es : Listing) (w : World S)
      → w.locked ≡ false
      → Fits n
      → Reads api join filename entries is_folder fs here unread handle h n a es w.remote
      → next_file api it (handle_state h) w ≡ (returned (moved it h n a w), read_world h w)
  unfolding next_file after_readdir with_lock ◌>>=◌ call pure Sftp.readdir_ex throw_if_error
  next_file_lem it h n a es w l fits r =
      rw
        (
          l,
          r.count,
          count_positive n fits.0,
          count_allowed n fits.0,
          assert-true,
          name_length-pos n fits.1,
          r.name,
          r.attributes,
        )
        refl

  abbrev pub closed_world : ℕ → World S → World S
  closed_world h w = called libssh2_sftp_close_handle w (api.sftp.close_handle (some h) w.remote).1

  pub next_file-end :
      (it : DirectoryIterator) (h : ℕ) (w : World S)
      → w.locked ≡ false
      → (api.sftp.readdir_ex (some h) 1024 1024 w.remote).0.0 ≡ pos 0
      → next_file api it (handle_state h) w
        ≡ (returned (record it { handle = none }), closed_world h (read_world h w))
  unfolding next_file after_readdir close_handle with_lock ◌>>=◌ call pure Sftp.readdir_ex
      throw_if_error
  next_file-end it h w l e = rw (l, e) refl

  abbrev pub unlinked_world : Text → World S → World S
  unlinked_world p w = called libssh2_sftp_unlink_ex w (api.sftp.unlink_ex fs.sftp_ptr p w.remote).1

  pub do_remove-file :
      (p : Text) (w : World S)
      → w.locked ≡ false
      → Removes api join filename entries is_folder fs here unread handle p
          (api.sftp.unlink_ex fs.sftp_ptr p w.remote)
          w.remote
      → do_remove api fs p false w ≡ (returned true, unlinked_world p w)
  unfolding do_remove catch_system_error catch with_lock ◌>>=◌ call pure Sftp.unlink_ex
      throw_if_error
  do_remove-file p w l r = rw (l, r.succeeds) refl

  abbrev pub removed_world : Text → World S → World S
  removed_world p w = called libssh2_sftp_rmdir_ex w (api.sftp.rmdir_ex fs.sftp_ptr p w.remote).1

  pub do_remove-directory :
      (p : Text) (w : World S)
      → w.locked ≡ false
      → Removes api join filename entries is_folder fs here unread handle p
          (api.sftp.rmdir_ex fs.sftp_ptr p w.remote)
          w.remote
      → do_remove api fs p true w ≡ (returned true, removed_world p w)
  unfolding do_remove catch_system_error catch with_lock ◌>>=◌ call pure Sftp.rmdir_ex
      throw_if_error
  do_remove-directory p w l r = rw (l, r.succeeds) refl

  abbrev pub stat_world : Text → World S → World S
  stat_world p w =
      called libssh2_sftp_stat_ex w
        (api.sftp.stat_ex fs.sftp_ptr p link_itself no_attributes w.remote).1

  pub check_status-directory :
      (p : Text) (w : World S)
      → w.locked ≡ false
      → is_negative (api.sftp.stat_ex fs.sftp_ptr p link_itself no_attributes w.remote).0.0 ≡ false
      → Typed api join filename entries is_folder is_directory
          (api.sftp.stat_ex fs.sftp_ptr p link_itself no_attributes w.remote).0.1
      → check_status api fs p w ≡ (returned is_directory, stat_world p w)
  unfolding check_status attributes catch_system_error catch with_lock ◌>>=◌ call pure Sftp.stat
      throw_if_error
  check_status-directory p w l good typed = rw (l, good, typed) refl
