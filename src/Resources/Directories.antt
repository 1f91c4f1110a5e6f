-- ===== src/Resources/Directories.antt =====
-- What the directory iterators of ssh/filesystem.hpp take from libssh2 and give back.
use ssh2_cpp.Base.{◌≡◌, refl, ◌∙◌, sym, ap, ℤ, is_zero, Option, none, some, List, Text}
use ssh2_cpp.Libssh2.{Libssh2, Attributes}
use ssh2_cpp.State.{SftpChannelState, FileHandleState, close_handle}
use ssh2_cpp.Wrapper.Sftp
use ssh2_cpp.Filesystem.Iterator.{
  DirectoryIterator, open_directory, after_readdir, next_file, directory_iterator, advance,
  increment,
}
use ssh2_cpp.Resources.{
  Resource, a_handle, owned, Balances, Balances-pure, Balances-throw, Balances-if,
  Balances-with_lock, Balances-bind, Balances-assert,
}
use ssh2_cpp.Resources.Keeping.{KeepsLive, KeepsLive-Balances, keeping_rules}
use ssh2_cpp.Resources.Ledger.{KeepsLedger}
use ssh2_cpp.Resources.Taking.{sftp_error-KeepsLive, throw_if_error-KeepsLive}
use ssh2_cpp.Resources.States.{open_handle-Takes, close_handle-GivesBack}
use ssh2_cpp.Resources.Owners.{undoing}

module _ {S : Type 0} (api : Libssh2 S) (live : S → List Resource)
    (keeps : KeepsLedger api live) where
  -- `l` with what an iterator holds open.
  abbrev pub held_by : Option FileHandleState → List Resource → List Resource
  held_by none l = l
  held_by (some h) l = owned a_handle h.file_handle l

  abbrev pub Holds : List Resource → DirectoryIterator → List Resource → Type 0
  Holds l it l' = l' ≡ held_by it.handle l

  readdir-KeepsLive :
      (h : FileHandleState)
      → KeepsLive live
          (Sftp.readdir_ex api h.sftp.session.session_ptr h.sftp.sftp_ptr h.file_handle 1024 1024)
  unfolding Sftp.readdir_ex Sftp.fetch_readdir_ex
  readdir-KeepsLive h =
      search
        (
          keeping_rules,
          keeps.readdir,
          sftp_error-KeepsLive api live keeps,
          throw_if_error-KeepsLive api live keeps,
        )
        depth 8

  -- Going on to the next entry gives the handle back at the end of the directory; an exception leaves it.
  after_readdir-Balances :
      (it : DirectoryIterator) (h : FileHandleState) (rc : ℤ) (name entry : Text) (a : Attributes)
      (l : List Resource)
      → it.handle ≡ some h
      → Balances live
          (owned a_handle h.file_handle l)
          (after_readdir api it h rc name entry a)
          (Holds l)
          (owned a_handle h.file_handle l)
  unfolding after_readdir
  after_readdir-Balances it h rc name entry a l e =
      Balances-if live (is_zero rc) _ _
        (Balances-bind live (λ _ l'. l' ≡ l) _ _ (close_handle-GivesBack api live keeps h l _)
          λ x l' same. Balances-pure live _ same)
        (Balances-bind live (λ _ l'. l' ≡ owned a_handle h.file_handle l) _ _
          (Balances-assert live _)
          λ x l' same. Balances-pure live _ (same ∙ ap (λ o. held_by o l) (sym e)))

  pub next_file-Balances :
      (it : DirectoryIterator) (h : FileHandleState) (l : List Resource)
      → it.handle ≡ some h
      → Balances live
          (owned a_handle h.file_handle l)
          (next_file api it h)
          (Holds l)
          (owned a_handle h.file_handle l)
  unfolding next_file
  next_file-Balances it h l e =
      Balances-bind live (λ _ l'. l' ≡ owned a_handle h.file_handle l) _ _
        (Balances-with_lock live _ (KeepsLive-Balances live _ _ (readdir-KeepsLive h)))
        λ r l' same. rw same (after_readdir-Balances it h r.0 r.1 r.2 r.3 l e)

  advance-Balances :
      (it : DirectoryIterator) (o : Option FileHandleState) (l : List Resource)
      → it.handle ≡ o
      → Balances live (held_by o l) (advance api it o) (Holds l) (held_by o l)
  unfolding advance
  advance-Balances it none l e = Balances-throw live _ refl
  advance-Balances it (some h) l e = next_file-Balances it h l e

  pub increment-Balances :
      (it : DirectoryIterator) (l : List Resource)
      → Balances live (held_by it.handle l) (increment api it) (Holds l) (held_by it.handle l)
  unfolding increment
  increment-Balances it l = advance-Balances it it.handle l refl

  pub directory_iterator-Balances :
      (c : SftpChannelState) (path : Text) (l : List Resource)
      → Balances live l (directory_iterator api c path) (Holds l) l
  unfolding directory_iterator open_directory
  directory_iterator-Balances c path l =
      Balances-bind live _ _ _ (open_handle-Takes api live keeps c path _ _ _ l) λ h l' e. rw e (
        undoing api live keeps (owned a_handle h.file_handle l) l _ (close_handle api h)
          (next_file-Balances _ h l refl) (close_handle-GivesBack api live keeps h l l))
