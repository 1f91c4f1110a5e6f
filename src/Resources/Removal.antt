-- ===== src/Resources/Removal.antt =====
-- What the recursive removal of ssh/filesystem.hpp takes from libssh2 and gives back.
use ssh2_cpp.Base.{◌≡◌, refl, ◌∙◌, sym, ap, ℕ, zero, suc, Bool, Option, none, some, List, Text}
use ssh2_cpp.Libssh2.{Libssh2}
use ssh2_cpp.Effect.{
  M, Exception, ExceptionKind, system_error, logic_error, invalid_argument, range_error,
  runtime_error, bad_alloc, user_exception, pure, ◌>>=◌,
}
use ssh2_cpp.State.{SftpChannelState, FileHandleState}
use ssh2_cpp.Wrapper.Sftp
use ssh2_cpp.Filesystem.{
  PathStatus, non_existent, non_directory, is_directory, if_system_error, catch_system_error,
  attributes, check_status, do_remove,
}
use ssh2_cpp.Filesystem.Iterator.{DirectoryIterator, SftpFile, file_at, dereference}
use ssh2_cpp.Filesystem.Removal.{
  destroy_handle, holding, remove_typed, remove_entry, remove_entries, remove_directory,
  remove_all_by_status, remove_all,
}
use ssh2_cpp.Resources.{
  Resource, Balances, Balances-pure, Balances-fault, Balances-if, Balances-bind,
}
use ssh2_cpp.Resources.Keeping.{
  KeepsLive, KeepsLive-throw, KeepsLive-catch, KeepsLive-Balances, keeping_rules,
}
use ssh2_cpp.Resources.Ledger.{KeepsLedger}
use ssh2_cpp.Resources.Taking.{sftp_error-KeepsLive, throw_if_error-KeepsLive}
use ssh2_cpp.Resources.States.{close_handle-GivesBack}
use ssh2_cpp.Resources.Owners.{undoing}
use ssh2_cpp.Resources.Directories.{held_by, increment-Balances, directory_iterator-Balances}

module _ {S A : Type 0} (live : S → List Resource) where
  if_system_error-KeepsLive :
      (handler : Exception → M S A) (e : Exception) (k : ExceptionKind)
      → KeepsLive live (handler e)
      → KeepsLive live (if_system_error handler e k)
  unfolding if_system_error
  if_system_error-KeepsLive handler e (system_error ec message) kh = kh
  if_system_error-KeepsLive handler e (logic_error _) kh = KeepsLive-throw live e
  if_system_error-KeepsLive handler e (invalid_argument _) kh = KeepsLive-throw live e
  if_system_error-KeepsLive handler e (range_error _) kh = KeepsLive-throw live e
  if_system_error-KeepsLive handler e (runtime_error _) kh = KeepsLive-throw live e
  if_system_error-KeepsLive handler e (bad_alloc _) kh = KeepsLive-throw live e
  if_system_error-KeepsLive handler e (user_exception _) kh = KeepsLive-throw live e

  catch_system_error-KeepsLive :
      (m : M S A) (handler : Exception → M S A)
      → KeepsLive live m
      → ((e : Exception) → KeepsLive live (handler e))
      → KeepsLive live (catch_system_error m handler)
  unfolding catch_system_error
  catch_system_error-KeepsLive m handler km kh =
      KeepsLive-catch live m _ km λ e. if_system_error-KeepsLive handler e e.kind (kh e)

module _ {S : Type 0} (api : Libssh2 S) (live : S → List Resource) (keeps : KeepsLedger api live)
    (fs : SftpChannelState) where
  check_status-KeepsLive : (path : Text) → KeepsLive live (check_status api fs path)
  unfolding check_status attributes Sftp.stat Sftp.fetch_stat
  check_status-KeepsLive path =
      search
        (
          keeping_rules,
          catch_system_error-KeepsLive live,
          keeps.stat,
          sftp_error-KeepsLive api live keeps,
          throw_if_error-KeepsLive api live keeps,
        )
        depth 12

  do_remove-KeepsLive : (path : Text) (d : Bool) → KeepsLive live (do_remove api fs path d)
  unfolding do_remove Sftp.rmdir_ex Sftp.fetch_rmdir_ex Sftp.unlink_ex Sftp.fetch_unlink_ex
  do_remove-KeepsLive path d =
      search
        (
          keeping_rules,
          catch_system_error-KeepsLive live,
          keeps.unlink,
          keeps.rmdir,
          sftp_error-KeepsLive api live keeps,
          throw_if_error-KeepsLive api live keeps,
        )
        depth 12

  -- An action that gives back all that it takes, however it ends.
  abbrev pub Clean : {A : Type 0} → M S A → Type 0
  Clean m = (l : List Resource) → Balances live l m (λ _ l'. l' ≡ l) l

  destroy_handle-Balances :
      (o : Option FileHandleState) (l : List Resource)
      → Balances live (held_by api live keeps o l) (destroy_handle api o) (λ _ l'. l' ≡ l) l
  unfolding destroy_handle
  destroy_handle-Balances none l = Balances-pure live tt refl
  destroy_handle-Balances (some h) l = close_handle-GivesBack api live keeps h l l

  -- Code under an iterator: an exception closes its directory.
  holding-Balances :
      {A : Type 0} {q : A → List Resource → Type 0} (it : DirectoryIterator) (m : M S A)
      (l : List Resource)
      → Balances live (held_by api live keeps it.handle l) m q (held_by api live keeps it.handle l)
      → Balances live (held_by api live keeps it.handle l) (holding api it m) q l
  unfolding holding
  holding-Balances it m l b =
      undoing api live keeps (held_by api live keeps it.handle l) l m (destroy_handle api it.handle)
        b (destroy_handle-Balances it.handle l)

  module _ (join : Text → Text → Text) (filename : Text → Text) where
    do_remove-count :
        (path : Text) (d : Bool) (k : Bool → ℕ)
        → Clean (do removed ← do_remove api fs path d; pure (k removed))
    do_remove-count path d k l =
        KeepsLive-Balances live l _ (search (keeping_rules, do_remove-KeepsLive path d))

    remove_typed-Clean :
        (below : Text → M S ℕ) (count : ℕ) (file : SftpFile) (status : PathStatus)
        → ((path : Text) → Clean (below path))
        → Clean (remove_typed api join filename fs below count file status)
    unfolding remove_typed
    remove_typed-Clean below count file is_directory ok l =
        Balances-bind live (λ _ l'. l' ≡ l) _ _ (ok file.path l) λ n l' e. Balances-pure live _ e
    remove_typed-Clean below count file non_directory ok l = do_remove-count file.path _ _ l
    remove_typed-Clean below count file non_existent ok l = do_remove-count file.path _ _ l

    file_at-KeepsLive :
        (it : DirectoryIterator) (o : Option FileHandleState)
        → KeepsLive live (file_at api join it o)
    unfolding file_at
    file_at-KeepsLive it none = search keeping_rules
    file_at-KeepsLive it (some h) = search keeping_rules

    dereference-KeepsLive : (it : DirectoryIterator) → KeepsLive live (dereference api join it)
    unfolding dereference
    dereference-KeepsLive it = file_at-KeepsLive it it.handle

    remove_entry-Clean :
        (below : Text → M S ℕ) (it : DirectoryIterator) (count : ℕ)
        → ((path : Text) → Clean (below path))
        → Clean (remove_entry api join filename fs below it count)
    unfolding remove_entry
    remove_entry-Clean below it count ok l =
        Balances-bind live (λ _ l'. l' ≡ l) _ _
          (KeepsLive-Balances live l _ (dereference-KeepsLive it))
          λ file l' e. rw e (
            Balances-if live _ _ _ (Balances-pure live count refl)
              (remove_typed-Clean below count file _ ok l))

    entries-Balances :
        (below : Text → M S ℕ) (fuel : ℕ) (it : DirectoryIterator) (o : Option FileHandleState)
        (count : ℕ) (l l' : List Resource)
        → ((path : Text) → Clean (below path))
        → it.handle ≡ o
        → l' ≡ held_by api live keeps o l
        → Balances live l'
            (remove_entries api join filename fs below fuel it o count)
            (λ _ l''. l'' ≡ l)
            l
    unfolding remove_entries
    entries-Balances below fuel it none count l l' ok e same = Balances-pure live count same
    entries-Balances below zero it (some h) count l l' ok e same = Balances-fault live _
    entries-Balances below (suc fuel) it (some h) count l l' ok e same =
        let held = held_by api live keeps it.handle l in
        rw (same ∙ ap (λ o. held_by api live keeps o l) (sym e)) (
          Balances-bind live (λ _ l''. l'' ≡ held) _ _
            (holding-Balances it _ l (remove_entry-Clean below it count ok held))
            λ c l1 e1. rw e1 (
              Balances-bind live _ _ _
                (holding-Balances it _ l (increment-Balances api live keeps it l))
                λ it' l2 e2. entries-Balances below fuel it' it'.handle c l l2 ok refl e2))

    remove_directory-Clean :
        (fuel : ℕ) (root : Text) → Clean (remove_directory api join filename fs fuel root)
    unfolding remove_directory
    remove_directory-Clean zero root l = Balances-fault live _
    remove_directory-Clean (suc fuel) root l =
        Balances-bind live _ _ _ (directory_iterator-Balances api live keeps fs root l) λ it l1 e1.
          Balances-bind live (λ _ l2. l2 ≡ l) _ _
            (entries-Balances _ fuel it it.handle 0 l l1 (remove_directory-Clean fuel) refl e1)
            λ n l2 e2. rw e2 (do_remove-count root _ _ l)

    by_status-Clean :
        (fuel : ℕ) (target : Text) (status : PathStatus)
        → Clean (remove_all_by_status api join filename fs fuel target status)
    unfolding remove_all_by_status
    by_status-Clean fuel target non_existent l = Balances-pure live _ refl
    by_status-Clean fuel target is_directory l = remove_directory-Clean fuel target l
    by_status-Clean fuel target non_directory l = do_remove-count target _ _ l

    pub remove_all-Clean :
        (fuel : ℕ) (target : Text) → Clean (remove_all api join filename fs fuel target)
    unfolding remove_all
    remove_all-Clean fuel target l =
        Balances-bind live (λ _ l'. l' ≡ l) _ _
          (KeepsLive-Balances live l _ (check_status-KeepsLive target))
          λ status l' e. rw e (by_status-Clean fuel target status l)
