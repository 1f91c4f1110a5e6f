-- ===== src/Filesystem/Removal/Round.antt =====
-- One round of the loop over a directory that is removed in ssh/filesystem.hpp.
use ssh2_cpp.Base.{◌∙◌, ap, ◌≡◌, refl, ℕ, suc, ◌+◌, ◌%◌, ◌^◌, true, false, some, Text}
use ssh2_cpp.Libssh2.{Libssh2}
use ssh2_cpp.Effect.{M, World, returned, pure, catch, ◌>>=◌}
use ssh2_cpp.State.{FileHandleState, SftpChannelState}
use ssh2_cpp.Filesystem.{non_directory, is_directory, status_of_type, do_remove}
use ssh2_cpp.Filesystem.Attribute.{type}
use ssh2_cpp.Filesystem.Iterator.{DirectoryIterator, next_file, advance, increment, dereference}
use ssh2_cpp.Filesystem.Removal.{
  is_dots, count_removed, remove_typed, remove_entry, remove_entries, holding,
}

module _ {S : Type 0} (api : Libssh2 S) (join : Text → Text → Text) (filename : Text → Text)
    (fs : SftpChannelState) (below : Text → M S ℕ) where
  increment_lem :
      (it it' : DirectoryIterator) (hs : FileHandleState) (w1 w2 : World S)
      → it.handle ≡ some hs
      → next_file api it hs w1 ≡ (returned it', w2)
      → increment api it w1 ≡ (returned it', w2)
  unfolding increment advance
  increment_lem it it' hs w1 w2 h n = ap (λ x. advance api it x w1) h ∙ n

  -- One round of the loop.
  pub round :
      (fuel : ℕ) (it it' : DirectoryIterator) (hs : FileHandleState) (count count' : ℕ)
      (w w1 w2 : World S)
      → remove_entry api join filename fs below it count w ≡ (returned count', w1)
      → it.handle ≡ some hs
      → next_file api it hs w1 ≡ (returned it', w2)
      → remove_entries api join filename fs below (suc fuel) it (some hs) count w
        ≡ remove_entries api join filename fs below fuel it' it'.handle count' w2
  unfolding remove_entries holding catch ◌>>=◌
  round fuel it it' hs count count' w w1 w2 e h n = rw (e, increment_lem it it' hs w1 w2 h n) refl

  module _ (it : DirectoryIterator) (hs : FileHandleState) (h : it.handle ≡ some hs) (count : ℕ)
      (w : World S) where
    pub entry_dots :
        is_dots (filename (join it.directory it.file_name)) ≡ true
        → remove_entry api join filename fs below it count w ≡ (returned count, w)
    unfolding remove_entry dereference ◌>>=◌ pure
    entry_dots e = rw (h, e) refl

    pub entry_file :
        (w1 : World S)
        → is_dots (filename (join it.directory it.file_name)) ≡ false
        → status_of_type (type api (record { raw = it.attributes })) ≡ non_directory
        → do_remove api fs (join it.directory it.file_name) false w ≡ (returned true, w1)
        → remove_entry api join filename fs below it count w ≡ (returned ((count + 1) % 2 ^ 64), w1)
    unfolding remove_entry remove_typed count_removed dereference ◌>>=◌ pure
    entry_file w1 e t r = rw (h, e, t, r) refl

    pub entry_folder :
        (removed : ℕ) (w1 : World S)
        → is_dots (filename (join it.directory it.file_name)) ≡ false
        → status_of_type (type api (record { raw = it.attributes })) ≡ is_directory
        → below (join it.directory it.file_name) w ≡ (returned removed, w1)
        → remove_entry api join filename fs below it count w
          ≡ (returned ((count + removed) % 2 ^ 64), w1)
    unfolding remove_entry remove_typed dereference ◌>>=◌ pure
    entry_folder removed w1 e t r = rw (h, e, t, r) refl
