-- ===== src/Filesystem/Removal/Complete.antt =====
-- What the removal of a directory in ssh/filesystem.hpp removes.
use ssh2_cpp.Base.{
  ◌≡◌, ◌≢◌, refl, ap, ◌∙◌, arith, ℕ, zero, suc, ◌+◌, ◌%◌, ◌^◌, ◌<◌, Bool, true, false, Option, none,
  some, [], ◌∷◌, ◌++◌, length, Text,
}
use ssh2_cpp.Libssh2.{Libssh2, no_attributes}
use ssh2_cpp.Effect.{World, returned, pure, catch, ◌>>=◌}
use ssh2_cpp.State.{SftpChannelState}
use ssh2_cpp.Filesystem.Iterator.{directory_iterator}
use ssh2_cpp.Filesystem.Removal.{remove_directory, remove_all, count_removed}
use ssh2_cpp.Filesystem.Removal.Tree.{
  Forest, nothing, dots, file, folder, Listing, listed, ServesDirectories, Describes, paths,
  size_of, AllAre, IsNot, EntriesAre, Opens,
}
use ssh2_cpp.Filesystem.Removal.Cleared.{
  Cleared, Cleared-nothing, Cleared-then, Cleared-narrow, still_here, append-AllAre,
}
use ssh2_cpp.Filesystem.Removal.Steps.{
  open_directory_lem, opened_world, do_remove-directory, removed_world, check_status-directory,
  stat_world,
}
use ssh2_cpp.Filesystem.Removal.Loop.{next_file-Advances, Left}
use ssh2_cpp.Filesystem.Removal.Entries.{Described, first_of, RemovesBelow, entries-Empties}

unused : {A : Type 0} (h h' : ℕ) (a : A) (at : ℕ → Option A) → at h ≡ none → at h' ≡ some a → h' ≢ h
unused h h' a at e u same = cc

module _ {S : Type 0} (api : Libssh2 S) (join : Text → Text → Text) (filename : Text → Text)
    (entries : Text → Listing) (is_folder : Text → Bool) where
  -- What holds of the paths of a forest holds of the entries that are listed.
  AllAre-EntriesAre :
      (now : Text → Bool) (b : Bool) (d : Text) (f : Forest)
      → Describes api join filename entries is_folder d f
      → AllAre now b (paths join d f)
      → EntriesAre api join filename entries is_folder now b d (listed f)
  AllAre-EntriesAre now b d nothing ds a = tt
  AllAre-EntriesAre now b d (dots n t rest) ds a =
      (λ e. absurd (ground (arith, ds.0.1)), AllAre-EntriesAre now b d rest ds.1 a)
  AllAre-EntriesAre now b d (file n t rest) (named, typed, kind, apart, ds) a =
      (λ e. a.0, AllAre-EntriesAre now b d rest ds a.1)
  AllAre-EntriesAre now b d (folder n t inside rest)
        (named, typed, kind, lists, apart, x, y, ds_in, ds) a =
      let (a_in, a') = append-AllAre now b (paths join (join d n) inside) _ a in
      (λ e. a'.0, AllAre-EntriesAre now b d rest ds a'.1)

  entries-EntriesAre :
      (now : Text → Bool) (b : Bool) (d : Text) (f : Forest)
      → Describes api join filename entries is_folder d f
      → entries d ≡ listed f
      → AllAre now b (paths join d f)
      → EntriesAre api join filename entries is_folder now b d (entries d)
  entries-EntriesAre now b d f ds es a = rw es (AllAre-EntriesAre now b d f ds a)

module _ {S : Type 0} (api : Libssh2 S) (join : Text → Text → Text) (filename : Text → Text)
    (entries : Text → Listing) (is_folder : Text → Bool) (fs : SftpChannelState)
    (here : S → Text → Bool) (unread : S → ℕ → Option Listing) (handle : Text → S → ℕ)
    (serves : ServesDirectories api join filename entries is_folder fs here unread handle) where
  -- The directory has been opened, and the iterator is at its first entry.
  record Begins (p : Text) (f : Forest) (le : Text) (w w' : World S) : Type 0 where
    result : directory_iterator api fs p w ≡ (
      returned (
          first_of api join filename entries is_folder fs here unread handle serves p
            (handle p w.remote)
            f
            []
            no_attributes
            le),
      w',
    )
    left :
        Left api join filename entries is_folder fs here unread handle serves
          (handle p w.remote)
          f
          w'.remote
    cleared : Cleared here unread [] (λ h. h ≢ handle p w.remote) w.remote w'.remote
    released : w'.locked ≡ false

  begin_lem :
      (p : Text) (f : Forest) (w : World S)
      → w.locked ≡ false
      → Described api join filename entries is_folder fs here unread handle serves p f
      → entries p ≡ listed f
      → Opens api join filename entries is_folder fs here unread handle p w.remote
      → (le : Text) × (w' : World S) × Begins p f le w w'
  unfolding directory_iterator catch ◌>>=◌ pure
  begin_lem p f w l ds es o =
      let w1 = opened_world api join filename entries is_folder fs here unread handle p w in
      let (le, w2, adv) =
        next_file-Advances api join filename entries is_folder fs here unread handle serves f p
          (handle p w.remote) [] no_attributes [] w1 refl ds (o.lists ∙ ap some es) in
      (
        le,
        w2,
        record {
          result =
              rw
                (
                  open_directory_lem api join filename entries is_folder fs here unread handle p w l
                      o,
                  adv.result,
                )
                refl;
          left = adv.left;
          cleared =
              Cleared-then here unread [] [] _ w.remote w1.remote w2.remote
                (Cleared-nothing here unread _ w.remote w1.remote (λ q. o.keeps_paths q tt)
                  (λ h es' x e. o.keeps_open h es' tt e))
                adv.cleared;
          released = adv.released;
        },
      )

  -- With fuel for two rounds more than there are entries below a directory, it is removed with all of
  -- them.
  directory-RemovesDirectory :
      (fuel : ℕ)
      → RemovesBelow api join filename entries is_folder fs here unread handle serves fuel
  unfolding remove_directory count_removed ◌>>=◌ pure
  directory-RemovesDirectory zero p f w l ds kind es apart all here_p enough = absurd (omega arith)
  directory-RemovesDirectory (suc fuel) p f w l ds kind es apart all here_p enough =
      let ps = paths join p f in
      let full =
        entries-EntriesAre api join filename entries is_folder (here w.remote) true p f ds es all in
      let o = serves.opens p w.remote here_p kind full in
      let h = handle p w.remote in
      let (le, w2, b) = begin_lem p f w l ds es o in
      let all2 = still_here here unread [] ps _ w.remote w2.remote b.cleared tt all in
      let (w3, e) =
        entries-Empties api join filename entries is_folder fs here unread handle serves fuel
          (directory-RemovesDirectory fuel) f fuel 0 p h [] no_attributes le w2 b.released ds all2
          b.left (omega arith) (omega arith) (omega arith) in
      let c3 = Cleared-then here unread [] ps _ w.remote w2.remote w3.remote b.cleared e.cleared in
      let empty =
        entries-EntriesAre api join filename entries is_folder (here w3.remote) false p f ds es
          c3.gone in
      let r = serves.removes_directory p w3.remote (c3.keeps_paths p apart ∙ here_p) kind empty in
      let w4 = removed_world api join filename entries is_folder fs here unread handle p w3 in
      (
        w4,
        record {
          result =
              rw
                (
                  b.result,
                  e.result,
                  do_remove-directory api join filename entries is_folder fs here unread handle p w3
                      e.released r,
                )
                (ap (λ k. (returned k, w4)) (omega arith));
          cleared =
              Cleared-narrow here unread (ps ++ p ∷ []) (λ h'. h' ≢ h) (λ _. Unit) w.remote
                w4.remote (λ h' es' x u same. unused h h' es' (unread w.remote) o.was_unused u same)
                (Cleared-then here unread ps (p ∷ []) _ w.remote w3.remote w4.remote c3 (record {
                  gone = (r.gone, tt);
                  stay_gone = r.stay_gone;
                  keeps_paths = λ q no. r.keeps_paths q no.0;
                  keeps_open = λ h' es' x u. r.keeps_open h' es' tt u;
                }));
          released = refl;
        },
      )

  -- If a server serves directories as documented, the mutex is free, and `target` is a directory that is
  -- there with all that `f` lists below it, under names of 1 to 1024 bytes and on distinct paths: with
  -- fuel for two rounds more than there are entries, `remove_all` removes every file and directory below
  -- it and the directory itself, and returns how many they are, modulo 2^64. It changes for no other path
  -- whether it is there, the directories that were open before can be read on as before, and the mutex
  -- is free.
  pub remove_all-removes :
      (fuel : ℕ) (target : Text) (f : Forest) (w : World S)
      → w.locked ≡ false
      → Describes api join filename entries is_folder target f
      → is_folder target ≡ true
      → entries target ≡ listed f
      → IsNot target (paths join target f)
      → AllAre (here w.remote) true (paths join target f ++ target ∷ [])
      → size_of f + 1 < fuel
      → (w' : World S) × ((remove_all api join filename fs fuel target w
            ≡ (returned ((length (paths join target f) + 1) % 2 ^ 64), w'))
          × Cleared here unread (paths join target f ++ target ∷ []) (λ _. Unit) w.remote w'.remote
          × (w'.locked ≡ false))
  unfolding remove_all ◌>>=◌
  remove_all-removes fuel target f w l ds kind es apart all enough =
      let (all_f, all_target) =
        append-AllAre (here w.remote) true (paths join target f) (target ∷ []) all in
      let (good, typed, keeps_open, keeps_paths) = serves.stats target w.remote all_target.0 kind in
      let w1 = stat_world api join filename entries is_folder fs here unread handle target w in
      let c =
        Cleared-nothing here unread (λ _. Unit) w.remote w1.remote (λ q. keeps_paths q tt)
          keeps_open in
      let (w', r) =
        directory-RemovesDirectory fuel target f w1 refl ds kind es apart
          (still_here here unread [] (paths join target f) _ w.remote w1.remote c tt all_f)
          (keeps_paths target tt ∙ all_target.0) enough in
      (
        w',
        (
          rw
              (
                check_status-directory api join filename entries is_folder fs here unread handle
                    target w l good typed,
                r.result,
              )
              refl,
          Cleared-then here unread [] (paths join target f ++ target ∷ []) _ w.remote w1.remote
              w'.remote c r.cleared,
          r.released,
        ),
      )
