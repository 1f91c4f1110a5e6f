-- ===== src/Filesystem/Removal/Entries.antt =====
-- The loop over the entries of a directory that is removed in ssh/filesystem.hpp, to its end.
use ssh2_cpp.Filesystem.Iterator.{DirectoryIterator}
use ssh2_cpp.Base.{
  ◌≡◌, ◌≢◌, refl, ap, ◌∙◌, arith, ℕ, zero, suc, ◌+◌, ◌%◌, ◌^◌, ◌<◌, Bool, true, false, Option, some,
  List, [], ◌∷◌, ◌++◌, length, length-append, append_assoc, Text,
}
use ssh2_cpp.Libssh2.{Libssh2, Attributes}
use ssh2_cpp.Effect.{M, World, returned, pure}
use ssh2_cpp.State.{SftpChannelState, FileHandleState}
use ssh2_cpp.Filesystem.Iterator.{DirectoryIterator}
use ssh2_cpp.Filesystem.Removal.{remove_entry, remove_entries, remove_directory}
use ssh2_cpp.Filesystem.Removal.Tree.{
  Forest, nothing, dots, file, folder, Listing, listed, ServesDirectories, Describes, paths,
  size_of, AllAre, Disjoint, IsNot,
}
use ssh2_cpp.Filesystem.Removal.Cleared.{
  Cleared, Cleared-nothing, Cleared-then, Cleared-narrow, still_here, append-AllAre,
  append-Disjoint,
}
use ssh2_cpp.Filesystem.Removal.Steps.{handle_state, do_remove-file, unlinked_world}
use ssh2_cpp.Filesystem.Removal.Loop.{entry, at, Left, next_file-Advances}
use ssh2_cpp.Filesystem.Removal.Round.{round, entry_dots, entry_file, entry_folder}

module _ {S : Type 0} (api : Libssh2 S) (join : Text → Text → Text) (filename : Text → Text)
    (entries : Text → Listing) (is_folder : Text → Bool) (fs : SftpChannelState)
    (here : S → Text → Bool) (unread : S → ℕ → Option Listing) (handle : Text → S → ℕ)
    (serves : ServesDirectories api join filename entries is_folder fs here unread handle) where
  abbrev pub entry_of : Text → ℕ → Text → Attributes → Text → DirectoryIterator
  entry_of = entry api join filename entries is_folder fs here unread handle serves

  abbrev pub first_of : Text → ℕ → Forest → Text → Attributes → Text → DirectoryIterator
  first_of = at api join filename entries is_folder fs here unread handle serves

  abbrev open_state : ℕ → FileHandleState
  open_state = handle_state api join filename entries is_folder fs here unread handle

  abbrev pub Described : Text → Forest → Type 0
  Described = Describes api join filename entries is_folder

  -- What the loop does from the first entry of `f` on: it removes the paths `ps`, and counts `removed`.
  pub record Empties (below : Text → M S ℕ) (fuel : ℕ) (it : DirectoryIterator) (h : ℕ)
      (ps : List Text) (count : ℕ) (w w' : World S) : Type 0 where
    pub result :
        remove_entries api join filename fs below fuel it it.handle count w
        ≡ (returned ((count + length ps) % 2 ^ 64), w')
    pub cleared : Cleared here unread ps (λ h'. h' ≢ h) w.remote w'.remote
    pub released : w'.locked ≡ false

  -- One round, and the loop on the entries that are left.
  go_on :
      (below : Text → M S ℕ) (ps : List Text) (rest : Forest) (fuel count count' : ℕ) (d : Text)
      (h : ℕ) (m : Text) (b : Attributes) (le : Text) (w w1 : World S)
      → remove_entry api join filename fs below (entry_of d h m b le) count w
        ≡ (returned count', w1)
      → count' ≡ (count + length ps) % 2 ^ 64
      → Cleared here unread ps (λ h'. h' ≢ h) w.remote w1.remote
      → w1.locked ≡ false
      → Described d rest
      → unread w1.remote h ≡ some (listed rest)
      → AllAre (here w.remote) true (paths join d rest)
      → Disjoint ps (paths join d rest)
      → ((le' : Text) (w2 : World S)
          → w2.locked ≡ false
          → AllAre (here w2.remote) true (paths join d rest)
          → Left api join filename entries is_folder fs here unread handle serves h rest w2.remote
          → (w' : World S) × Empties below fuel
              (first_of d h rest m b le')
              h
              (paths join d rest)
              count'
              w2
              w')
      → (w' : World S) × Empties below
          (suc fuel)
          (entry_of d h m b le)
          h
          (ps ++ paths join d rest)
          count
          w
          w'
  go_on below ps rest fuel count count' d h m b le w w1 e counted c l ds left all apart loop =
      let (le', w2, adv) =
        next_file-Advances api join filename entries is_folder fs here unread handle serves rest d h
          m b le w1 l ds left in
      let all1 = still_here here unread ps (paths join d rest) _ w.remote w1.remote c apart all in
      let all2 =
        still_here here unread [] (paths join d rest) _ w1.remote w2.remote adv.cleared tt all1 in
      let (w', r) = loop le' w2 adv.released all2 adv.left in
      (
        w',
        record {
          result =
              round api join filename fs below fuel (entry_of d h m b le)
                (first_of d h rest m b le') (open_state h) count count' w w1 w2 e refl adv.result
              ∙ r.result
              ∙ ap (λ k. (returned k, w'))
                  (omega (arith, counted, length-append ps (paths join d rest)));
          cleared =
              Cleared-then here unread ps (paths join d rest) _ w.remote w1.remote w'.remote c (
                Cleared-then here unread [] (paths join d rest) _ w1.remote w2.remote w'.remote
                  adv.cleared r.cleared);
          released = r.released;
        },
      )

  -- What `remove_directory` does with a directory `p` that lists `f`.
  pub record RemovesDirectory (fuel : ℕ) (p : Text) (f : Forest) (w w' : World S) : Type 0 where
    pub result :
        remove_directory api join filename fs fuel p w
        ≡ (returned ((length (paths join p f) + 1) % 2 ^ 64), w')
    pub cleared : Cleared here unread (paths join p f ++ p ∷ []) (λ _. Unit) w.remote w'.remote
    pub released : w'.locked ≡ false

  -- With this fuel, directories are removed that hold fewer entries.
  abbrev pub RemovesBelow : ℕ → Type 0
  RemovesBelow fuel =
      (p : Text) (f : Forest) (w : World S)
      → w.locked ≡ false
      → Described p f
      → is_folder p ≡ true
      → entries p ≡ listed f
      → IsNot p (paths join p f)
      → AllAre (here w.remote) true (paths join p f)
      → here w.remote p ≡ true
      → size_of f + 1 < fuel
      → (w' : World S) × RemovesDirectory fuel p f w w'

  pub entries-Empties :
      (bound : ℕ)
      → RemovesBelow bound
      → (f : Forest) (fuel count : ℕ) (d : Text) (h : ℕ) (n : Text) (a : Attributes) (le : Text)
        (w : World S)
      → w.locked ≡ false
      → Described d f
      → AllAre (here w.remote) true (paths join d f)
      → Left api join filename entries is_folder fs here unread handle serves h f w.remote
      → size_of f < fuel
      → size_of f < bound
      → count < 2 ^ 64
      → (w' : World S) × Empties
          (remove_directory api join filename fs bound)
          fuel
          (first_of d h f n a le)
          h
          (paths join d f)
          count
          w
          w'
  unfolding remove_entries pure
  entries-Empties bound ok nothing fuel count d h n a le w l ds all left enough deep small = (
    w,
    record {
      result = ap (λ k. (returned k, w)) (omega arith);
      cleared = Cleared-nothing here unread _ w.remote w.remote (λ q. refl) (λ h' es o e. e);
      released = l;
    },
  )
  entries-Empties bound ok (dots m b rest) zero count d h n a le w l ds all left enough deep small =
      absurd (omega arith)
  entries-Empties bound ok (file m b rest) zero count d h n a le w l ds all left enough deep small =
      absurd (omega arith)
  entries-Empties bound ok (folder m b inside rest) zero count d h n a le w l ds all left enough
        deep small =
      absurd (omega arith)
  entries-Empties bound ok (dots m b rest) (suc fuel) count d h n a le w l ds all left enough deep
        small =
      let below = remove_directory api join filename fs bound in
      go_on below [] rest fuel count count d h m b le w w
        (entry_dots api join filename fs below (entry_of d h m b le) (open_state h) refl count w
          ds.0.1)
        (omega arith) (Cleared-nothing here unread _ w.remote w.remote (λ q. refl) (λ h' es o e. e))
        l ds.1 left all tt
        λ le' w2 l2 all2 left2.
          entries-Empties bound ok rest fuel count d h m b le' w2 l2 ds.1 all2 left2 (omega arith)
            (omega arith) small
  entries-Empties bound ok (file m b rest) (suc fuel) count d h n a le w l ds all left enough deep
        small =
      let below = remove_directory api join filename fs bound in
      let (named, typed, plain_file, apart, ds') = ds in
      let r = serves.unlinks (join d m) w.remote all.0 plain_file in
      go_on below (join d m ∷ []) rest fuel count ((count + 1) % 2 ^ 64) d h m b le w
        (unlinked_world api join filename entries is_folder fs here unread handle (join d m) w)
        (entry_file api join filename fs below (entry_of d h m b le) (open_state h) refl count w _
          named.1 typed
          (do_remove-file api join filename entries is_folder fs here unread handle (join d m) w l
            r))
        refl
        (record {
          gone = (r.gone, tt);
          stay_gone = r.stay_gone;
          keeps_paths = λ q no. r.keeps_paths q no.0;
          keeps_open = λ h' es o e. r.keeps_open h' es tt e;
        })
        refl ds' (r.keeps_open h _ tt left) all.1 (apart, tt)
        λ le' w2 l2 all2 left2.
          entries-Empties bound ok rest fuel ((count + 1) % 2 ^ 64) d h m b le' w2 l2 ds' all2 left2
            (omega arith) (omega arith) (omega arith)
  entries-Empties bound ok (folder m b inside rest) (suc fuel) count d h n a le w l ds all left
        enough deep small =
      let below = remove_directory api join filename fs bound in
      let p = join d m in
      let (named, typed, a_folder, lists, not_inside, not_rest, apart, ds_in, ds') = ds in
      let (all_in, all_p) = append-AllAre (here w.remote) true (paths join p inside) _ all in
      let (w1, r) = ok p inside w l ds_in a_folder lists not_inside all_in all_p.0 (omega arith) in
      let removed = (length (paths join p inside) + 1) % 2 ^ 64 in
      let (w', e) =
        go_on below (paths join p inside ++ p ∷ []) rest fuel count ((count + removed) % 2 ^ 64) d h
          m b le w w1
          (entry_folder api join filename fs below (entry_of d h m b le) (open_state h) refl count w
            removed w1 named.1 typed r.result)
          (omega (arith, length-append (paths join p inside) (p ∷ [])))
          (Cleared-narrow here unread _ _ _ w.remote w1.remote (λ h' es o x. tt) r.cleared)
          r.released ds' (r.cleared.keeps_open h _ tt left) all_p.1
          (append-Disjoint (paths join p inside) (p ∷ []) (paths join d rest) apart (not_rest, tt))
          λ le' w2 l2 all2 left2.
            entries-Empties bound ok rest fuel ((count + removed) % 2 ^ 64) d h m b le' w2 l2 ds'
              all2 left2 (omega arith) (omega arith) (omega arith) in
      (w', rw (append_assoc (paths join p inside) (p ∷ []) (paths join d rest)) at e)
