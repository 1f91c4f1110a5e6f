-- ===== src/Filesystem/Removal/Loop.antt =====
-- The loop over the entries of a directory that is removed in ssh/filesystem.hpp.
use ssh2_cpp.Base.{◌≡◌, ◌≢◌, refl, ℕ, Bool, false, Option, none, some, [], ◌∷◌, Text}
use ssh2_cpp.Libssh2.{Libssh2, Attributes}
use ssh2_cpp.Effect.{World, returned}
use ssh2_cpp.State.{SftpChannelState}
use ssh2_cpp.Filesystem.Iterator.{DirectoryIterator, next_file}
use ssh2_cpp.Filesystem.Removal.Tree.{
  Forest, nothing, dots, file, folder, Listing, listed, Fits, ServesDirectories, Describes,
}
use ssh2_cpp.Filesystem.Removal.Cleared.{Cleared, Cleared-nothing, Cleared-then}
use ssh2_cpp.Filesystem.Removal.Steps.{
  handle_state, next_file_lem, next_file-end, read_world, closed_world,
}

module _ {S : Type 0} (api : Libssh2 S) (join : Text → Text → Text) (filename : Text → Text)
    (entries : Text → Listing) (is_folder : Text → Bool) (fs : SftpChannelState)
    (here : S → Text → Bool) (unread : S → ℕ → Option Listing) (handle : Text → S → ℕ)
    (serves : ServesDirectories api join filename entries is_folder fs here unread handle) where
  -- An iterator at an entry, and one at the first entry of a forest or at the end.
  abbrev pub entry : Text → ℕ → Text → Attributes → Text → DirectoryIterator
  entry d h n a le = record {
    directory = d;
    handle = some (handle_state api join filename entries is_folder fs here unread handle h);
    file_name = n;
    long_entry = le;
    attributes = a;
  }

  abbrev pub at : Text → ℕ → Forest → Text → Attributes → Text → DirectoryIterator
  at d h nothing n a le = record (entry d h n a le) { handle = none }
  at d h (dots m b rest) n a le = entry d h m b le
  at d h (file m b rest) n a le = entry d h m b le
  at d h (folder m b inside rest) n a le = entry d h m b le

  -- What is left to be read when the iterator is at the first entry.
  abbrev pub Left : ℕ → Forest → S → Type 0
  Left h nothing s = Unit
  Left h (dots m b rest) s = unread s h ≡ some (listed rest)
  Left h (file m b rest) s = unread s h ≡ some (listed rest)
  Left h (folder m b inside rest) s = unread s h ≡ some (listed rest)

  abbrev Others : ℕ → ℕ → Type 0
  Others h h' = h' ≢ h

  -- The iterator has moved on to the first entry of `f`.
  pub record Advances (it : DirectoryIterator) (d : Text) (h : ℕ) (f : Forest) (n : Text)
      (a : Attributes) (le : Text) (w w' : World S) : Type 0 where
    pub result :
        next_file api it
          (handle_state api join filename entries is_folder fs here unread handle h)
          w
        ≡ (returned (at d h f n a le), w')
    pub left : Left h f w'.remote
    pub cleared : Cleared here unread [] (Others h) w.remote w'.remote
    pub released : w'.locked ≡ false

  advances_to :
      (d : Text) (h : ℕ) (n : Text) (a : Attributes) (le : Text) (m : Text) (b : Attributes)
      (rest : Listing) (w : World S)
      → w.locked ≡ false
      → Fits m
      → unread w.remote h ≡ some ((m, b) ∷ rest)
      → (le' : Text) × (w' : World S) × (next_file api
            (entry d h n a le)
            (handle_state api join filename entries is_folder fs here unread handle h)
            w
          ≡ (returned (entry d h m b le'), w'))
        × (unread w'.remote h ≡ some rest)
        × Cleared here unread [] (Others h) w.remote w'.remote
        × (w'.locked ≡ false)
  advances_to d h n a le m b rest w l fits e =
      let r = serves.reads h m b rest w.remote fits e in
      (
        _,
        _,
        next_file_lem api join filename entries is_folder fs here unread handle (entry d h n a le) h
            m b rest w l fits r,
        r.left,
        Cleared-nothing here unread (Others h) w.remote _
            (λ q. serves.read_keeps_paths h w.remote q tt) (serves.read_keeps_open h w.remote),
        refl,
      )

  pub next_file-Advances :
      (f : Forest) (d : Text) (h : ℕ) (n : Text) (a : Attributes) (le : Text) (w : World S)
      → w.locked ≡ false
      → Describes api join filename entries is_folder d f
      → unread w.remote h ≡ some (listed f)
      → (le' : Text) × (w' : World S) × Advances (entry d h n a le) d h f n a le' w w'
  next_file-Advances nothing d h n a le w l ds e =
      let w1 = read_world api join filename entries is_folder fs here unread handle h w in
      (
        le,
        closed_world api join filename entries is_folder fs here unread handle h w1,
        record {
          result =
              next_file-end api join filename entries is_folder fs here unread handle
                (entry d h n a le) h w l (serves.reads_end h w.remote e);
          left = tt;
          cleared =
              Cleared-then here unread [] [] (Others h) w.remote w1.remote _
                (Cleared-nothing here unread (Others h) w.remote w1.remote
                  (λ q. serves.read_keeps_paths h w.remote q tt)
                  (serves.read_keeps_open h w.remote))
                (Cleared-nothing here unread (Others h) w1.remote _
                  (λ q. serves.close_keeps_paths h w1.remote q tt)
                  (serves.close_keeps_open h w1.remote));
          released = refl;
        },
      )
  next_file-Advances (dots m b rest) d h n a le w l ds e =
      let (le', w', r, u, c, k) = advances_to d h n a le m b (listed rest) w l ds.0.0 e in
      (le', w', record { result = r; left = u; cleared = c; released = k })
  next_file-Advances (file m b rest) d h n a le w l ds e =
      let (le', w', r, u, c, k) = advances_to d h n a le m b (listed rest) w l ds.0.0 e in
      (le', w', record { result = r; left = u; cleared = c; released = k })
  next_file-Advances (folder m b inside rest) d h n a le w l ds e =
      let (le', w', r, u, c, k) = advances_to d h n a le m b (listed rest) w l ds.0.0 e in
      (le', w', record { result = r; left = u; cleared = c; released = k })
