-- ===== src/Filesystem/Removal/Tree.antt =====
-- A remote directory with what is below it, and what ssh/filesystem.hpp relies on libssh2 for where it
-- removes one.
use ssh2_cpp.Base.{
  ◌≡◌, ◌≢◌, ℕ, suc, ◌+◌, ◌<◌, ◌≤◌, ℤ, pos, is_negative, Bool, true, false, Option, none, some, List,
  [], ◌∷◌, ◌++◌, take, length, Text,
}
use ssh2_cpp.Libssh2.{Libssh2, Attributes, no_attributes, no_open_flags, opendir, link_itself}
use ssh2_cpp.State.{SftpChannelState}
use ssh2_cpp.Filesystem.{PathStatus, non_directory, is_directory, status_of_type}
use ssh2_cpp.Filesystem.Attribute.{type}
use ssh2_cpp.Filesystem.Removal.{is_dots}

-- What is listed in a directory, in order: `.` and `..`, files, and directories with their contents.
pub data Forest : Type 0 where
  nothing : Forest
  dots file : Text → Attributes → Forest → Forest
  folder : Text → Attributes → Forest → Forest → Forest

-- A directory's listing: names and attributes.
abbrev pub Listing : Type 0
Listing = List (Text × Attributes)

abbrev pub listed : Forest → Listing
listed nothing = []
listed (dots n a rest) = (n, a) ∷ listed rest
listed (file n a rest) = (n, a) ∷ listed rest
listed (folder n a inside rest) = (n, a) ∷ listed rest

-- The number of entries at all levels.
abbrev pub size_of : Forest → ℕ
size_of nothing = 0
size_of (dots n a rest) = suc (size_of rest)
size_of (file n a rest) = suc (size_of rest)
size_of (folder n a inside rest) = suc (size_of inside + size_of rest)

abbrev pub IsNot : Text → List Text → Type 0
IsNot q [] = Unit
IsNot q (p ∷ ps) = (q ≢ p) × IsNot q ps

abbrev pub AllAre : (Text → Bool) → Bool → List Text → Type 0
AllAre here b [] = Unit
AllAre here b (p ∷ ps) = (here p ≡ b) × AllAre here b ps

abbrev pub Disjoint : List Text → List Text → Type 0
Disjoint [] qs = Unit
Disjoint (p ∷ ps) qs = IsNot p qs × Disjoint ps qs

module _ (join : Text → Text → Text) where
  -- The paths of the files and directories, in the order in which they are removed.
  abbrev pub paths : Text → Forest → List Text
  paths d nothing = []
  paths d (dots n a rest) = paths d rest
  paths d (file n a rest) = join d n ∷ paths d rest
  paths d (folder n a inside rest) = paths (join d n) inside ++ join d n ∷ paths d rest

-- Names fit the buffer of an iterator.
abbrev pub Fits : Text → Type 0
Fits n = (0 < length n) × (length n ≤ 1024)

module _ {S : Type 0} (api : Libssh2 S) (join : Text → Text → Text) (filename : Text → Text)
    (entries : Text → Listing) (is_folder : Text → Bool) where
  abbrev pub Named : Bool → Text → Text → Type 0
  Named b d n = Fits n × (is_dots (filename (join d n)) ≡ b)

  abbrev pub Typed : PathStatus → Attributes → Type 0
  Typed status a = status_of_type (type api (record { raw = a })) ≡ status

  -- The directory `d` lists `f`, and the directories in it list what `f` says; the types are those of
  -- the attributes, and no path occurs twice.
  abbrev pub Describes : Text → Forest → Type 0
  Describes d nothing = Unit
  Describes d (dots n a rest) = Named true d n × Describes d rest
  Describes d (file n a rest) =
      Named false d n
      × Typed non_directory a
      × (is_folder (join d n) ≡ false)
      × IsNot (join d n) (paths join d rest)
      × Describes d rest
  Describes d (folder n a inside rest) =
      Named false d n
      × Typed is_directory a
      × (is_folder (join d n) ≡ true)
      × (entries (join d n) ≡ listed inside)
      × IsNot (join d n) (paths join (join d n) inside)
      × IsNot (join d n) (paths join d rest)
      × Disjoint (paths join (join d n) inside) (paths join d rest)
      × Describes (join d n) inside
      × Describes d rest

  -- Each entry of a directory, but for `.` and `..`, is there, or is gone.
  abbrev pub EntriesAre : (Text → Bool) → Bool → Text → Listing → Type 0
  EntriesAre here b d [] = Unit
  EntriesAre here b d ((n, a) ∷ es) =
      (is_dots (filename (join d n)) ≡ false → here (join d n) ≡ b) × EntriesAre here b d es

  -- What libssh2 and a server document of directories whose entries were `entries`, where `here s` says
  -- which paths there are in the state `s`, and `unread s h` what is still to be read from the open
  -- directory `h`. The listing that an open directory gives is the one at its opening.
  module _ (fs : SftpChannelState) (here : S → Text → Bool) (unread : S → ℕ → Option Listing)
      (handle : Text → S → ℕ) where
    abbrev open_at : Text → S → Option ℕ × S
    open_at p s = api.sftp.open_ex fs.sftp_ptr p no_open_flags 0 opendir s

    -- A step that keeps what is open, but for the handles that `except` allows.
    abbrev pub KeepsOpen : (ℕ → Type 0) → S → S → Type 0
    KeepsOpen other s s' =
        (h : ℕ) (es : Listing) → other h → unread s h ≡ some es → unread s' h ≡ some es

    abbrev pub KeepsPaths : (Text → Type 0) → S → S → Type 0
    KeepsPaths other s s' = (q : Text) → other q → here s' q ≡ here s q

    pub record Opens (p : Text) (s : S) : Type 0 where
      pub opened : (open_at p s).0 ≡ some (handle p s)
      pub was_unused : unread s (handle p s) ≡ none
      pub lists : unread (open_at p s).1 (handle p s) ≡ some (entries p)
      pub keeps_open : KeepsOpen (λ _. Unit) s (open_at p s).1
      pub keeps_paths : KeepsPaths (λ _. Unit) s (open_at p s).1

    abbrev read_at : ℕ → S → (ℤ × Text × Text × Attributes) × S
    read_at h s = api.sftp.readdir_ex (some h) 1024 1024 s

    pub record Reads (h : ℕ) (n : Text) (a : Attributes) (es : Listing) (s : S) : Type 0 where
      pub count : (read_at h s).0.0 ≡ pos (length n)
      pub name : take (length n) (read_at h s).0.1 ≡ n
      pub attributes : (read_at h s).0.3 ≡ a
      pub left : unread (read_at h s).1 h ≡ some es

    -- A removal that succeeds.
    pub record Removes (p : Text) (r : ℤ × S) (s : S) : Type 0 where
      pub succeeds : is_negative r.0 ≡ false
      pub gone : here r.1 p ≡ false
      pub stay_gone : (q : Text) → here s q ≡ false → here r.1 q ≡ false
      pub keeps_paths : KeepsPaths (λ q. q ≢ p) s r.1
      pub keeps_open : KeepsOpen (λ _. Unit) s r.1

    pub record ServesDirectories : Type 0 where
      pub opens :
          (p : Text) (s : S)
          → here s p ≡ true
          → is_folder p ≡ true
          → EntriesAre (here s) true p (entries p)
          → Opens p s
      pub reads :
          (h : ℕ) (n : Text) (a : Attributes) (es : Listing) (s : S)
          → Fits n
          → unread s h ≡ some ((n, a) ∷ es)
          → Reads h n a es s
      pub reads_end : (h : ℕ) (s : S) → unread s h ≡ some [] → (read_at h s).0.0 ≡ pos 0
      pub read_keeps_open : (h : ℕ) (s : S) → KeepsOpen (λ h'. h' ≢ h) s (read_at h s).1
      pub read_keeps_paths : (h : ℕ) (s : S) → KeepsPaths (λ _. Unit) s (read_at h s).1
      pub close_keeps_open :
          (h : ℕ) (s : S) → KeepsOpen (λ h'. h' ≢ h) s (api.sftp.close_handle (some h) s).1
      pub close_keeps_paths :
          (h : ℕ) (s : S) → KeepsPaths (λ _. Unit) s (api.sftp.close_handle (some h) s).1
      pub unlinks :
          (p : Text) (s : S)
          → here s p ≡ true
          → is_folder p ≡ false
          → Removes p (api.sftp.unlink_ex fs.sftp_ptr p s) s
      pub removes_directory :
          (p : Text) (s : S)
          → here s p ≡ true
          → is_folder p ≡ true
          → EntriesAre (here s) false p (entries p)
          → Removes p (api.sftp.rmdir_ex fs.sftp_ptr p s) s
      pub stats :
          (p : Text) (s : S)
          → here s p ≡ true
          → is_folder p ≡ true
          → let r = api.sftp.stat_ex fs.sftp_ptr p link_itself no_attributes s in
            (is_negative r.0.0 ≡ false)
            × Typed is_directory r.0.1
            × KeepsOpen (λ _. Unit) s r.1
            × KeepsPaths (λ _. Unit) s r.1
