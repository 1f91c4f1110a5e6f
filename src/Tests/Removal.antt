-- ===== src/Tests/Removal.antt =====
-- The removal of a directory of the test server.
use ssh2_cpp.Base.{
  ◌≡◌, ◌≢◌, refl, ap, ◌∙◌, arith, ℕ, suc, ◌==◌, ◌||◌, not, Bool, true, false, ℤ, pos, none, some,
  Option, [], ◌∷◌, ◌++◌, length, take-eq_of_le, Text, if◌then◌else◌,
}
use ssh2_cpp.Libssh2.{Libssh2, Attributes, no_attributes}
use ssh2_cpp.Effect.{World, returned}
use ssh2_cpp.State.{SftpChannelState}
use ssh2_cpp.Filesystem.{status_of_type}
use ssh2_cpp.Filesystem.Attribute.{type}
use ssh2_cpp.Filesystem.Removal.{remove_all, is_dots}
use ssh2_cpp.Filesystem.Removal.Tree.{
  Forest, nothing, dots, file, folder, Listing, listed, paths, Describes, ServesDirectories,
  Removes, Reads, Fits,
}
use ssh2_cpp.Filesystem.Removal.Cleared.{Cleared}
use ssh2_cpp.Filesystem.Removal.Complete.{remove_all-removes}
use ssh2_cpp.Effect.Locking.{Keeps}
use ssh2_cpp.Filesystem.Removal.Locked.{remove_all-Keeps}
use ssh2_cpp.Tests.Hosts.{same_text}
use ssh2_cpp.Tests.Disk.{
  Disk, fresh_disk, member, member-first, member-later, member-other, unread_of, largest_handle,
  unread-fresh, unread-same, unread-other, unread-kept, read_listing,
}
use ssh2_cpp.Tests.Server.{Server, api}

abbrev filesystem : SftpChannelState
filesystem = record {
  session = record { session_ptr = some 1; disconnection_message = none };
  sftp_ptr = some 4;
}

abbrev file_attributes : Attributes
file_attributes = record no_attributes { flags = 4; permissions = 0o100644 }

abbrev folder_attributes : Attributes
folder_attributes = record no_attributes { flags = 4; permissions = 0o40755 }

abbrev join : Text → Text → Text
join d n = d ++ b'/' ∷ n

-- what follows the last slash
unfoldable last_name : Text → Text → Text
last_name name [] = name
last_name name (c ∷ cs) =
    let next = last_name [] cs in
    let longer = last_name (name ++ c ∷ []) cs in if c == b'/' then next else longer

abbrev filename : Text → Text
filename path = last_name [] path

-- `d` holds `.`, `f` and `s`, and `d/s` holds `g`
abbrev target : Text
target = b'd' ∷ []

abbrev inner : Forest
inner = file (b'g' ∷ []) file_attributes nothing

abbrev outer : Forest
outer =
    dots (b'.' ∷ []) folder_attributes
      (file (b'f' ∷ []) file_attributes (folder (b's' ∷ []) folder_attributes inner nothing))

unfoldable is_folder : Text → Bool
is_folder p = same_text p target || same_text p (join target (b's' ∷ []))

unfoldable entries : Text → Listing
entries p =
    if same_text p target
    then listed outer
    else if same_text p (join target (b's' ∷ []))
    then listed inner
    else []

abbrev here : Server → Text → Bool
here s p = not (member p s.disk.gone)

abbrev unread : Server → ℕ → Option Listing
unread s h = unread_of s.disk.opened h

abbrev handle : Text → Server → ℕ
handle p s = suc (largest_handle s.disk.opened)

abbrev remove_path : Text → Server → Server
remove_path p s = record s { disk = record s.disk { gone = p ∷ s.disk.gone } }

abbrev open_path : Text → Server → Server
open_path p s = record s {
  disk = record s.disk { opened = (handle p s, entries p) ∷ s.disk.opened };
}

abbrev read_from : Option ℕ → Server → (ℤ × Text × Text × Attributes) × Server
read_from none s = ((pos 0, [], [], no_attributes), s)
read_from (some h) s = let (r, d) = read_listing h (unread s h) s.disk in (r, record s { disk = d })

unfoldable disk_api : Libssh2 Server
unfolding api
disk_api = record api {
  sftp = record api.sftp {
    open_ex = λ c p flags mode t s. (some (handle p s), open_path p s);
    readdir_ex = λ h n m s. read_from h s;
    unlink_ex = λ c p s. (pos 0, remove_path p s);
    rmdir_ex = λ c p s. (pos 0, remove_path p s);
    stat_ex = λ c p t a s. ((pos 0, if is_folder p then folder_attributes else file_attributes), s);
  };
}

read_listing-kept :
    (h k : ℕ) (o : Option Listing) (d : Disk) (es : Listing)
    → k ≢ h
    → unread_of d.opened k ≡ some es
    → unread_of (read_listing h o d).1.opened k ≡ some es
read_listing-kept h k none d es n e = e
read_listing-kept h k (some []) d es n e = e
read_listing-kept h k (some ((m, a) ∷ fs)) d es n e = unread-other k h fs d.opened n ∙ e

read_listing-gone : (h : ℕ) (o : Option Listing) (d : Disk) → (read_listing h o d).1.gone ≡ d.gone
read_listing-gone h none d = refl
read_listing-gone h (some []) d = refl
read_listing-gone h (some ((m, a) ∷ fs)) d = refl

gone_first : (p : Text) (s : Server) → here (remove_path p s) p ≡ false
gone_first p s = rw (member-first p s.disk.gone) refl

gone_later : (q p : Text) (s : Server) → here s q ≡ false → here (remove_path p s) q ≡ false
gone_later q p s e = rw (member-later q p s.disk.gone (ground (arith, e))) refl

gone_other : (q p : Text) (s : Server) → q ≢ p → here (remove_path p s) q ≡ here s q
gone_other q p s n = ap not (member-other q p s.disk.gone n)

abbrev removes_lem :
    (p : Text) (s : Server)
    → Removes disk_api join filename entries is_folder filesystem here unread handle p
        (pos 0, remove_path p s)
        s
removes_lem p s = record {
  succeeds = refl;
  gone = gone_first p s;
  stay_gone = λ q e. gone_later q p s e;
  keeps_paths = λ q n. gone_other q p s n;
  keeps_open = λ h es x e. e;
}

reads_lem :
    (h : ℕ) (n : Text) (a : Attributes) (es : Listing) (s : Server)
    → unread s h ≡ some ((n, a) ∷ es)
    → Reads disk_api join filename entries is_folder filesystem here unread handle h n a es s
unfolding disk_api api
reads_lem h n a es s e = record {
  count = rw e refl;
  name = rw e (take-eq_of_le (length n) n (omega arith));
  attributes = rw e refl;
  left = rw e (unread-same h es s.disk.opened);
}

disk_api-ServesDirectories :
    ServesDirectories disk_api join filename entries is_folder filesystem here unread handle
unfolding disk_api api type status_of_type
disk_api-ServesDirectories = record {
  opens = λ p s there kind full. record {
    opened = refl;
    was_unused = unread-fresh s.disk.opened;
    lists = unread-same (handle p s) (entries p) s.disk.opened;
    keeps_open = λ h es x e.
        unread-kept h (handle p s) (entries p) es s.disk.opened (unread-fresh s.disk.opened) e;
    keeps_paths = λ q x. refl;
  };
  reads = λ h n a es s fits e. reads_lem h n a es s e;
  reads_end = λ h s e. rw e refl;
  read_keeps_open = λ h s k es n e. read_listing-kept h k (unread s h) s.disk es n e;
  read_keeps_paths = λ h s q x. rw (read_listing-gone h (unread s h) s.disk) refl;
  close_keeps_open = λ h s k es n e. e;
  close_keeps_paths = λ h s q x. refl;
  unlinks = λ p s there kind. removes_lem p s;
  removes_directory = λ p s there kind empty. removes_lem p s;
  stats = λ p s there kind. rw kind (refl, refl, (λ h es x e. e), (λ q x. refl));
}

abbrev world : World Server
world = record {
  remote = record { content = []; position = 0; hosts = []; disk = fresh_disk };
  locked = false;
  debug = true;
  calls = [];
}

small : (n : Text) → length n ≡ 1 → Fits n
small n e = (omega arith, omega arith)

outer_lem : Describes disk_api join filename entries is_folder target outer
unfolding disk_api api type status_of_type is_folder entries is_dots last_name same_text
outer_lem = (
  (small (b'.' ∷ []) refl, refl),
  (
    (small (b'f' ∷ []) refl, refl),
    refl,
    refl,
    (λ e. ground arith, (λ e. ground arith, tt)),
    (
      (small (b's' ∷ []) refl, refl),
      refl,
      refl,
      refl,
      (λ e. cc, tt),
      tt,
      (tt, tt),
      ((small (b'g' ∷ []) refl, refl), refl, refl, tt, tt),
      tt,
    ),
  ),
)

remove_all-removes_example :
    (w' : World Server) × ((remove_all disk_api join filename filesystem 6 target world
        ≡ (returned 4, w'))
      × Cleared here unread
          (paths join target outer ++ target ∷ [])
          (λ _. Unit)
          world.remote
          w'.remote
      × (w'.locked ≡ false))
unfolding is_folder entries member same_text
remove_all-removes_example =
    remove_all-removes disk_api join filename entries is_folder filesystem here unread handle
      disk_api-ServesDirectories 6 target outer world refl outer_lem refl refl
      ((λ e. cc, (λ e. cc, (λ e. cc, tt)))) ((refl, (refl, (refl, (refl, tt))))) (omega arith)

remove_all-Keeps_example : Keeps false (remove_all disk_api join filename filesystem 6 target)
remove_all-Keeps_example = remove_all-Keeps disk_api join filename filesystem 6 target
