-- ===== src/Tests/Disk.antt =====
-- Directories of a test server: the paths that have been removed, and what is still to be read from the
-- open directories, the newest first.
use ssh2_cpp.Base.{
  ◌≡◌, ◌≢◌, refl, arith, ℕ, suc, ◌<◌, ltb, ◌==◌, ◌||◌, Bool, true, false, ℤ, pos, negsuc, none,
  some, Option, List, [], ◌∷◌, length, Text, if◌then◌else◌,
}
use ssh2_cpp.Libssh2.{Attributes, no_attributes}
use ssh2_cpp.Filesystem.Removal.Tree.{Listing}
use ssh2_cpp.Tests.Hosts.{same_text}

pub record Disk : Type 0 where
  pub gone : List Text
  pub opened : List (ℕ × Listing)

abbrev pub fresh_disk : Disk
fresh_disk = record { gone = []; opened = [] }

unfoldable pub member : Text → List Text → Bool
unfolding same_text
member p [] = false
member p (q ∷ qs) = let rest = member p qs in same_text p q || rest

unfoldable pub unread_of : List (ℕ × Listing) → ℕ → Option Listing
unread_of [] h = none
unread_of ((k, es) ∷ opened) h = let rest = unread_of opened h in if h == k then some es else rest

unfoldable pub largest_handle : List (ℕ × Listing) → ℕ
largest_handle [] = 0
largest_handle ((k, es) ∷ opened) =
    let rest = largest_handle opened in if ltb rest k then k else rest

unread-above :
    (h : ℕ) (opened : List (ℕ × Listing)) → largest_handle opened < h → unread_of opened h ≡ none
unfolding largest_handle unread_of
unread-above h [] e = refl
unread-above h ((k, es) ∷ opened) e = ground (arith, unread-above h opened)

pub unread-fresh :
    (opened : List (ℕ × Listing)) → unread_of opened (suc (largest_handle opened)) ≡ none
unread-fresh opened = unread-above (suc (largest_handle opened)) opened (omega arith)

pub unread-same :
    (h : ℕ) (es : Listing) (opened : List (ℕ × Listing)) → unread_of ((h, es) ∷ opened) h ≡ some es
unfolding unread_of
unread-same h es opened = ground arith

pub unread-other :
    (h k : ℕ) (es : Listing) (opened : List (ℕ × Listing))
    → h ≢ k
    → unread_of ((k, es) ∷ opened) h ≡ unread_of opened h
unfolding unread_of
unread-other h k es opened n = ground (arith, n)

-- What opening an unused handle keeps.
pub unread-kept :
    (h k : ℕ) (es fs : Listing) (opened : List (ℕ × Listing))
    → unread_of opened k ≡ none
    → unread_of opened h ≡ some fs
    → unread_of ((k, es) ∷ opened) h ≡ some fs
unfolding unread_of
unread-kept h k es fs opened e f = ground arith

same_text_refl : (t : Text) → same_text t t ≡ true
unfolding same_text
same_text_refl [] = refl
same_text_refl (c ∷ cs) = ground (arith, same_text_refl cs)

pub same_text-eq : (t u : Text) → same_text t u ≡ true → t ≡ u
unfolding same_text
same_text-eq [] [] e = refl
same_text-eq [] (d ∷ ds) e = absurd (ground arith)
same_text-eq (c ∷ cs) [] e = absurd (ground arith)
same_text-eq (c ∷ cs) (d ∷ ds) e = ground (arith, same_text-eq cs ds)

pub member-first : (p : Text) (ps : List Text) → member p (p ∷ ps) ≡ true
unfolding member
member-first p ps = rw (same_text_refl p) refl

pub member-later : (q p : Text) (ps : List Text) → member q ps ≡ true → member q (p ∷ ps) ≡ true
unfolding member
member-later q p ps e = ground arith

pub member-other : (q p : Text) (ps : List Text) → q ≢ p → member q (p ∷ ps) ≡ member q ps
unfolding member
member-other q p ps n = ground (arith, same_text-eq q p, n)

-- what reading gives, with what is left
abbrev pub read_listing : ℕ → Option Listing → Disk → (ℤ × Text × Text × Attributes) × Disk
read_listing h none d = ((negsuc 30, [], [], no_attributes), d)
read_listing h (some []) d = ((pos 0, [], [], no_attributes), d)
read_listing h (some ((n, a) ∷ es)) d =
    ((pos (length n), n, [], a), record d { opened = (h, es) ∷ d.opened })
