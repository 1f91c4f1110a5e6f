-- ===== src/KnownHosts/File/Loading.antt =====
-- Loading known hosts from lines, and from the file to which they were saved.
use ssh2_cpp.KnownHosts.File.Lines.{getlines-put_lines, AllLack}
use ssh2_cpp.Base.{
  ◌≡◌, refl, sym, ap, ◌∙◌, arith, ℕ, ◌+◌, ◌<◌, ◌^◌, ℤ, is_negative, true, false, List, [], ◌∷◌,
  ◌++◌, append-nil, append_assoc, length, Text,
}
use ssh2_cpp.Libssh2.{HasDistinctCodes, Libssh2, libssh2_knownhost_readline}
use ssh2_cpp.Effect.{◌>>◌, World, returned, pure, call, with_lock, ◌>>=◌}
use ssh2_cpp.Error.{throw_if_error}
use ssh2_cpp.Wrapper.Knownhost
use ssh2_cpp.KnownHosts.Entry.{Hosts}
use ssh2_cpp.KnownHosts.Entry.Line.{PrintsLines}
use ssh2_cpp.KnownHosts.Iterator.Walk.{ListsHosts, IsDistinct}
use ssh2_cpp.KnownHosts.File.{save_to_file, put_lines, getlines, load_entries, read_entry}
use ssh2_cpp.KnownHosts.File.Saving.{save_to_file-Saves, lines_of, AllFit}

-- What the source expects of `libssh2_knownhost_readline` on a line that it accepts: it adds the entries
-- of that line at new addresses to the end of the collection, and `stored line` is what they print as. A
-- line with several hosts is stored as an entry for each, a tab is stored as a space, and a comment is
-- not stored.
pub record ReadsLines {S : Type 0} (api : Libssh2 S) (owner : Hosts) (type : ℤ)
    (view : S → List (ℕ × Text)) (Accepts : Text → Type 0) (stored : Text → List Text)
    : Type 0 where
  pub accepted :
      (line : Text) (s : S)
      → Accepts line
      → is_negative (api.knownhost.readline owner.hosts line type s).0 ≡ false
  pub added :
      (line : Text) (s : S)
      → Accepts line
      → lines_of (view (api.knownhost.readline owner.hosts line type s).1)
        ≡ lines_of (view s) ++ stored line
  pub stays_distinct :
      (line : Text) (s : S)
      → Accepts line
      → IsDistinct (view s)
      → IsDistinct (view (api.knownhost.readline owner.hosts line type s).1)

abbrev pub AllAccepted : (Text → Type 0) → List Text → Type 0
AllAccepted Accepts [] = Unit
AllAccepted Accepts (l ∷ ls) = Accepts l × AllAccepted Accepts ls

-- What the entries of all lines print as.
abbrev pub all_stored : (Text → List Text) → List Text → List Text
all_stored stored [] = []
all_stored stored (l ∷ ls) = stored l ++ all_stored stored ls

-- A buffer for each line has a size below 2^64.
abbrev pub AllShort : List Text → Type 0
AllShort [] = Unit
AllShort (l ∷ ls) = (length l + 2 < 2 ^ 64) × AllShort ls

AllShort-AllFit : (hosts : List (ℕ × Text)) → AllShort (lines_of hosts) → AllFit hosts
AllShort-AllFit [] h = tt
AllShort-AllFit ((p, t) ∷ hosts) (short, h) = (short, AllShort-AllFit hosts h)

length-lines_of : (hosts : List (ℕ × Text)) → length (lines_of hosts) ≡ length hosts
length-lines_of [] = refl
length-lines_of ((p, t) ∷ hosts) = omega (arith, length-lines_of hosts)

module _ {S : Type 0} (api : Libssh2 S) (owner : Hosts) (type : ℤ) (view : S → List (ℕ × Text))
    (Accepts : Text → Type 0) (stored : Text → List Text)
    (reads : ReadsLines api owner type view Accepts stored) where
  abbrev read_world : Text → World S → World S
  read_world line w = record w {
    remote = (api.knownhost.readline owner.hosts line type w.remote).1;
    locked = false;
    calls = record { function = libssh2_knownhost_readline; under_lock = true } ∷ w.calls;
  }

  read_entry_lem :
      (line : Text) (w : World S)
      → w.locked ≡ false
      → Accepts line
      → read_entry api owner type line w ≡ (returned tt, read_world line w)
  unfolding read_entry with_lock ◌>>=◌ call pure Knownhost.readline throw_if_error
  read_entry_lem line w l a = rw (l, reads.accepted line w.remote a) refl

  -- The collection after loading: the entries that were there, and then those of each line.
  pub record Loads (lines : List Text) (w w' : World S) : Type 0 where
    pub result : load_entries api owner type lines w ≡ (returned tt, w')
    pub loaded : lines_of (view w'.remote) ≡ lines_of (view w.remote) ++ all_stored stored lines
    pub distinct : IsDistinct (view w'.remote)
    pub released : w'.locked ≡ false

  pub load_entries-Loads :
      (lines : List Text) (w : World S)
      → w.locked ≡ false
      → IsDistinct (view w.remote)
      → AllAccepted Accepts lines
      → (w' : World S) × Loads lines w w'
  unfolding load_entries ◌>>=◌ pure
  load_entries-Loads [] w l d g =
      (w, record { result = refl; loaded = sym (append-nil _); distinct = d; released = l })
  load_entries-Loads (line ∷ lines) w l d (a, g) =
      let (w', r) =
        load_entries-Loads lines (read_world line w) refl (reads.stays_distinct line w.remote a d)
          g in
      (
        w',
        record {
          result = rw (read_entry_lem line w l a) r.result;
          loaded =
              r.loaded
              ∙ ap (λ ls. ls ++ all_stored stored lines) (reads.added line w.remote a)
              ∙ append_assoc (lines_of (view w.remote)) (stored line) (all_stored stored lines);
          distinct = r.distinct;
          released = r.released;
        },
      )

module _ {S : Type 0} (api : Libssh2 S) (d : HasDistinctCodes api.codes) (owner : Hosts)
    (view : S → List (ℕ × Text)) (prints : PrintsLines api owner api.masks.file_openssh view)
    (lists : ListsHosts api owner view) (Accepts : Text → Type 0) (stored : Text → List Text)
    (reads : ReadsLines api owner api.masks.file_openssh view Accepts stored) where
  -- If libssh2 reads, lists and prints entries as expected and its codes are distinct: a file of lines
  -- that libssh2 accepts, which hold no newline themselves, is loaded into an empty collection, with
  -- the mutex free. Saving the collection then to a file that opens writes the lines that libssh2
  -- stores for each line loaded, in their order and each with a newline; so a file whose lines are each
  -- stored as they are is written back exactly. The stored lines are short enough for a buffer below
  -- 2^64, and there is fuel for one round more than there are stored lines.
  pub load-save :
      (lines : List Text) (filename : Text) (fuel : ℕ) (w : World S)
      → w.locked ≡ false
      → view w.remote ≡ []
      → AllAccepted Accepts lines
      → AllLack lines
      → AllShort (all_stored stored lines)
      → length (all_stored stored lines) < fuel
      → ((do
        load_entries api owner api.masks.file_openssh (getlines (put_lines lines))
        save_to_file api fuel owner filename true)
          w).0
        ≡ returned (put_lines (all_stored stored lines))
  unfolding ◌>>=◌
  load-save lines filename fuel w l empty good lack short enough =
      let (w1, r) =
        load_entries-Loads api owner api.masks.file_openssh view Accepts stored reads lines w l
          (rw empty tt) good in
      let loaded : lines_of (view w1.remote) ≡ all_stored stored lines =
        r.loaded ∙ ap (λ hosts. lines_of hosts ++ all_stored stored lines) empty in
      let (w2, (saved, same, free)) =
        save_to_file-Saves api d owner view prints lists fuel filename w1 r.released r.distinct
          (AllShort-AllFit (view w1.remote) (rw loaded short))
          (omega (arith, length-lines_of (view w1.remote), ap length loaded)) in
      rw (getlines-put_lines lines lack, r.result, saved, loaded) refl
