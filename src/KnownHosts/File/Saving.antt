-- ===== src/KnownHosts/File/Saving.antt =====
-- Saving the known hosts of ssh/knownhost.hpp: an iterator's walk that prints each entry.
use ssh2_cpp.Base.{
  true, ◌≡◌, refl, sym, ap, ◌∙◌, arith, ℕ, zero, suc, ◌+◌, ◌<◌, ◌^◌, ℤ, false, none, some, List, [],
  ◌∷◌, ◌++◌, append-nil, append_assoc, length, Text,
}
use ssh2_cpp.Libssh2.{Libssh2, HasDistinctCodes}
use ssh2_cpp.Effect.{World, returned, pure, ◌>>=◌}
use ssh2_cpp.KnownHosts.Entry.{Hosts}
use ssh2_cpp.KnownHosts.Entry.Line.{line_at, PrintsLines, Prints, to_string-Prints}
use ssh2_cpp.KnownHosts.Iterator.{begin, KnownHostIterator, end, equal, increment, dereference}
use ssh2_cpp.KnownHosts.Iterator.Walk.{
  next_address, answer, ListsHosts, IsDistinct, entry_behind, moved_world, next_host_lem,
}
use ssh2_cpp.KnownHosts.File.{put_lines, save, save_to_file, save_entries}

abbrev pub lines_of : List (ℕ × Text) → List Text
lines_of [] = []
lines_of ((p, t) ∷ hosts) = t ∷ lines_of hosts

-- A buffer for each line has a size below 2^64.
abbrev pub AllFit : List (ℕ × Text) → Type 0
AllFit [] = Unit
AllFit ((p, t) ∷ hosts) = (length t + 2 < 2 ^ 64) × AllFit hosts

module _ {S : Type 0} (api : Libssh2 S) (d : HasDistinctCodes api.codes) (owner : Hosts) (type : ℤ)
    (view : S → List (ℕ × Text)) (prints : PrintsLines api owner type view)
    (lists : ListsHosts api owner view) where
  -- An iterator at the first of `rest`, or at the end.
  abbrev pub at : List (ℕ × Text) → KnownHostIterator
  at rest = record { owner = some owner; pos = next_address none rest }

  -- The lines of `rest` are put behind those that are there already.
  pub record Saves (fuel : ℕ) (rest : List (ℕ × Text)) (output : List Text) (w w' : World S)
      : Type 0 where
    pub result :
        save_entries api fuel type (at rest) end output w ≡ (returned (output ++ lines_of rest), w')
    pub same : view w'.remote ≡ view w.remote
    pub released : w'.locked ≡ false

  save_none :
      (fuel : ℕ) (output : List Text) (w : World S)
      → save_entries api (suc fuel) type (at []) end output w ≡ (returned (output ++ []), w)
  unfolding save_entries equal next_address pure
  save_none fuel output w = rw append-nil refl

  save_one :
      (fuel : ℕ) (p : ℕ) (t : Text) (rest : List (ℕ × Text)) (output : List Text) (w w' : World S)
      → Prints api d owner type view prints p t w w'
      → w'.locked ≡ false
      → (api.knownhost.get owner.hosts none (some p) w'.remote).0 ≡ answer (next_address none rest)
      → save_entries api (suc fuel) type (at ((p, t) ∷ rest)) end output w
        ≡ save_entries api fuel type
            (at rest)
            end
            (output ++ t ∷ [])
            (moved_world api owner (some p) w')
  unfolding save_entries equal next_address dereference increment ◌>>=◌ pure
  save_one fuel p t rest output w w' printed l e =
      rw (printed.result, next_host_lem api owner (some p) (next_address none rest) w' l e) refl

  pub save_entries-Saves :
      (rest before : List (ℕ × Text)) (fuel : ℕ) (output : List Text) (w : World S)
      → w.locked ≡ false
      → view w.remote ≡ before ++ rest
      → IsDistinct (before ++ rest)
      → AllFit rest
      → length rest < fuel
      → (w' : World S) × Saves fuel rest output w w'
  save_entries-Saves [] before zero output w l v distinct fit enough = absurd (omega arith)
  save_entries-Saves [] before (suc fuel) output w l v distinct fit enough =
      (w, record { result = save_none fuel output w; same = refl; released = l })
  save_entries-Saves ((p, t) ∷ rest) before zero output w l v distinct fit enough =
      absurd (omega arith)
  save_entries-Saves ((p, t) ∷ rest) before (suc fuel) output w l v distinct fit enough =
      let (found, following) = entry_behind p t before rest distinct in
      let (w1, printed) =
        to_string-Prints api d owner type view prints p t w l (ap (line_at p) v ∙ found) fit.0 in
      let v1 : view w1.remote ≡ before ++ (p, t) ∷ rest = printed.same ∙ v in
      let step =
        lists.next p t w1.remote (ap (line_at p) v1 ∙ found)
        ∙ ap (λ hosts. answer (next_address (some p) hosts)) v1
        ∙ ap answer following in
      let w2 = moved_world api owner (some p) w1 in
      let v2 : view w2.remote ≡ view w1.remote = lists.get_keeps (some p) w1.remote in
      let (w', s) =
        save_entries-Saves rest (before ++ (p, t) ∷ []) fuel (output ++ t ∷ []) w2 refl
          (v2 ∙ v1 ∙ sym (append_assoc before ((p, t) ∷ []) rest))
          (rw (append_assoc before ((p, t) ∷ []) rest) distinct) fit.1 (omega arith) in
      (
        w',
        record {
          result =
              save_one fuel p t rest output w w1 printed printed.released step
              ∙ s.result
              ∙ ap (λ ls. (returned ls, w')) (append_assoc output (t ∷ []) (lines_of rest));
          same = s.same ∙ v2 ∙ printed.same;
          released = s.released;
        },
      )

module _ {S : Type 0} (api : Libssh2 S) (d : HasDistinctCodes api.codes) (owner : Hosts)
    (view : S → List (ℕ × Text)) (prints : PrintsLines api owner api.masks.file_openssh view)
    (lists : ListsHosts api owner view) where
  -- If libssh2 lists and prints the entries of a collection as documented, its codes are distinct, the
  -- entries have distinct addresses and lines for which a buffer has a size below 2^64, the mutex is
  -- free, and there is fuel for one round more than there are entries: saving the collection to a file
  -- that opens writes the line of each entry in the collection's order, each with a newline, keeps the
  -- collection and leaves the mutex free.
  pub save_to_file-Saves :
      (fuel : ℕ) (filename : Text) (w : World S)
      → w.locked ≡ false
      → IsDistinct (view w.remote)
      → AllFit (view w.remote)
      → length (view w.remote) < fuel
      → (w' : World S) × ((save_to_file api fuel owner filename true w
            ≡ (returned (put_lines (lines_of (view w.remote))), w'))
          × (view w'.remote ≡ view w.remote)
          × (w'.locked ≡ false))
  unfolding save_to_file save begin ◌>>=◌ pure
  save_to_file-Saves fuel filename w l distinct fit enough =
      let w1 = moved_world api owner none w in
      let v1 : view w1.remote ≡ view w.remote = lists.get_keeps none w.remote in
      let (w', s) =
        save_entries-Saves api d owner api.masks.file_openssh view prints lists (view w.remote) []
          fuel [] w1 refl v1 distinct fit enough in
      (
        w',
        (
          rw
              (
                next_host_lem api owner none (next_address none (view w.remote)) w l
                    (lists.first w.remote),
                s.result,
              )
              refl,
          s.same ∙ v1,
          s.released,
        ),
      )
