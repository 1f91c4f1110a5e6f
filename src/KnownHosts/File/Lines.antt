-- ===== src/KnownHosts/File/Lines.antt =====
-- The lines that are written to a known-hosts file, and the lines that are read from one.
use ssh2_cpp.Base.{◌≡◌, refl, ap, ◌∙◌, arith, List, [], ◌∷◌, ◌++◌, append_assoc, append-nil, Text}
use ssh2_cpp.KnownHosts.Entry.Parts.{Lacks}
use ssh2_cpp.KnownHosts.File.{newline, lines_behind, getlines, put_lines}

abbrev pub AllLack : List Text → Type 0
AllLack [] = Unit
AllLack (l ∷ ls) = Lacks newline l × AllLack ls

one_line :
    (line l rest : Text)
    → Lacks newline l
    → lines_behind line (l ++ newline ∷ rest) ≡ (line ++ l) ∷ lines_behind [] rest
unfolding lines_behind
one_line [] [] rest h = refl
one_line (x ∷ xs) [] rest h = rw append-nil refl
one_line [] (c ∷ l) rest h = ground (arith, one_line (c ∷ []) l rest h.1)
one_line (x ∷ xs) (c ∷ l) rest h =
    ground (arith, one_line (x ∷ xs ++ c ∷ []) l rest h.1, append_assoc (x ∷ xs) (c ∷ []) l)

-- Lines without a newline in them are read back from a file as they were written to it.
pub getlines-put_lines : (ls : List Text) → AllLack ls → getlines (put_lines ls) ≡ ls
unfolding getlines put_lines lines_behind
getlines-put_lines [] h = refl
getlines-put_lines (l ∷ ls) h =
    one_line [] l (put_lines ls) h.0 ∙ ap (λ r. l ∷ r) (getlines-put_lines ls h.1)
