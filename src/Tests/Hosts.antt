-- ===== src/Tests/Hosts.antt =====
-- A collection of known hosts: a list of addresses and lines in the format of OpenSSH.
use ssh2_cpp.Base.{
  append_assoc, ◌∙◌, append-nil, sym, ap, ◌≢◌, ◌≡◌, refl, arith, ℕ, suc, ◌+◌, ◌<◌, ltb, ◌==◌, ◌&&◌,
  Bool, true, false, ℤ, pos, negsuc, none, some, Option, List, [], ◌∷◌, ◌++◌, length, Text, Ptr,
  if◌then◌else◌,
}
use ssh2_cpp.KnownHosts.Entry.Line.{line_at}
use ssh2_cpp.KnownHosts.File.Saving.{lines_of}
use ssh2_cpp.KnownHosts.Iterator.Walk.{IsDistinct}

abbrev pub HostList : Type 0
HostList = List (ℕ × Text)

unfoldable pub largest : HostList → ℕ
largest [] = 0
largest ((p, t) ∷ hosts) = let rest = largest hosts in if ltb rest p then p else rest

above_largest : (p : ℕ) (hosts : HostList) → largest hosts < p → line_at p hosts ≡ none
unfolding largest line_at
above_largest p [] h = refl
above_largest p ((q, t) ∷ hosts) h = ground (arith, above_largest p hosts)

abbrev pub fresh_address : HostList → ℕ
fresh_address hosts = suc (largest hosts)

fresh_address-unused : (hosts : HostList) → line_at (fresh_address hosts) hosts ≡ none
fresh_address-unused hosts = above_largest (fresh_address hosts) hosts (omega arith)

line_at-append_none :
    (p q : ℕ) (t : Text) (hosts : HostList)
    → line_at p hosts ≡ none
    → p ≢ q
    → line_at p (hosts ++ (q, t) ∷ []) ≡ none
unfolding line_at
line_at-append_none p q t [] h n = ground arith
line_at-append_none p q t ((r, u) ∷ hosts) h n = ground (arith, line_at-append_none p q t hosts)

append-IsDistinct :
    (q : ℕ) (t : Text) (hosts : HostList)
    → IsDistinct hosts
    → line_at q hosts ≡ none
    → IsDistinct (hosts ++ (q, t) ∷ [])
unfolding line_at
append-IsDistinct q t [] d h = (refl, tt)
append-IsDistinct q t ((p, u) ∷ hosts) d h =
    ground (arith, append-IsDistinct q t hosts d.1, line_at-append_none p q t hosts d.0)

lines_of-append :
    (q : ℕ) (t : Text) (hosts : HostList)
    → lines_of (hosts ++ (q, t) ∷ []) ≡ lines_of hosts ++ t ∷ []
lines_of-append q t [] = refl
lines_of-append q t ((p, u) ∷ hosts) = ap (λ ls. u ∷ ls) (lines_of-append q t hosts)

unfoldable pub before : ℕ → List Text → List Text
before c [] = []
before c (host ∷ hosts) = (c ∷ host) ∷ hosts

-- the hosts of a line, which are separated by commas, and what is behind them
unfoldable pub split_hosts : Text → List Text × Text
unfolding before
split_hosts [] = ([] ∷ [], [])
split_hosts (c ∷ t) =
    let (hosts, rest) = split_hosts t in
    if c == 32
    then ([] ∷ [], c ∷ t)
    else if c == 44
    then ([] ∷ hosts, rest)
    else (before c hosts, rest)

-- one line for each host, the last host first
unfoldable pub host_lines : List Text → Text → List Text
host_lines [] rest = []
host_lines (host ∷ hosts) rest = host_lines hosts rest ++ (host ++ rest) ∷ []

-- a tab is stored as a space
unfoldable pub spaced : Text → Text
spaced [] = []
spaced (c ∷ t) = (if c == 9 then 32 else c) ∷ spaced t

unfoldable pub stored : Text → List Text
unfolding split_hosts host_lines spaced
stored line = let (hosts, rest) = split_hosts (spaced line) in host_lines hosts rest

unfoldable pub add_lines : List Text → HostList → HostList
add_lines [] hosts = hosts
add_lines (t ∷ ts) hosts = add_lines ts (hosts ++ (fresh_address hosts, t) ∷ [])

pub lines_of-add_lines :
    (ts : List Text) (hosts : HostList) → lines_of (add_lines ts hosts) ≡ lines_of hosts ++ ts
unfolding add_lines
lines_of-add_lines [] hosts = sym (append-nil _)
lines_of-add_lines (t ∷ ts) hosts =
    lines_of-add_lines ts (hosts ++ (fresh_address hosts, t) ∷ [])
    ∙ ap (λ ls. ls ++ ts) (lines_of-append (fresh_address hosts) t hosts)
    ∙ append_assoc (lines_of hosts) (t ∷ []) ts

pub add_lines-IsDistinct :
    (ts : List Text) (hosts : HostList) → IsDistinct hosts → IsDistinct (add_lines ts hosts)
unfolding add_lines
add_lines-IsDistinct [] hosts d = d
add_lines-IsDistinct (t ∷ ts) hosts d =
    add_lines-IsDistinct ts (hosts ++ (fresh_address hosts, t) ∷ [])
      (append-IsDistinct (fresh_address hosts) t hosts d (fresh_address-unused hosts))

-- what is written for a line into a buffer of `n` bytes
abbrev pub write_line : ℕ → Option Text → ℤ × Text × ℕ
write_line n none = (negsuc 33, [], 0)
write_line n (some t) =
    if ltb n (length t + 2)
    then (negsuc 37, [], length t + 1)
    else (pos 0, t ++ 10 ∷ 0 ∷ [], length t + 1)

abbrev pub write_host : Ptr → ℕ → HostList → ℤ × Text × ℕ
write_host none n hosts = (negsuc 33, [], 0)
write_host (some p) n hosts = write_line n (line_at p hosts)

unfoldable pub delete_host : Ptr → HostList → HostList
delete_host none hosts = hosts
delete_host (some p) [] = []
delete_host (some p) ((q, t) ∷ hosts) =
    let rest = delete_host (some p) hosts in if p == q then rest else (q, t) ∷ rest

unfoldable pub same_text : Text → Text → Bool
same_text [] [] = true
same_text (x ∷ xs) (y ∷ ys) = x == y && same_text xs ys
same_text _ _ = false

-- an entry matches if it is the host, a space and the key
unfoldable pub check_host : Text → HostList → ℤ × Ptr
unfolding same_text
check_host wanted [] = (pos 2, none)
check_host wanted ((p, t) ∷ hosts) =
    let rest = check_host wanted hosts in if same_text wanted t then (pos 0, some p) else rest
