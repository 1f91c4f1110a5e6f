-- ===== src/Tests/KnownHosts.antt =====
-- Known hosts: the theorems with the collection of the test server.
use ssh2_cpp.Base.{
  ◌≡◌, refl, arith, ◌+◌, pos, negsuc, none, some, List, [], ◌∷◌, ◌++◌, ◌⊎◌, length, Text, true,
  false,
}
use ssh2_cpp.Libssh2.{Libssh2, HasDistinctCodes}
use ssh2_cpp.Effect.{World, returned, thrown, plain, invalid_argument, ◌>>◌}
use ssh2_cpp.KnownHosts.Entry.{Hosts, key_part, comment_part, space}
use ssh2_cpp.KnownHosts.Entry.{find as find_byte}
use ssh2_cpp.KnownHosts.Entry.Parts.{Lacks, key_part-comment_part}
use ssh2_cpp.KnownHosts.Locked.{KnownHostsKeepLock, known_hosts-KnownHostsKeepLock}
use ssh2_cpp.KnownHosts.Collection.{SearchResult, find, update}
use ssh2_cpp.KnownHosts.Collection.Searching.{find_tells, says, told, matches}
use ssh2_cpp.KnownHosts.Collection.Adding.{update_unknown}
use ssh2_cpp.HostKey.{HostKey, algorithm}
use ssh2_cpp.KnownHosts.Entry.Line.{line_at, PrintsLines}
use ssh2_cpp.KnownHosts.Iterator.Walk.{ListsHosts}
use ssh2_cpp.KnownHosts.File.Loading.{ReadsLines, load-save}
use ssh2_cpp.Tests.Disk.{fresh_disk}
use ssh2_cpp.Tests.Numbers.{test_codes, test_codes-HasDistinctCodes}
use ssh2_cpp.KnownHosts.File.{load_entries, save_to_file, getlines, put_lines}
use ssh2_cpp.KnownHosts.Iterator.Walk.{next_address}
use ssh2_cpp.Tests.Hosts.{check_host, delete_host}
use ssh2_cpp.KnownHosts.File.Saving.{save_to_file-Saves}
use ssh2_cpp.Tests.Hosts.{HostList, stored, lines_of-add_lines, add_lines-IsDistinct, write_line}
use ssh2_cpp.Tests.Server.{Server, api}

abbrev owner : Hosts
owner = record {
  session = record { session_ptr = some 1; disconnection_message = none };
  hosts = some 3;
}

abbrev world : HostList → World Server
world hosts = record {
  remote = record { content = []; position = 0; hosts = hosts; disk = fresh_disk };
  locked = false;
  debug = true;
  calls = [];
}

-- A session whose last error is that a buffer was too small.
unfoldable hosts_api : Libssh2 Server
unfolding api
hosts_api = record api { session = record api.session { last_errno = λ p s. (negsuc 37, s) } }

abbrev view : Server → HostList
view s = s.hosts

hosts_api-HasDistinctCodes : HasDistinctCodes hosts_api.codes
unfolding hosts_api api
hosts_api-HasDistinctCodes = test_codes-HasDistinctCodes

write_line-small : (t : Text) → write_line 0 (some t) ≡ (negsuc 37, [], length t + 1)
write_line-small t = ground arith

write_line-large :
    (t : Text) → write_line (length t + 2) (some t) ≡ (pos 0, t ++ 10 ∷ 0 ∷ [], length t + 1)
write_line-large t = ground arith

hosts_api-PrintsLines : PrintsLines hosts_api owner hosts_api.masks.file_openssh view
unfolding hosts_api api test_codes
hosts_api-PrintsLines = record {
  error_code = λ e. cc;
  refused = λ p t s e. rw (e, write_line-small t) (refl, refl, refl);
  printed = λ p t s e. rw e (write_line-large t);
  writeline_keeps = λ p n s. refl;
  last_errno_keeps = λ s. refl;
}

hosts_api-ListsHosts : ListsHosts hosts_api owner view
unfolding hosts_api api
hosts_api-ListsHosts = record {
  first = λ s. refl;
  next = λ p t s e. refl;
  get_keeps = λ current s. refl;
}

hosts_api-ReadsLines :
    ReadsLines hosts_api owner hosts_api.masks.file_openssh view (λ l. Unit) stored
unfolding hosts_api api
hosts_api-ReadsLines = record {
  accepted = λ line s a. refl;
  added = λ line s a. lines_of-add_lines (stored line) s.hosts;
  stays_distinct = λ line s a. add_lines-IsDistinct (stored line) s.hosts;
}

-- `a,b AAAA` and `c` with a tab and `AAAA me`
abbrev two_lines : List Text
two_lines =
    (97 ∷ 44 ∷ 98 ∷ 32 ∷ 65 ∷ 65 ∷ 65 ∷ 65 ∷ [])
    ∷ (99 ∷ 9 ∷ 65 ∷ 65 ∷ 65 ∷ 65 ∷ 32 ∷ 109 ∷ 101 ∷ [])
    ∷ []

-- `b AAAA`, `a AAAA` and `c AAAA me`
abbrev three_lines : List Text
three_lines =
    (98 ∷ 32 ∷ 65 ∷ 65 ∷ 65 ∷ 65 ∷ [])
    ∷ (97 ∷ 32 ∷ 65 ∷ 65 ∷ 65 ∷ 65 ∷ [])
    ∷ (99 ∷ 32 ∷ 65 ∷ 65 ∷ 65 ∷ 65 ∷ 32 ∷ 109 ∷ 101 ∷ [])
    ∷ []

abbrev file_name : Text
file_name = 104 ∷ []

load-save_example :
    ((do
      load_entries hosts_api owner hosts_api.masks.file_openssh (getlines (put_lines two_lines))
      save_to_file hosts_api 4 owner file_name true)
      (world [])).0
    ≡ returned (put_lines three_lines)
unfolding hosts_api api stored
load-save_example =
    load-save hosts_api hosts_api-HasDistinctCodes owner view hosts_api-PrintsLines
      hosts_api-ListsHosts (λ l. Unit) stored hosts_api-ReadsLines two_lines file_name 4 (world [])
      refl refl (tt, (tt, tt)) (ground arith, ground arith)
      (omega arith, (omega arith, (omega arith, tt))) (omega arith)

save_to_file-Saves_example :
    (w' : World Server) × ((save_to_file hosts_api 3 owner file_name true
          (world ((1, 97 ∷ []) ∷ (2, 98 ∷ []) ∷ []))
        ≡ (returned (put_lines ((97 ∷ []) ∷ (98 ∷ []) ∷ [])), w'))
      × (w'.remote.hosts ≡ ((1, 97 ∷ []) ∷ (2, 98 ∷ []) ∷ []))
      × (w'.locked ≡ false))
unfolding hosts_api api line_at
save_to_file-Saves_example =
    save_to_file-Saves hosts_api hosts_api-HasDistinctCodes owner view hosts_api-PrintsLines
      hosts_api-ListsHosts 3 file_name (world ((1, 97 ∷ []) ∷ (2, 98 ∷ []) ∷ [])) refl
      ((refl, (refl, tt))) ((omega arith, (omega arith, tt))) (omega arith)

find_tells_example :
    (r : SearchResult) × ((find api owner
        (97 ∷ [])
        (65 ∷ [])
        false
        (world ((1, 97 ∷ 32 ∷ 65 ∷ []) ∷ []))).0
      ≡ returned r)
    × (says r ≡ told (matches 1))
unfolding api check_host
find_tells_example =
    find_tells api owner (λ e. cc, λ e. cc, λ e. cc) (97 ∷ []) (65 ∷ []) false (matches 1)
      (world ((1, 97 ∷ 32 ∷ 65 ∷ []) ∷ [])) refl refl

abbrev unknown_key : HostKey
unknown_key = record {
  key = 65 ∷ [];
  key_type = pos 0;
  algorithm_name = [];
  md5_hash = [];
  sha1_hash = [];
}

abbrev entry : SearchResult
entry = record {
  host = record { owner = some owner; pos = some 1 };
  end = record { owner = none; pos = none };
  is_match = false;
}

update_unknown_example :
    ((update api owner (97 ∷ []) unknown_key entry (world ((1, 97 ∷ []) ∷ []))).0
      ≡ thrown (plain (invalid_argument "Unrecognised key algorithm")))
    × ((update api owner (97 ∷ []) unknown_key entry (world ((1, 97 ∷ []) ∷ []))).1.remote
        ≡ record { content = []; position = 0; hosts = []; disk = fresh_disk })
unfolding api algorithm next_address delete_host
update_unknown_example =
    update_unknown api owner (97 ∷ []) unknown_key refl entry 1 none (world ((1, 97 ∷ []) ∷ []))
      refl refl refl refl

known_hosts-KnownHostsKeepLock_example : KnownHostsKeepLock api
known_hosts-KnownHostsKeepLock_example = known_hosts-KnownHostsKeepLock api

key_part-comment_part_example :
    Lacks space (key_part (65 ∷ 32 ∷ 109 ∷ []))
    × (((find_byte space (65 ∷ 32 ∷ 109 ∷ []) ≡ none)
          × (key_part (65 ∷ 32 ∷ 109 ∷ []) ≡ 65 ∷ 32 ∷ 109 ∷ [])
          × (comment_part (65 ∷ 32 ∷ 109 ∷ []) ≡ []))
        ⊎ (key_part (65 ∷ 32 ∷ 109 ∷ []) ++ space ∷ comment_part (65 ∷ 32 ∷ 109 ∷ [])
            ≡ 65 ∷ 32 ∷ 109 ∷ []))
key_part-comment_part_example = key_part-comment_part (65 ∷ 32 ∷ 109 ∷ []) (omega arith)
