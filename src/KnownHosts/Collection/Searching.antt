-- ===== src/KnownHosts/Collection/Searching.antt =====
-- What the result of a search of ssh/knownhost.hpp says.
use ssh2_cpp.Base.{
  if◌then◌else◌, eqb_ℤ, eqb_ℤ_iff, arith, ◌≢◌, ◌≡◌, ◌≢◌, refl, arith, ℕ, ℤ, pos, eqb_ℤ, eqb_ℤ_iff,
  Bool, true, false, none, some, Text, Ptr,
}
use Prim.Native.Nat.{bit_or}
use ssh2_cpp.Libssh2.{Libssh2}
use ssh2_cpp.Effect.{World, returned, pure, call, with_lock, ◌>>=◌}
use ssh2_cpp.Effect.Laws.{assert-true}
use ssh2_cpp.Error.{throw_if_error}
use ssh2_cpp.Wrapper.Knownhost
use ssh2_cpp.KnownHosts.Entry.{Hosts}
use ssh2_cpp.KnownHosts.Iterator.{end, equal}
use ssh2_cpp.KnownHosts.Collection.{
  SearchResult, search_result, result_of_check, find, match, mismatch, not_found,
}

-- What a check of a host and its key comes to, with the address of the entry of that host.
pub data Verdict : Type 0 where
  matches mismatches : ℕ → Verdict
  missing : Verdict

module _ {S : Type 0} (api : Libssh2 S) where
  -- What libssh2 answers for each.
  abbrev pub check_answer : Verdict → ℤ × Ptr
  check_answer (matches p) = (api.checks.match, some p)
  check_answer (mismatches p) = (api.checks.mismatch, some p)
  check_answer missing = (api.checks.notfound, none)

  abbrev pub HasDistinctChecks : Type 0
  HasDistinctChecks =
      (api.checks.match ≢ api.checks.mismatch)
      × (api.checks.match ≢ api.checks.notfound)
      × (api.checks.mismatch ≢ api.checks.notfound)

-- What the result of a search says of itself.
abbrev pub says : SearchResult → Bool × Bool × Bool × Ptr
says r = (match r, mismatch r, not_found r, r.host.pos)

abbrev pub told : Verdict → Bool × Bool × Bool × Ptr
told (matches p) = (true, false, false, some p)
told (mismatches p) = (false, true, false, some p)
told missing = (false, false, true, none)

eqb_self : (a : ℤ) → eqb_ℤ a a ≡ true
eqb_self a = (eqb_ℤ_iff a a).1 refl

eqb_other : {a b : ℤ} → a ≢ b → eqb_ℤ b a ≡ false
eqb_other {a} {b} n = ground (arith, eqb_ℤ_iff b a, n)

module _ {S : Type 0} (api : Libssh2 S) (owner : Hosts) where
  -- the type that a search asks for
  abbrev pub search_type : Bool → ℤ
  search_type base64_key = pos (
      bit_or api.masks.type_plain
        (if base64_key then api.masks.keyenc_base64 else api.masks.keyenc_raw))

  abbrev result_for : Verdict → SearchResult
  result_for (matches p) = record {
    host = record { owner = some owner; pos = some p };
    end = end;
    is_match = true;
  }
  result_for (mismatches p) = record {
    host = record { owner = some owner; pos = some p };
    end = end;
    is_match = false;
  }
  result_for missing = record { host = end; end = end; is_match = false }

  result_of_check_lem :
      HasDistinctChecks api
      → (v : Verdict) (w : World S)
      → (result_of_check api owner (check_answer api v).0 (check_answer api v).1 w).0
        ≡ returned (result_for v)
  unfolding result_of_check search_result ◌>>=◌ pure equal
  result_of_check_lem (d1, d2, d3) (matches p) w = rw (eqb_self, assert-true) refl
  result_of_check_lem (d1, d2, d3) (mismatches p) w = rw (eqb_other d1, eqb_self, assert-true) refl
  result_of_check_lem (d1, d2, d3) missing w =
      rw (eqb_other d2, eqb_other d3, eqb_self, assert-true) refl

  -- If the three codes of a check differ, the mutex is free and libssh2 answers the check with one of
  -- them: the search returns a result of which exactly one of `match`, `mismatch` and `not_found` is
  -- true, the one of the answer, and which points at the entry that was found.
  pub find_tells :
      HasDistinctChecks api
      → (host key : Text) (base64_key : Bool) (v : Verdict) (w : World S) → w.locked ≡ false
      → (api.knownhost.check owner.hosts host key (search_type base64_key) none w.remote).0
        ≡ check_answer api v
      → (r : SearchResult) × ((find api owner host key base64_key w).0 ≡ returned r)
        × (says r ≡ told v)
  unfolding find with_lock ◌>>=◌ call pure Knownhost.check throw_if_error match mismatch not_found
      equal
  find_tells (d1, d2, d3) host key base64_key (matches p) w l e = (
    result_for (matches p),
    rw (l, e, eqb_self) (result_of_check_lem (d1, d2, d3) (matches p) _),
    refl,
  )
  find_tells (d1, d2, d3) host key base64_key (mismatches p) w l e = (
    result_for (mismatches p),
    rw (l, e, eqb_other d1, eqb_self) (result_of_check_lem (d1, d2, d3) (mismatches p) _),
    refl,
  )
  find_tells (d1, d2, d3) host key base64_key missing w l e = (
    result_for missing,
    rw (l, e, eqb_other d2, eqb_other d3, eqb_self) (result_of_check_lem (d1, d2, d3) missing _),
    refl,
  )
