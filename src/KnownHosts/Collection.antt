-- ===== src/KnownHosts/Collection.antt =====
-- `knownhost_collection` of ssh/knownhost.hpp, with the conversion of key types and the result of a
-- search. A collection is a `Hosts`.
pub mod Searching
pub mod Adding
use Prim.Native.Nat.{bit_or}
use ssh2_cpp.Base.{
  ℕ, ℤ, pos, eqb_ℤ, Bool, true, false, not, ◌&&◌, Option, none, some, List, [], ◌∷◌, Text, Ptr,
  if◌then◌else◌,
}
use ssh2_cpp.Libssh2.{Libssh2}
use ssh2_cpp.Effect.{
  M, catch, plain, logic_error, invalid_argument, pure, throw, with_lock, assert, ◌>>=◌, ◌>>◌,
}
use ssh2_cpp.State.{unconnected_session, destroy_session}
use ssh2_cpp.Wrapper.Knownhost
use ssh2_cpp.HostKey.{HostKey, HostkeyType, unknown, rsa1, ssh_rsa, ssh_dss, algorithm, is_base64}
use ssh2_cpp.KnownHosts.Entry.{Hosts, KnownHost}
use ssh2_cpp.KnownHosts.Iterator.{KnownHostIterator, end, equal, erase}

-- `knownhost_search_result`
pub record SearchResult : Type 0 where
  pub host : KnownHostIterator
  pub end : KnownHostIterator
  pub is_match : Bool

unfoldable pub mismatch : SearchResult → Bool
mismatch r = not r.is_match && not (equal r.host r.end)

unfoldable pub match : SearchResult → Bool
match r = r.is_match && not (equal r.host r.end)

unfoldable pub not_found : SearchResult → Bool
not_found r = equal r.host r.end

module _ {S : Type 0} (api : Libssh2 S) where
  -- the constructor of `knownhost_search_result`
  unfoldable pub search_result : KnownHostIterator → KnownHostIterator → Bool → M S SearchResult
  search_result host last is_match = do
    assert (not (is_match && equal host last))
    pure (record { host = host; end = last; is_match = is_match })

  unfoldable pub hostkey_type_to_add_type : HostkeyType → M S ℕ
  hostkey_type_to_add_type rsa1 = pure api.masks.key_rsa1
  hostkey_type_to_add_type ssh_rsa = pure api.masks.key_sshrsa
  hostkey_type_to_add_type ssh_dss = pure api.masks.key_sshdss
  hostkey_type_to_add_type unknown = throw (plain (invalid_argument "Unrecognised key algorithm"))

  -- `type | LIBSSH2_KNOWNHOST_KEYENC_...`
  with_encoding : Bool → ℕ → ℕ
  with_encoding base64_key type =
      bit_or type (if base64_key then api.masks.keyenc_base64 else api.masks.keyenc_raw)

  -- `(salt.empty()) ? NULL : salt.c_str()`
  salt_pointer : Text → Option Text
  salt_pointer [] = none
  salt_pointer (c ∷ cs) = some (c ∷ cs)

  -- `knownhost_collection()`; if there is no collection its session is destroyed again
  unfoldable pub knownhost_collection : M S Hosts
  knownhost_collection = do
    session ← unconnected_session api
    hosts ←
        catch (with_lock (Knownhost.init api session.session_ptr))
          λ e. do destroy_session api session; throw e
    pure (record { session = session; hosts = hosts })

  -- the `switch` on the result of a check
  unfoldable pub result_of_check : Hosts → ℤ → Ptr → M S SearchResult
  unfolding search_result
  result_of_check owner rc found =
      let at : KnownHostIterator = record { owner = some owner; pos = found } in
      if eqb_ℤ rc api.checks.match
      then search_result at end true
      else if eqb_ℤ rc api.checks.mismatch
      then search_result at end false
      else if eqb_ℤ rc api.checks.notfound
      then search_result end end false
      else (do assert false; throw (plain (logic_error "Unexpected return code")))

  unfoldable pub find : Hosts → Text → Text → Bool → M S SearchResult
  unfolding with_encoding result_of_check
  find owner host key base64_key = do
    (rc, found) ← with_lock (
        Knownhost.check api owner.session.session_ptr owner.hosts host key
          (pos (with_encoding base64_key api.masks.type_plain)) none)
    result_of_check owner rc found

  -- `detail::add`
  unfoldable pub add_entry : Hosts → Text → Text → Text → ℕ → Bool → M S Ptr
  unfolding with_encoding salt_pointer
  add_entry owner host_or_ip salt key type base64_key = with_lock (
      Knownhost.add api owner.session.session_ptr owner.hosts host_or_ip (salt_pointer salt) key
        (pos (with_encoding base64_key type)) none)

  -- what `add`, `add_hashed` and `add_custom` have in common
  unfoldable pub add_typed : ℕ → Hosts → Text → Text → Text → HostkeyType → Bool → M S KnownHost
  unfolding add_entry hostkey_type_to_add_type
  add_typed name_type owner host_or_ip salt key algorithm base64_key = do
    key_type ← hostkey_type_to_add_type algorithm
    host ← add_entry owner host_or_ip salt key (bit_or name_type key_type) base64_key
    pure (record { owner = owner; pos = host })

  unfoldable pub add : Hosts → Text → Text → HostkeyType → Bool → M S KnownHost
  unfolding add_typed
  add owner host_or_ip key algorithm base64_key =
      add_typed api.masks.type_plain owner host_or_ip [] key algorithm base64_key

  unfoldable pub add_hashed : Hosts → Text → Text → Text → HostkeyType → Bool → M S KnownHost
  unfolding add_typed
  add_hashed owner host_or_ip salt key algorithm base64_key =
      add_typed api.masks.type_sha1 owner host_or_ip salt key algorithm base64_key

  unfoldable pub add_custom : Hosts → Text → Text → HostkeyType → Bool → M S KnownHost
  unfolding add_typed
  add_custom owner host_or_ip key algorithm base64_key =
      add_typed api.masks.type_custom owner host_or_ip [] key algorithm base64_key

  -- the overloads for a host key
  unfoldable pub find_key : Hosts → Text → HostKey → M S SearchResult
  find_key owner host k = find owner host k.key is_base64

  unfoldable pub add_key : Hosts → Text → HostKey → M S KnownHost
  add_key owner host_or_ip k = add owner host_or_ip k.key (algorithm api k) is_base64

  unfoldable pub add_hashed_key : Hosts → Text → Text → HostKey → M S KnownHost
  add_hashed_key owner host_or_ip salt k =
      add_hashed owner host_or_ip salt k.key (algorithm api k) is_base64

  unfoldable pub add_custom_key : Hosts → Text → HostKey → M S KnownHost
  add_custom_key owner host_or_ip k = add_custom owner host_or_ip k.key (algorithm api k) is_base64

  unfoldable pub update : Hosts → Text → HostKey → SearchResult → M S KnownHost
  update owner host_or_ip k entry = do erase api entry.host; add_key owner host_or_ip k
