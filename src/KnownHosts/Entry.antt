-- ===== src/KnownHosts/Entry.antt =====
-- `knownhost` of ssh/knownhost.hpp: an entry of a collection of known hosts. The strings of an entry are
-- read where libssh2 keeps them.
pub mod Parts
pub mod Line
use Prim.Native.Nat.{bit_and}
use ssh2_cpp.Base.{
  ℕ, zero, suc, ◌+◌, ◌-◌, ◌%◌, ◌^◌, min, ltb, ◌==◌, ℤ, Bool, true, false, not, Option, none, some,
  List, [], ◌∷◌, ◌++◌, take, drop, replicate, length, Text, Ptr, if◌then◌else◌,
}
use ssh2_cpp.Libssh2.{Libssh2, HostEntry, buffer_too_small}
use ssh2_cpp.Effect.{M, undefined_behaviour, fault, pure, peek, with_lock, assert, ◌>>=◌, ◌>>◌}
use ssh2_cpp.Error.{ErrorSlot, fresh_slot}
use ssh2_cpp.Error.Condition.{equals_errc, no_buffer_space}
use ssh2_cpp.State.{SessionState}
use ssh2_cpp.Wrapper.Knownhost

-- `m_session` and `m_hosts`, which a collection, its iterators and its entries share
pub record Hosts : Type 0 where
  pub session : SessionState
  pub hosts : Ptr

-- `knownhost`
pub record KnownHost : Type 0 where
  pub owner : Hosts
  pub pos : Ptr

-- `std::string::find` of a character; `none` is `npos`
unfoldable pub find : ℕ → Text → Option ℕ
find b [] = none
find b (c ∷ cs) =
    let rest = find b cs in
    if c == b then some 0 else elim rest [ none ↦ none | some i ↦ some (suc i) ]

abbrev pub space : ℕ
space = b' '

-- `std::string::npos`
abbrev pub npos : ℕ
npos = 2 ^ 64 - 1

key_before : Text → Option ℕ → Text
key_before k none = k
key_before k (some i) = take i k

-- `substr(i + 1)`, unless `i + 1` is `npos`
comment_behind : Text → Option ℕ → Text
comment_behind k none = []
comment_behind k (some i) = if i + 1 == npos then [] else drop (i + 1) k

-- The two parts of libssh2's key string.
unfoldable pub key_part : Text → Text
unfolding key_before
key_part k = key_before k (find space k)

unfoldable pub comment_part : Text → Text
unfolding comment_behind
comment_part k = comment_behind k (find space k)

-- an optional string of an entry; a missing one is empty
string_or_empty : Option Text → Text
string_or_empty none = []
string_or_empty (some t) = t

-- `key_algo()` by the masked type
pub data KeyAlgorithm : Type 0 where
  algo_rsa1 algo_ssh_rsa algo_ssh_dss algo_unknown : KeyAlgorithm

module _ {S : Type 0} (api : Libssh2 S) where
  -- `m_pos ? ... : std::string()`
  string_at : (HostEntry → Option Text) → Ptr → M S Text
  unfolding string_or_empty
  string_at field none = pure []
  string_at field (some p) = peek (λ s. string_or_empty (field (api.knownhost.entry p s)))

  unfoldable pub internal_key : Ptr → M S Text
  unfolding string_at
  internal_key position = string_at (λ e. e.key) position

  unfoldable pub name : KnownHost → M S Text
  unfolding string_at
  name host = string_at (λ e. e.name) host.pos

  unfoldable pub key : KnownHost → M S Text
  unfolding internal_key
  key host = do k ← internal_key host.pos; pure (key_part k)

  unfoldable pub comment : KnownHost → M S Text
  unfolding internal_key
  comment host = do k ← internal_key host.pos; pure (comment_part k)

  -- `m_pos->typemask`
  typemask_at : Ptr → M S ℕ
  typemask_at none = fault undefined_behaviour
  typemask_at (some p) = peek (λ s. (api.knownhost.entry p s).typemask)

  algorithm_of : ℕ → KeyAlgorithm
  algorithm_of masked =
      if masked == api.masks.key_rsa1
      then algo_rsa1
      else if masked == api.masks.key_sshrsa
      then algo_ssh_rsa
      else if masked == api.masks.key_sshdss
      then algo_ssh_dss
      else algo_unknown

  unfoldable pub key_algo : KnownHost → M S KeyAlgorithm
  unfolding typemask_at algorithm_of
  key_algo host = do
    typemask ← typemask_at host.pos
    pure (algorithm_of (bit_and typemask api.masks.key_mask))

  name_has_type : ℕ → KnownHost → M S Bool
  unfolding typemask_at
  name_has_type type host = do
    typemask ← typemask_at host.pos
    pure (bit_and typemask api.masks.type_mask == type)

  unfoldable pub is_name_plain : KnownHost → M S Bool
  unfolding name_has_type
  is_name_plain host = name_has_type api.masks.type_plain host

  unfoldable pub is_name_sha1 : KnownHost → M S Bool
  unfolding name_has_type
  is_name_sha1 host = name_has_type api.masks.type_sha1 host

  unfoldable pub is_name_custom : KnownHost → M S Bool
  unfolding name_has_type
  is_name_custom host = name_has_type api.masks.type_custom host

  -- `std::string(&buf[0], n)` of a buffer of `size` bytes, zero but for what was written to it
  unfoldable pub string_of_buffer : Text → ℕ → ℕ → M S Text
  string_of_buffer written size n =
      if ltb size n
      then fault undefined_behaviour
      else pure (take n (written ++ replicate (size - length written) 0))

  -- The buffer's size is one more than the length reported first; sizes wrap around at 2^64.
  unfoldable pub to_string : KnownHost → ℤ → M S Text
  unfolding string_of_buffer
  to_string host type = do
    ((_, reported), slot) ← with_lock (
        Knownhost.fetch_writeline api host.owner.session.session_ptr host.owner.hosts host.pos 0
          type (record fresh_slot { e_msg = none }))
    assert (equals_errc api.codes slot.ec no_buffer_space)
    let size = (reported + 1) % 2 ^ 64 in
        if size == 0 then fault undefined_behaviour else (do
          (buffer, required_len) ← with_lock (
              Knownhost.writeline api host.owner.session.session_ptr host.owner.hosts host.pos size
                type)
          assert (required_len == size - 1)
          string_of_buffer buffer size
              (min ((size + 2 ^ 64 - 2) % 2 ^ 64) ((required_len + 2 ^ 64 - 1) % 2 ^ 64)))
