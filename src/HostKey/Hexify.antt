-- ===== src/HostKey/Hexify.antt =====
-- `hexify` of ssh/host_key.hpp.
pub mod RoundTrip
use ssh2_cpp.Base.{
  ◌-◌, ℕ, ◌+◌, ◌/◌, ◌%◌, ltb, Bool, true, false, List, [], ◌∷◌, ◌++◌, Text, if◌then◌else◌,
}

-- A digit of `std::hex`, in the case that the stream is set to.
unfoldable pub hex_digit : Bool → ℕ → ℕ
hex_digit uppercase n =
    if ltb n 10 then b'0' + n else if uppercase then b'A' + n - 10 else b'a' + n - 10

-- `hex_hash << i` for the value of an `unsigned char`
unfoldable pub print_hex : Bool → ℕ → Text
unfolding hex_digit
print_hex uppercase i =
    if ltb i 16
    then hex_digit uppercase i ∷ []
    else hex_digit uppercase (i / 16) ∷ hex_digit uppercase (i % 16) ∷ []

-- `std::setw(2)` with the fill character '0'
unfoldable pub set_width_2 : Text → Text
set_width_2 [] = b'0' ∷ b'0' ∷ []
set_width_2 (c ∷ []) = b'0' ∷ c ∷ []
set_width_2 (c ∷ d ∷ cs) = c ∷ d ∷ cs

-- `if (!hex_hash.str().empty()) hex_hash << nibble_sep;`
unfoldable pub separated : Text → Text → Text
separated nibble_sep [] = []
separated nibble_sep (c ∷ cs) = c ∷ cs ++ nibble_sep

unfoldable pub hexify_loop : Text → Bool → Text → Text → Text
unfolding separated print_hex set_width_2
hexify_loop nibble_sep uppercase hex_hash [] = hex_hash
hexify_loop nibble_sep uppercase hex_hash (b ∷ bytes) =
    hexify_loop nibble_sep uppercase
      (separated nibble_sep hex_hash ++ set_width_2 (print_hex uppercase b)) bytes

unfoldable pub hexify : Text → Text → Bool → Text
unfolding hexify_loop
hexify bytes nibble_sep uppercase = hexify_loop nibble_sep uppercase [] bytes
