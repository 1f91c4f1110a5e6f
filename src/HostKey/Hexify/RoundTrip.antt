-- ===== src/HostKey/Hexify/RoundTrip.antt =====
-- Reading back what `hexify` of ssh/host_key.hpp prints.
use ssh2_cpp.Base.{
  ◌%◌, ◌/◌, ◌≡◌, refl, sym, ap, ◌∙◌, arith, ℕ, zero, suc, ◌+◌, ◌-◌, ◌*◌, ◌<◌, ltb, Bool, [], ◌∷◌,
  ◌++◌, append_assoc, append-nil, drop, drop-append, length, Text, if◌then◌else◌,
}
use ssh2_cpp.HostKey.Hexify.{hex_digit, print_hex, set_width_2, separated, hexify_loop, hexify}

-- The values of bytes.
abbrev pub AllBytes : Text → Type 0
AllBytes [] = Unit
AllBytes (b ∷ bs) = (b < 256) × AllBytes bs

-- The value of a digit in either case.
unfoldable pub digit_value : ℕ → ℕ
digit_value c = if ltb c 58 then c - 48 else if ltb c 97 then c - 55 else c - 87

-- The values of `n` pairs of digits, with `sep` characters between two pairs.
unfoldable pub parse_hex : ℕ → ℕ → Text → Text
parse_hex sep zero t = []
parse_hex sep (suc n) [] = []
parse_hex sep (suc n) (c ∷ []) = []
parse_hex sep (suc n) (c ∷ d ∷ rest) =
    (16 * digit_value c + digit_value d) ∷ parse_hex sep n (drop sep rest)

digit_value-hex_digit : (u : Bool) (n : ℕ) → n < 16 → digit_value (hex_digit u n) ≡ n
unfolding digit_value hex_digit
digit_value-hex_digit u n h = ground arith

abbrev pair : Bool → ℕ → Text
pair u b = hex_digit u (b / 16) ∷ hex_digit u (b % 16) ∷ []

set_width_2-print_hex : (u : Bool) (b : ℕ) → b < 256 → set_width_2 (print_hex u b) ≡ pair u b
unfolding set_width_2 print_hex hex_digit
set_width_2-print_hex u b h = ground arith

-- What follows the first byte.
abbrev tail_text : Text → Bool → Text → Text
tail_text sep u [] = []
tail_text sep u (b ∷ bs) = sep ++ (pair u b ++ tail_text sep u bs)

loop_tail :
    (sep : Text) (u : Bool) (c : ℕ) (cs bs : Text)
    → AllBytes bs
    → hexify_loop sep u (c ∷ cs) bs ≡ c ∷ cs ++ tail_text sep u bs
unfolding hexify_loop separated
loop_tail sep u c cs [] h = ap (λ t. c ∷ t) (sym (append-nil cs))
loop_tail sep u c cs (b ∷ bs) h = rw (set_width_2-print_hex u b h.0) (
    loop_tail sep u c ((cs ++ sep) ++ pair u b) bs h.1
    ∙ ap (λ t. c ∷ t) (append_assoc (cs ++ sep) (pair u b) _ ∙ append_assoc cs sep _))

parse_pair :
    (sep : ℕ) (u : Bool) (b n : ℕ) (rest : Text)
    → b < 256
    → parse_hex sep (suc n) (pair u b ++ rest) ≡ b ∷ parse_hex sep n (drop sep rest)
unfolding parse_hex
parse_pair sep u b n rest h =
    rw
      (
        digit_value-hex_digit u (b / 16) (omega arith),
        digit_value-hex_digit u (b % 16) (omega arith),
      )
      (ap (λ v. v ∷ parse_hex sep n (drop sep rest)) (omega arith))

parse_tail :
    (sep : Text) (u : Bool) (bs : Text)
    → AllBytes bs
    → parse_hex (length sep) (length bs) (drop (length sep) (tail_text sep u bs)) ≡ bs
unfolding parse_hex
parse_tail sep u [] h = refl
parse_tail sep u (b ∷ bs) h =
    rw (drop-append sep (pair u b ++ tail_text sep u bs) (length sep) refl) (
      parse_pair (length sep) u b (length bs) (tail_text sep u bs) h.0
      ∙ ap (λ r. b ∷ r) (parse_tail sep u bs h.1))

-- The bytes can be read back from the printed string, whatever the separator and the case: as many
-- pairs of digits as there are bytes, with as many characters between as the separator has.
pub parse_hex-hexify :
    (bytes sep : Text) (u : Bool)
    → AllBytes bytes
    → parse_hex (length sep) (length bytes) (hexify bytes sep u) ≡ bytes
unfolding hexify hexify_loop separated parse_hex
parse_hex-hexify [] sep u h = refl
parse_hex-hexify (b ∷ bs) sep u h =
    rw (set_width_2-print_hex u b h.0, loop_tail sep u _ (hex_digit u (b % 16) ∷ []) bs h.1)
      (parse_pair (length sep) u b (length bs) (tail_text sep u bs) h.0
        ∙ ap (λ r. b ∷ r) (parse_tail sep u bs h.1))
