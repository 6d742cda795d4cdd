-- ===== src/Rlp/Hex.antt =====
-- packages/rlp/src/index.ts: hexadecimal text. A character is its code.
pub mod Numbers
pub mod Parse
use tvmjs_monorepo.Prelude.{
  ℕ, zero, suc, ◌+◌, ◌-◌, ◌*◌, ◌/◌, ◌%◌, Bool, true, false, List, [], ◌∷◌, ◌++◌, ltb, leb, ◌==◌,
  ◌&&◌, ◌||◌, if◌then◌else◌, length, drop, Option, some, none, Result, ok, err, ◌>>=◌, ◌>>◌,
  throw_if,
}

-- The errors of this package, by their messages.
pub data RlpError : Type 0 where
  extra_zeros out_of_bounds invalid_byte_sequence unpadded_hex non_hex_character : RlpError
  negative_integer single_byte_prefixed no_bytes_for_length string_too_short list_too_short :
      RlpError
  total_length_too_large remainder_not_zero unsupported_type out_of_fuel : RlpError

-- A digit of `toString(16)`.
unfoldable pub hex_digit : ℕ → ℕ
hex_digit d = if ltb d 10 then 48 + d else 87 + d

-- `bytesToHex`
unfoldable pub bytes_to_hex : List ℕ → List ℕ
unfolding hex_digit
bytes_to_hex [] = []
bytes_to_hex (b ∷ bs) = hex_digit (b / 16) ∷ hex_digit (b % 16) ∷ bytes_to_hex bs

-- `asciiToBase16`
unfoldable pub ascii_to_base16 : ℕ → Option ℕ
ascii_to_base16 char =
    if leb 48 char && leb char 57
    then some (char - 48)
    else if leb 65 char && leb char 70
    then some (char - 55)
    else if leb 97 char && leb char 102
    then some (char - 87)
    else none

-- The byte of two characters.
unfoldable pub hex_pair : ℕ → ℕ → Option ℕ
unfolding ascii_to_base16
hex_pair c1 c2 = elim (ascii_to_base16 c1) [
  | none ↦ none
  | some n1 ↦ elim (ascii_to_base16 c2) [ none ↦ none | some n2 ↦ some (n1 * 16 + n2) ]
]

abbrev pub and_then : Option ℕ → Result RlpError (List ℕ) → Result RlpError (List ℕ)
and_then none tail = err non_hex_character
and_then (some b) tail = tail >>= λ bs. ok (b ∷ bs)

-- The loop of `hexToBytes`, two characters at a time.
unfoldable pub hex_pairs : List ℕ → Result RlpError (List ℕ)
unfolding hex_pair
hex_pairs [] = ok []
hex_pairs (c ∷ []) = err unpadded_hex
hex_pairs (c1 ∷ c2 ∷ rest) = and_then (hex_pair c1 c2) (hex_pairs rest)

-- `isHexString`: the text starts with 0x.
unfoldable pub is_hex_string : List ℕ → Bool
is_hex_string [] = false
is_hex_string (c ∷ []) = false
is_hex_string (c1 ∷ c2 ∷ rest) = c1 == 48 && c2 == 120

unfoldable pub strip_hex_prefix : List ℕ → List ℕ
unfolding is_hex_string
strip_hex_prefix text = if is_hex_string text then drop 2 text else text

-- `hexToBytes` removes the prefix itself.
unfoldable pub hex_to_bytes : List ℕ → Result RlpError (List ℕ)
unfolding hex_pairs strip_hex_prefix
hex_to_bytes text = do
  let hex = strip_hex_prefix text
  throw_if (length hex % 2 == 1) unpadded_hex
  hex_pairs hex

-- `padToEven`
unfoldable pub pad_to_even : List ℕ → List ℕ
pad_to_even text = if length text % 2 == 1 then 48 ∷ text else text

-- The digits of `toString(16)`, with fuel above their number.
unfoldable pub to_string_16 : ℕ → ℕ → List ℕ
unfolding hex_digit
to_string_16 zero n = []
to_string_16 (suc fuel) n =
    let rest = to_string_16 fuel (n / 16) in
    if ltb n 16 then hex_digit n ∷ [] else rest ++ hex_digit (n % 16) ∷ []

-- `numberToHex` of an integer that is not negative.
unfoldable pub number_to_hex : ℕ → List ℕ
unfolding to_string_16 pad_to_even
number_to_hex n = pad_to_even (to_string_16 (suc n) n)

-- `Number.parseInt(text, 16)` reads the digits at the start; none where there are none.
unfoldable pub parse_digits : ℕ → List ℕ → ℕ
unfolding ascii_to_base16
parse_digits acc [] = acc
parse_digits acc (c ∷ cs) =
    let later = λ (d : ℕ). parse_digits (acc * 16 + d) cs in
    elim (ascii_to_base16 c) [ some d ↦ later d | none ↦ acc ]

-- `parseHexByte`
unfoldable pub parse_hex_byte : List ℕ → Result RlpError ℕ
unfolding parse_digits
parse_hex_byte [] = err invalid_byte_sequence
parse_hex_byte (c ∷ cs) = elim (ascii_to_base16 c) [
  | none ↦ err invalid_byte_sequence
  | some d ↦ ok (parse_digits d cs)
]
