-- ===== src/Rlp/Decode.antt =====
-- packages/rlp/src/index.ts: `_decode` and `decode`. A length of 2 ^ 53 or more, which `parseInt` rounds,
-- is beyond the end of every input and fails, rounded or not.
pub mod Lengths
pub mod Forward
pub mod Written
pub mod Backward
pub mod Slices
pub mod Ends
use tvmjs_monorepo.Prelude.{
  ℕ, zero, suc, ◌+◌, ◌-◌, ◌==◌, ltb, leb, ◌&&◌, Bool, true, false, List, [], ◌∷◌, length, get_or,
  take, drop, if◌then◌else◌, Result, ok, err, ◌>>=◌, ◌>>◌, throw_if,
}
use tvmjs_monorepo.Rlp.Hex.{
  RlpError, extra_zeros, out_of_bounds, invalid_byte_sequence, single_byte_prefixed,
  no_bytes_for_length, string_too_short, list_too_short, total_length_too_large, remainder_not_zero,
  out_of_fuel, bytes_to_hex, parse_hex_byte,
}
use tvmjs_monorepo.Rlp.Item.{
  Item, Items, bytes, list, nil, cons, Input, text, raw, nothing, array, none_left, to_bytes,
}

-- `decodeLength`
unfoldable pub decode_length : List ℕ → Result RlpError ℕ
unfolding bytes_to_hex parse_hex_byte
decode_length [] = parse_hex_byte (bytes_to_hex [])
decode_length (b ∷ bs) = do throw_if (b == 0) extra_zeros; parse_hex_byte (bytes_to_hex (b ∷ bs))

-- `safeSlice`
unfoldable pub safe_slice : List ℕ → ℕ → ℕ → Result RlpError (List ℕ)
safe_slice input start stop = do
  throw_if (ltb (length input) stop) out_of_bounds
  ok (take (stop - start) (drop start input))

-- The branches of `_decode`: the data of a string, or the encodings of the elements of a list, and
-- the remainder.
unfoldable pub short_string : ℕ → List ℕ → Result RlpError (List ℕ × List ℕ)
unfolding safe_slice
short_string first_byte input = do
  let length' = first_byte - 127
  found ← if first_byte == 128 then ok [] else safe_slice input 1 length'
  throw_if (length' == 2 && ltb (get_or found 0 0) 128) single_byte_prefixed
  ok (found, drop length' input)

unfoldable pub long_string : ℕ → List ℕ → Result RlpError (List ℕ × List ℕ)
unfolding safe_slice decode_length
long_string first_byte input = do
  let l_length = first_byte - 182
  throw_if (ltb (length input - 1) l_length) no_bytes_for_length
  digits ← safe_slice input 1 l_length
  length' ← decode_length digits
  throw_if (leb length' 55) string_too_short
  found ← safe_slice input l_length (length' + l_length)
  ok (found, drop (length' + l_length) input)

unfoldable pub short_list : ℕ → List ℕ → Result RlpError (List ℕ × List ℕ)
unfolding safe_slice
short_list first_byte input = do
  let length' = first_byte - 191
  inner ← safe_slice input 1 length'
  ok (inner, drop length' input)

unfoldable pub long_list : ℕ → List ℕ → Result RlpError (List ℕ × List ℕ)
unfolding safe_slice decode_length
long_list first_byte input = do
  let l_length = first_byte - 246
  digits ← safe_slice input 1 l_length
  length' ← decode_length digits
  throw_if (ltb length' 56) list_too_short
  let total_length = l_length + length'
  throw_if (ltb (length input) total_length) total_length_too_large
  inner ← safe_slice input l_length total_length
  ok (inner, drop total_length input)

-- `_decode` and its loop, on fuel. In the source the first byte of an empty input is `undefined`, all
-- comparisons with it fail, and the last branch throws on the empty length.
unfoldable mutual
  unfolding short_string long_string short_list long_list

  pub decode_one : ℕ → List ℕ → Result RlpError (Item × List ℕ)
  decode_one zero input = err out_of_fuel
  decode_one (suc fuel) [] = err invalid_byte_sequence
  decode_one (suc fuel) (b ∷ bs) =
      if leb b 127
      then ok (bytes (b ∷ []), bs)
      else if leb b 183
      then (short_string b (b ∷ bs) >>= λ r. ok (bytes r.0, r.1))
      else if leb b 191
      then (long_string b (b ∷ bs) >>= λ r. ok (bytes r.0, r.1))
      else if leb b 247
      then (short_list b (b ∷ bs) >>= λ r. decode_items fuel r.0 >>= λ xs. ok (list xs, r.1))
      else (long_list b (b ∷ bs) >>= λ r. decode_items fuel r.0 >>= λ xs. ok (list xs, r.1))

  pub decode_items : ℕ → List ℕ → Result RlpError Items
  decode_items zero input = err out_of_fuel
  decode_items (suc fuel) [] = ok nil
  decode_items (suc fuel) (b ∷ bs) =
      decode_one fuel (b ∷ bs) >>= λ d. decode_items fuel d.1 >>= λ xs. ok (cons d.0 xs)

-- Every second call consumes a byte.
abbrev pub enough_fuel : List ℕ → ℕ
enough_fuel input = length input + length input + 1

-- What `decode` returns: the data, or with `stream` set the data and the remainder.
pub data Decoded : Type 0 where
  whole : Item → Decoded
  streamed : Item → List ℕ → Decoded

unfoldable pub finish_decode : Bool → Item × List ℕ → Result RlpError Decoded
finish_decode true decoded = ok (streamed decoded.0 decoded.1)
finish_decode false decoded = do
  throw_if (ltb 0 (length decoded.1)) remainder_not_zero
  ok (whole decoded.0)

-- `input.length === 0`, which an integer never has.
unfoldable pub is_empty : Input → Bool
is_empty (text []) = true
is_empty (raw []) = true
is_empty nothing = true
is_empty (array none_left) = true
is_empty input = false

-- `decode`. An empty input gives the empty string in either form, also with `stream` set.
unfoldable pub decode : (List ℕ → List ℕ) → Input → Bool → Result RlpError Decoded
unfolding is_empty to_bytes decode_one finish_decode
decode utf8 input stream =
    if is_empty input
    then ok (whole (bytes []))
    else (to_bytes utf8 input >>= λ input_bytes.
        decode_one (enough_fuel input_bytes) input_bytes >>= finish_decode stream)
