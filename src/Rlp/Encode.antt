-- ===== src/Rlp/Encode.antt =====
-- packages/rlp/src/index.ts: `encode`.
pub mod Rules
use tvmjs_monorepo.Prelude.{
  ℕ, zero, suc, ◌+◌, ◌/◌, ◌==◌, ltb, ◌&&◌, Bool, true, false, List, [], ◌∷◌, ◌++◌, length, get_or,
  if◌then◌else◌, Result, ok, err, ◌>>=◌,
}
use tvmjs_monorepo.Rlp.Hex.{RlpError, number_to_hex, hex_to_bytes}
use tvmjs_monorepo.Rlp.Item.{
  Item, Items, bytes, list, nil, cons, Input, Inputs, text, integer, raw, nothing, array, none_left,
  input, to_bytes,
}

-- `encodeLength`
unfoldable pub encode_length : ℕ → ℕ → Result RlpError (List ℕ)
encode_length len offset =
    if ltb len 56
    then ok ((len + offset) ∷ [])
    else let hex_length = number_to_hex len in
      let l_length = length hex_length / 2 in
      let first_byte = number_to_hex (offset + 55 + l_length) in
      hex_to_bytes (first_byte ++ hex_length)

-- The end of `encode`, on bytes and on the encodings of the elements.
unfoldable pub encode_bytes : List ℕ → Result RlpError (List ℕ)
unfolding encode_length
encode_bytes bs =
    if length bs == 1 && ltb (get_or bs 0 0) 128
    then ok bs
    else encode_length (length bs) 128 >>= λ prefix. ok (prefix ++ bs)

unfoldable pub encode_list : List ℕ → Result RlpError (List ℕ)
unfolding encode_length
encode_list output = encode_length (length output) 192 >>= λ prefix. ok (prefix ++ output)

-- `encode` on any input; the outputs of the elements are concatenated.
module _ (utf8 : List ℕ → List ℕ) where
  unfoldable mutual
    unfolding to_bytes encode_bytes encode_list

    pub encode : Input → Result RlpError (List ℕ)
    encode (array xs) = encode_inputs xs >>= encode_list
    encode (text t) = to_bytes utf8 (text t) >>= encode_bytes
    encode (integer n) = to_bytes utf8 (integer n) >>= encode_bytes
    encode (raw bs) = to_bytes utf8 (raw bs) >>= encode_bytes
    encode nothing = to_bytes utf8 nothing >>= encode_bytes

    pub encode_inputs : Inputs → Result RlpError (List ℕ)
    encode_inputs none_left = ok []
    encode_inputs (input x xs) =
        encode x >>= λ encoded. encode_inputs xs >>= λ rest. ok (encoded ++ rest)
