-- ===== src/Rlp/Encode/Rules.antt =====
-- The rules of recursive length prefix encoding, on the items that a decoder returns: what `encode`
-- of packages/rlp/src/index.ts returns, without its errors and its hexadecimal text.
use tvmjs_monorepo.Prelude.{
  ℕ, ◌+◌, ◌≡◌, refl, ◌==◌, ltb, ◌&&◌, Bool, List, [], ◌∷◌, ◌++◌, length, get_or, if◌then◌else◌, ok,
  Bool-cases, inl, inr,
}
use tvmjs_monorepo.Util.Bytes.{bigint_to_bytes}
use tvmjs_monorepo.Rlp.Hex.Parse.{hex_to_bytes-two_numbers, length-number_to_hex}
use tvmjs_monorepo.Rlp.Item.{
  Item, Items, bytes, list, nil, cons, Input, Inputs, raw, array, none_left, input, to_bytes,
}
use tvmjs_monorepo.Rlp.Encode.{encode_length, encode_bytes, encode_list, encode, encode_inputs}

-- The bytes before `len` bytes of contents.
unfoldable pub rlp_prefix : ℕ → ℕ → List ℕ
rlp_prefix offset len =
    if ltb len 56
    then (len + offset) ∷ []
    else bigint_to_bytes (offset + 55 + length (bigint_to_bytes len)) ++ bigint_to_bytes len

-- A byte below 128 stands for itself.
abbrev pub stands_alone : List ℕ → Bool
stands_alone bs = length bs == 1 && ltb (get_or bs 0 0) 128

unfoldable pub rlp_bytes : List ℕ → List ℕ
unfolding rlp_prefix
rlp_bytes bs = if stands_alone bs then bs else rlp_prefix 128 (length bs) ++ bs

unfoldable mutual
  unfolding rlp_prefix rlp_bytes

  pub rlp : Item → List ℕ
  rlp (bytes bs) = rlp_bytes bs
  rlp (list xs) = rlp_prefix 192 (length (rlp_items xs)) ++ rlp_items xs

  pub rlp_items : Items → List ℕ
  rlp_items nil = []
  rlp_items (cons x xs) = rlp x ++ rlp_items xs

-- What is decoded, given to `encode`.
unfoldable mutual
  pub input_of : Item → Input
  input_of (bytes bs) = raw bs
  input_of (list xs) = array (inputs_of xs)

  pub inputs_of : Items → Inputs
  inputs_of nil = none_left
  inputs_of (cons x xs) = input (input_of x) (inputs_of xs)

encode_length-rlp_prefix : (len offset : ℕ) → encode_length len offset ≡ ok (rlp_prefix offset len)
unfolding encode_length rlp_prefix
encode_length-rlp_prefix len offset =
    let k = length-number_to_hex len in
    elim (Bool-cases (ltb len 56)) [
      | inl short ↦ rw short refl
      | inr long ↦
          rw (long, k) (hex_to_bytes-two_numbers (offset + 55 + length (bigint_to_bytes len)) len)
    ]

encode_bytes-rlp_bytes : (bs : List ℕ) → encode_bytes bs ≡ ok (rlp_bytes bs)
unfolding encode_bytes rlp_bytes
encode_bytes-rlp_bytes bs = elim (Bool-cases (stands_alone bs)) [
  | inl alone ↦ rw alone refl
  | inr prefixed ↦ rw (prefixed, encode_length-rlp_prefix (length bs) 128) refl
]

encode_list-rlp_prefix : (bs : List ℕ) → encode_list bs ≡ ok (rlp_prefix 192 (length bs) ++ bs)
unfolding encode_list
encode_list-rlp_prefix bs = rw (encode_length-rlp_prefix (length bs) 192) refl

module _ (utf8 : List ℕ → List ℕ) where
  mutual
    unfolding encode rlp input_of to_bytes

    pub encode-rlp : (x : Item) → encode utf8 (input_of x) ≡ ok (rlp x)
    encode-rlp (bytes bs) = encode_bytes-rlp_bytes bs
    encode-rlp (list xs) = rw (encode_inputs-rlp_items xs) (encode_list-rlp_prefix (rlp_items xs))

    pub encode_inputs-rlp_items :
        (xs : Items) → encode_inputs utf8 (inputs_of xs) ≡ ok (rlp_items xs)
    encode_inputs-rlp_items nil = refl
    encode_inputs-rlp_items (cons x xs) = rw (encode-rlp x, encode_inputs-rlp_items xs) refl

-- For every item of nested byte arrays encode succeeds and returns what the rules of recursive
-- length prefix encoding write, a byte below 128 alone and else a prefix and the contents.
pub encode_lem : (utf8 : List ℕ → List ℕ) (x : Item) → encode utf8 (input_of x) ≡ ok (rlp x)
encode_lem utf8 x = encode-rlp utf8 x
