-- ===== src/Tests/Encodings.antt =====
-- Recursive length prefix encoding at concrete inputs.
use tvmjs_monorepo.Prelude.{
  ℕ, ◌<◌, ◌^◌, ◌≡◌, ◌≢◌, refl, true, false, List, [], ◌∷◌, length, ok, err, arith,
}
use tvmjs_monorepo.Prelude.Int.{pos}
use tvmjs_monorepo.Util.Bytes.{AreBytes}
use tvmjs_monorepo.Rlp.Hex.{out_of_fuel, single_byte_prefixed}
use tvmjs_monorepo.Rlp.Item.{Item, bytes, list, nil, cons, integer, raw}
use tvmjs_monorepo.Rlp.Encode.{encode}
use tvmjs_monorepo.Rlp.Encode.Rules.{input_of, rlp, encode_lem}
use tvmjs_monorepo.Rlp.Decode.{decode, whole, streamed}
use tvmjs_monorepo.Rlp.RoundTrip.{decode-encode}
use tvmjs_monorepo.Rlp.Canonical.{encode-decode}
use tvmjs_monorepo.Rlp.Fuel.{decode-ends}

-- The text encoder of the platform, on characters below 128.
abbrev ascii : List ℕ → List ℕ
ascii t = t

-- [[], [1, 128]] with a nested list.
abbrev nested : Item
nested =
    list (cons (bytes []) (cons (list (cons (bytes (1 ∷ [])) (cons (bytes (128 ∷ [])) nil))) nil))

encode_lem_example : encode ascii (input_of nested) ≡ ok (rlp nested)
encode_lem_example = encode_lem ascii nested

encoded : encode ascii (input_of nested) ≡ ok (197 ∷ 128 ∷ 195 ∷ 1 ∷ 129 ∷ 128 ∷ [])
unfolding encode input_of
encoded = refl

abbrev nested_bytes : List ℕ
nested_bytes = 197 ∷ 128 ∷ 195 ∷ 1 ∷ 129 ∷ 128 ∷ []

short : length nested_bytes < 2 ^ 53
short = ground arith

decode-encode_example :
    (decode ascii (raw (197 ∷ 128 ∷ 195 ∷ 1 ∷ 129 ∷ 128 ∷ [])) false ≡ ok (whole nested))
    × (decode ascii (raw (197 ∷ 128 ∷ 195 ∷ 1 ∷ 129 ∷ 128 ∷ 7 ∷ [])) true
        ≡ ok (streamed nested (7 ∷ [])))
decode-encode_example =
    decode-encode ascii nested (197 ∷ 128 ∷ 195 ∷ 1 ∷ 129 ∷ 128 ∷ []) (7 ∷ []) encoded short

are_bytes : AreBytes (195 ∷ 1 ∷ 129 ∷ 128 ∷ [])
are_bytes = (omega arith, (omega arith, (omega arith, (omega arith, tt))))

abbrev pair : Item
pair = list (cons (bytes (1 ∷ [])) (cons (bytes (128 ∷ [])) nil))

decoded : decode ascii (raw (195 ∷ 1 ∷ 129 ∷ 128 ∷ [])) false ≡ ok (whole pair)
unfolding decode
decoded = refl

encode-decode_example : encode ascii (input_of pair) ≡ ok (195 ∷ 1 ∷ 129 ∷ 128 ∷ [])
encode-decode_example = encode-decode ascii 195 (1 ∷ 129 ∷ 128 ∷ []) pair are_bytes decoded

decode-ends_example : decode ascii (raw (195 ∷ 1 ∷ 129 ∷ 128 ∷ [])) true ≢ err out_of_fuel
decode-ends_example = decode-ends ascii (195 ∷ 1 ∷ 129 ∷ 128 ∷ []) true are_bytes

-- A byte below 128 behind a prefix is refused.
prefixed_byte : decode ascii (raw (129 ∷ 1 ∷ [])) false ≡ err single_byte_prefixed
unfolding decode
prefixed_byte = refl

thousand : encode ascii (integer (pos 1024)) ≡ ok (130 ∷ 4 ∷ 0 ∷ [])
unfolding encode
thousand = refl
