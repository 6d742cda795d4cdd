-- ===== src/Tests/Paths.antt =====
-- Paths of the trie at concrete inputs.
use tvmjs_monorepo.Prelude.{ℕ, ◌≡◌, refl, true, List, [], ◌∷◌, ok, arith}
use tvmjs_monorepo.Prelude.Int.{negsuc}
use tvmjs_monorepo.Util.Bytes.{AreBytes}
use tvmjs_monorepo.Mpt.Nibbles
use tvmjs_monorepo.Mpt.Nibbles.{
  AreNibbles, nibbles_type_to_packed_bytes, add_hex_prefix, nibbles_compare, matching_nibble_length,
}
use tvmjs_monorepo.Mpt.Encoding
use tvmjs_monorepo.Mpt.Encoding.{
  nibbles_to_compact_bytes, compact_bytes_to_nibbles, hex_to_keybytes,
}
use tvmjs_monorepo.Mpt.Paths.{
  hex_path, nibbles_to_compact_bytes-add_hex_prefix,
  compact_bytes_to_nibbles-nibbles_to_compact_bytes,
}
use tvmjs_monorepo.Mpt.Keys.{keys_lem}

-- A leaf's path of five nibbles.
abbrev five : List ℕ
five = 15 ∷ 1 ∷ 12 ∷ 11 ∷ 8 ∷ []

five-AreNibbles : AreNibbles five
five-AreNibbles = (omega arith, (omega arith, (omega arith, (omega arith, (omega arith, tt)))))

compact_five : nibbles_to_compact_bytes (hex_path five true) ≡ 63 ∷ 28 ∷ 184 ∷ []
unfolding nibbles_to_compact_bytes
compact_five = refl

nibbles_to_compact_bytes-add_hex_prefix_example :
    nibbles_to_compact_bytes (hex_path five true)
    ≡ nibbles_type_to_packed_bytes (add_hex_prefix five true)
nibbles_to_compact_bytes-add_hex_prefix_example =
    nibbles_to_compact_bytes-add_hex_prefix five true five-AreNibbles

compact_bytes_to_nibbles-nibbles_to_compact_bytes_example :
    compact_bytes_to_nibbles (nibbles_to_compact_bytes (hex_path five true)) ≡ hex_path five true
compact_bytes_to_nibbles-nibbles_to_compact_bytes_example =
    compact_bytes_to_nibbles-nibbles_to_compact_bytes five true five-AreNibbles

two_bytes : AreBytes (18 ∷ 255 ∷ [])
two_bytes = (omega arith, (omega arith, tt))

keys_lem_example :
    AreNibbles (Nibbles.bytes_to_nibbles (18 ∷ 255 ∷ []))
    × (nibbles_type_to_packed_bytes (Nibbles.bytes_to_nibbles (18 ∷ 255 ∷ [])) ≡ 18 ∷ 255 ∷ [])
    × (hex_to_keybytes (Encoding.bytes_to_nibbles (18 ∷ 255 ∷ [])) ≡ ok (18 ∷ 255 ∷ []))
keys_lem_example = keys_lem (18 ∷ 255 ∷ []) two_bytes

-- The second is the greater, and the result is negative.
second_greater : nibbles_compare (3 ∷ []) (4 ∷ []) ≡ negsuc 0
unfolding nibbles_compare
second_greater = refl

abbrev fork : List ℕ
fork = 15 ∷ 2 ∷ []
