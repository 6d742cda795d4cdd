-- ===== src/Mpt/Nibbles.antt =====
-- packages/mpt/src/util/nibbles.ts and packages/mpt/src/util/hex.ts: paths as nibbles.
use tvmjs_monorepo.Prelude.{
  ℕ, zero, suc, ◌+◌, ◌*◌, ◌/◌, ◌%◌, ◌<◌, ◌==◌, ltb, Bool, List, [], ◌∷◌, length, drop, get_or,
  if◌then◌else◌,
}
use tvmjs_monorepo.Prelude.Int.{ℤ, pos, negsuc}

abbrev pub AreNibbles : List ℕ → Type 0
AreNibbles [] = Unit {0}
AreNibbles (n ∷ ns) = n < 16 × AreNibbles ns

-- `bytesToNibbles`
unfoldable pub bytes_to_nibbles : List ℕ → List ℕ
bytes_to_nibbles [] = []
bytes_to_nibbles (b ∷ key) = b / 16 ∷ b % 16 ∷ bytes_to_nibbles key

-- `nibblesTypeToPackedBytes`; half of the length is rounded down, so the last of an odd number of
-- nibbles has no byte.
unfoldable pub nibbles_type_to_packed_bytes : List ℕ → List ℕ
nibbles_type_to_packed_bytes [] = []
nibbles_type_to_packed_bytes (n ∷ []) = []
nibbles_type_to_packed_bytes (n1 ∷ n2 ∷ arr) =
    ((n1 * 16 + n2) % 256) ∷ nibbles_type_to_packed_bytes arr

-- The first loop of `nibblesCompare`, up to the shorter length.
unfoldable pub compare_common : List ℕ → List ℕ → ℤ
compare_common [] n2 = pos 0
compare_common (x ∷ n1) [] = pos 0
compare_common (x ∷ n1) (y ∷ n2) =
    let later = compare_common n1 n2 in
    if ltb x y then negsuc 0 else if ltb y x then pos 1 else later

-- The comparison of the lengths, where the loop found no difference.
unfoldable pub compare_lengths : ℤ → ℕ → ℕ → ℤ
compare_lengths (pos zero) l1 l2 =
    if ltb l1 l2 then negsuc 0 else if ltb l2 l1 then pos 1 else pos 0
compare_lengths (pos (suc n)) l1 l2 = pos (suc n)
compare_lengths (negsuc n) l1 l2 = negsuc n

unfoldable pub nibbles_compare : List ℕ → List ℕ → ℤ
unfolding compare_common compare_lengths
nibbles_compare n1 n2 = compare_lengths (compare_common n1 n2) (length n1) (length n2)

-- `matchingNibbleLength`; past the end of the second, `undefined` is no nibble of the first.
unfoldable pub matching_nibble_length : List ℕ → List ℕ → ℕ
matching_nibble_length [] nib2 = 0
matching_nibble_length (x ∷ nib1) [] = 0
matching_nibble_length (x ∷ nib1) (y ∷ nib2) =
    let later = matching_nibble_length nib1 nib2 in if x == y then suc later else 0

-- `addHexPrefix`: what it returns, which is its argument changed in place.
unfoldable pub flag_terminator : Bool → List ℕ → List ℕ
flag_terminator terminator [] = []
flag_terminator terminator (n ∷ key) = (if terminator then n + 2 else n) ∷ key

unfoldable pub add_hex_prefix : List ℕ → Bool → List ℕ
unfolding flag_terminator
add_hex_prefix key terminator =
    flag_terminator terminator (if length key % 2 == 1 then 1 ∷ key else (0 ∷ 0 ∷ key))

-- `removeHexPrefix`
unfoldable pub remove_hex_prefix : List ℕ → List ℕ
remove_hex_prefix val = if get_or val 0 0 % 2 == 1 then drop 1 val else drop 2 val

-- `isTerminator`
unfoldable pub is_terminator : List ℕ → Bool
is_terminator key = ltb 1 (get_or key 0 0)
