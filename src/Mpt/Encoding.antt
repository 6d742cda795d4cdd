-- ===== src/Mpt/Encoding.antt =====
-- packages/mpt/src/util/encoding.ts: the encodings of keys.
use tvmjs_monorepo.Prelude.{
  ℕ, ◌-◌, ◌*◌, ◌/◌, ◌%◌, bit_and, bit_or, ◌==◌, ltb, Bool, false, List, [], ◌∷◌, length, take, drop,
  get_or, if◌then◌else◌, Result, ok, ◌>>◌, throw_if,
}

pub data EncodingError : Type 0 where
  odd_length : EncodingError

-- `hasTerminator`
unfoldable pub has_terminator : List ℕ → Bool
has_terminator [] = false
has_terminator (n ∷ []) = n == 16
has_terminator (n ∷ m ∷ nibbles) = has_terminator (m ∷ nibbles)

-- `nibblesToBytes`; the write of an odd nibble is out of range.
unfoldable pub nibbles_to_bytes : List ℕ → List ℕ
nibbles_to_bytes [] = []
nibbles_to_bytes (n ∷ []) = []
nibbles_to_bytes (n1 ∷ n2 ∷ nibbles) = (bit_or (n1 * 16) n2 % 256) ∷ nibbles_to_bytes nibbles

-- `nibbles.subarray(0, nibbles.length - 1)`
unfoldable pub without_last : List ℕ → List ℕ
without_last nibbles = take (length nibbles - 1) nibbles

unfoldable pub hex_to_keybytes : List ℕ → Result EncodingError (List ℕ)
unfolding has_terminator nibbles_to_bytes without_last
hex_to_keybytes hex = do
  let key = if has_terminator hex then without_last hex else hex
  throw_if (length key % 2 == 1) odd_length
  ok (nibbles_to_bytes key)

-- `nibblesToCompactBytes`
unfoldable pub nibbles_to_compact_bytes : List ℕ → List ℕ
unfolding has_terminator nibbles_to_bytes without_last
nibbles_to_compact_bytes nibbles =
    let terminator = if has_terminator nibbles then 1 else 0 in
    let path = if has_terminator nibbles then without_last nibbles else nibbles in
    let flags = terminator * 32 in
    if bit_and (length path) 1 == 1
    then bit_or (bit_or flags 16) (get_or path 0 0) ∷ nibbles_to_bytes (drop 1 path)
    else flags ∷ nibbles_to_bytes path

-- `bytesToNibbles`, with the terminator.
unfoldable pub bytes_to_nibbles : List ℕ → List ℕ
bytes_to_nibbles [] = 16 ∷ []
bytes_to_nibbles (b ∷ str) = b / 16 ∷ b % 16 ∷ bytes_to_nibbles str

-- `compactBytesToNibbles`
unfoldable pub compact_bytes_to_nibbles : List ℕ → List ℕ
unfolding bytes_to_nibbles without_last
compact_bytes_to_nibbles [] = []
compact_bytes_to_nibbles (b ∷ bs) =
    let whole = bytes_to_nibbles (b ∷ bs) in
    let base = if ltb (get_or whole 0 0) 2 then without_last whole else whole in
    drop (2 - bit_and (get_or base 0 0) 1) base
