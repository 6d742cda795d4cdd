-- ===== src/Mpt/Keys.antt =====
-- packages/mpt/src/util: keys as bytes and as nibbles.
use tvmjs_monorepo.Prelude.{
  ℕ, ◌+◌, ◌*◌, ◌/◌, ◌%◌, ◌==◌, ◌≡◌, refl, bit_or, false, List, [], ◌∷◌, ◌++◌, length, arith, ok,
}
use tvmjs_monorepo.Util.Bytes.{AreBytes}
use tvmjs_monorepo.Mpt.Nibbles
use tvmjs_monorepo.Mpt.Nibbles.{AreNibbles, nibbles_type_to_packed_bytes}
use tvmjs_monorepo.Mpt.Encoding
use tvmjs_monorepo.Mpt.Encoding.{has_terminator, nibbles_to_bytes, without_last, hex_to_keybytes}
use tvmjs_monorepo.Mpt.Paths.{has_terminator-snoc, without_last-snoc, high_or_low}

-- The two functions of this name differ in the terminator.
terminated :
    (key : List ℕ) → Encoding.bytes_to_nibbles key ≡ Nibbles.bytes_to_nibbles key ++ 16 ∷ []
unfolding Encoding.bytes_to_nibbles Nibbles.bytes_to_nibbles
terminated [] = refl
terminated (b ∷ key) = rw (terminated key) refl

length-bytes_to_nibbles : (key : List ℕ) → length (Nibbles.bytes_to_nibbles key) ≡ length key * 2
unfolding Nibbles.bytes_to_nibbles
length-bytes_to_nibbles [] = refl
length-bytes_to_nibbles (b ∷ key) = omega (arith, length-bytes_to_nibbles key)

packed :
    (key : List ℕ)
    → AreBytes key
    → nibbles_type_to_packed_bytes (Nibbles.bytes_to_nibbles key) ≡ key
unfolding nibbles_type_to_packed_bytes Nibbles.bytes_to_nibbles
packed [] h = refl
packed (b ∷ key) (hb, h) =
    let whole : (b / 16 * 16 + b % 16) % 256 ≡ b = omega arith in rw (whole, packed key h) refl

joined : (key : List ℕ) → AreBytes key → nibbles_to_bytes (Nibbles.bytes_to_nibbles key) ≡ key
unfolding nibbles_to_bytes Nibbles.bytes_to_nibbles
joined [] h = refl
joined (b ∷ key) (hb, h) =
    let low : bit_or (b / 16 * 16) (b % 16) ≡ b / 16 * 16 + b % 16 =
      high_or_low (b / 16) (b % 16) (omega arith) in
    let whole : (b / 16 * 16 + b % 16) % 256 ≡ b = omega arith in rw (low, whole, joined key h) refl

are_nibbles : (key : List ℕ) → AreBytes key → AreNibbles (Nibbles.bytes_to_nibbles key)
unfolding Nibbles.bytes_to_nibbles
are_nibbles [] h = tt
are_nibbles (b ∷ key) (hb, h) = (omega arith, (omega arith, are_nibbles key h))

-- For a key of bytes, bytesToNibbles gives nibbles from which nibblesTypeToPackedBytes packs the
-- key, and hexToKeybytes reads the key from its HEX encoding by the other bytesToNibbles.
pub keys_lem :
    (key : List ℕ)
    → AreBytes key
    → AreNibbles (Nibbles.bytes_to_nibbles key)
      × (nibbles_type_to_packed_bytes (Nibbles.bytes_to_nibbles key) ≡ key)
      × (hex_to_keybytes (Encoding.bytes_to_nibbles key) ≡ ok key)
unfolding hex_to_keybytes
keys_lem key h =
    let ns = Nibbles.bytes_to_nibbles key in
    let even : (length (Nibbles.bytes_to_nibbles key) % 2 == 1) ≡ false =
      ground (arith, length-bytes_to_nibbles key) in
    (
      are_nibbles key h,
      packed key h,
      rw (terminated key, has_terminator-snoc ns, without_last-snoc ns 16, even, joined key h) refl,
    )
