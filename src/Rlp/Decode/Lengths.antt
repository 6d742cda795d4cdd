-- ===== src/Rlp/Decode/Lengths.antt =====
-- The lengths of the encoding are read back.
use tvmjs_monorepo.Prelude.{
  ℕ, ◌≡◌, ◌≢◌, sym, ap, ◌∙◌, ◌==◌, false, List, [], ◌∷◌, ok, ok_unique, arith,
}
use tvmjs_monorepo.Util.Bytes.{bigint_to_bytes, bytes_to_bigint, AreBytes}
use tvmjs_monorepo.Util.Bytes.Numbers.{bytes_to_bigint-bigint_to_bytes}
use tvmjs_monorepo.Util.Bytes.Leading.{
  IsLed, bigint_to_bytes-IsLed, bigint_to_bytes-bytes_to_bigint,
}
use tvmjs_monorepo.Rlp.Hex.{bytes_to_hex, parse_hex_byte}
use tvmjs_monorepo.Rlp.Hex.Parse.{parse_hex_byte-bytes_to_hex}
use tvmjs_monorepo.Rlp.Decode.{decode_length}

-- A length without leading zeros is the number of its bytes.
decode_length-led : (v : List ℕ) → IsLed v → AreBytes v → decode_length v ≡ ok (bytes_to_bigint v)
unfolding decode_length
decode_length-led [] led h = absurd led
decode_length-led (b ∷ bs) ne h =
    let no_zero : (b == 0) ≡ false = ground arith in rw no_zero (parse_hex_byte-bytes_to_hex b bs h)

pub decode_length-bigint_to_bytes : (n : ℕ) → n ≢ 0 → decode_length (bigint_to_bytes n) ≡ ok n
decode_length-bigint_to_bytes n ne =
    let (value, are_bytes) = bytes_to_bigint-bigint_to_bytes n in
    decode_length-led (bigint_to_bytes n) (bigint_to_bytes-IsLed n ne) are_bytes ∙ ap ok value

-- What is read as a length is how the length is written.
pub decode_length-ok :
    (v : List ℕ) (n : ℕ) → AreBytes v → decode_length v ≡ ok n → bigint_to_bytes n ≡ v
decode_length-ok v n h e =
    let led = is_led v h e in
    let value : bytes_to_bigint v ≡ n = ok_unique (decode_length-led v led h) e in
    ap bigint_to_bytes (sym value) ∙ bigint_to_bytes-bytes_to_bigint v led h
  where
    is_led : (v : List ℕ) → AreBytes v → decode_length v ≡ ok n → IsLed v
    is_led [] h e = unfold decode_length parse_hex_byte bytes_to_hex in absurd (ground (arith, e))
    is_led (b ∷ bs) h e = λ z. unfold decode_length in absurd (ground (arith, e))
