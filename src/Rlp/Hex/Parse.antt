-- ===== src/Rlp/Hex/Parse.antt =====
-- Hexadecimal text read as bytes and as a number.
use tvmjs_monorepo.Prelude.{
  ℕ, suc, ◌+◌, ◌*◌, ◌/◌, ◌%◌, ◌≡◌, refl, ap, ◌∙◌, false, List, [], ◌∷◌, ◌++◌, ◌==◌, length, Option,
  some, none, Result, ok, err, arith, Bool-cases, inl, inr,
}
use tvmjs_monorepo.Util.Bytes.{bytes_to_bigint, value_from, bigint_to_bytes, IsByte, AreBytes}
use tvmjs_monorepo.Rlp.Hex.{
  RlpError, hex_digit, bytes_to_hex, ascii_to_base16, hex_pair, and_then, hex_pairs, is_hex_string,
  strip_hex_prefix, hex_to_bytes, number_to_hex, parse_digits, parse_hex_byte,
}
use tvmjs_monorepo.Rlp.Hex.Numbers.{
  ascii_to_base16-hex_digit, hex_pairs-append, hex_pairs-number_to_hex,
}

-- Two digits make a byte.
pub length-hex_pairs : (t bs : List ℕ) → hex_pairs t ≡ ok bs → length t ≡ length bs * 2
unfolding hex_pairs
length-hex_pairs [] bs e = ground (arith, e)
length-hex_pairs (c ∷ []) bs e = cc
length-hex_pairs (c1 ∷ c2 ∷ rest) bs e =
    step (hex_pair c1 c2) (hex_pairs rest) e (λ ts. length-hex_pairs rest ts)
  where
    step :
        (o : Option ℕ) (tail : Result RlpError (List ℕ))
        → and_then o tail ≡ ok bs
        → ((ts : List ℕ) → tail ≡ ok ts → length rest ≡ length ts * 2)
        → suc (suc (length rest)) ≡ length bs * 2
    step none tail q ih = cc
    step (some b) (err x) q ih = cc
    step (some b) (ok ts) q ih = ground (arith, q, ih ts refl)

-- Digits have no prefix.
no_prefix : (t bs : List ℕ) → hex_pairs t ≡ ok bs → is_hex_string t ≡ false
unfolding hex_pairs is_hex_string
no_prefix [] bs e = refl
no_prefix (c ∷ []) bs e = refl
no_prefix (c1 ∷ c2 ∷ rest) bs e = elim (Bool-cases (c2 == 120)) [
  | inr other ↦ ground arith
  | inl x ↦
      let e120 : c2 ≡ 120 = ground arith in
      let bad : hex_pair c1 c2 ≡ none = unfold hex_pair ascii_to_base16 in ground arith in
      absurd (clash bad e)
]
  where
    clash : {o : Option ℕ} → o ≡ none → and_then o (hex_pairs rest) ≡ ok bs → ⊥
    clash {o = none} p q = cc
    clash {o = some b} p q = cc

pub hex_to_bytes-ok : (t bs : List ℕ) → hex_pairs t ≡ ok bs → hex_to_bytes t ≡ ok bs
unfolding hex_to_bytes strip_hex_prefix
hex_to_bytes-ok t bs e =
    let even : (length t % 2 == 1) ≡ false = ground (arith, length-hex_pairs t bs e) in
    rw (no_prefix t bs e, even) e

-- The bytes of a number, as `toBytes` and `encodeLength` make them.
pub hex_to_bytes-number_to_hex : (n : ℕ) → hex_to_bytes (number_to_hex n) ≡ ok (bigint_to_bytes n)
hex_to_bytes-number_to_hex n =
    hex_to_bytes-ok (number_to_hex n) (bigint_to_bytes n) (hex_pairs-number_to_hex n)

pub hex_to_bytes-two_numbers :
    (m n : ℕ)
    → hex_to_bytes (number_to_hex m ++ number_to_hex n)
      ≡ ok (bigint_to_bytes m ++ bigint_to_bytes n)
hex_to_bytes-two_numbers m n =
    let first =
      hex_pairs-append (number_to_hex m) (number_to_hex n) (bigint_to_bytes m)
        (hex_pairs-number_to_hex m) in
    hex_to_bytes-ok (number_to_hex m ++ number_to_hex n) (bigint_to_bytes m ++ bigint_to_bytes n)
      (rw first (rw (hex_pairs-number_to_hex n) refl))

pub length-number_to_hex : (n : ℕ) → length (number_to_hex n) / 2 ≡ length (bigint_to_bytes n)
length-number_to_hex n =
    omega
      (arith, length-hex_pairs (number_to_hex n) (bigint_to_bytes n) (hex_pairs-number_to_hex n))

parse_digits-cons :
    (acc c d : ℕ) (cs : List ℕ)
    → ascii_to_base16 c ≡ some d
    → parse_digits acc (c ∷ cs) ≡ parse_digits (acc * 16 + d) cs
unfolding parse_digits
parse_digits-cons acc c d cs e = cc

parse_digits-two :
    (acc b : ℕ) (cs : List ℕ)
    → IsByte b
    → parse_digits acc (hex_digit (b / 16) ∷ hex_digit (b % 16) ∷ cs)
      ≡ parse_digits (acc * 256 + b) cs
parse_digits-two acc b cs h =
    let q : (acc * 16 + b / 16) * 16 + b % 16 ≡ acc * 256 + b = omega arith in
    let high = ascii_to_base16-hex_digit (b / 16) (omega arith) in
    let low = ascii_to_base16-hex_digit (b % 16) (omega arith) in
    parse_digits-cons acc (hex_digit (b / 16)) (b / 16) (hex_digit (b % 16) ∷ cs) high
    ∙ parse_digits-cons (acc * 16 + b / 16) (hex_digit (b % 16)) (b % 16) cs low
    ∙ ap (λ n. parse_digits n cs) q

parse_digits-bytes_to_hex :
    (acc : ℕ) (bs : List ℕ) → AreBytes bs → parse_digits acc (bytes_to_hex bs) ≡ value_from acc bs
unfolding bytes_to_hex value_from
parse_digits-bytes_to_hex acc [] h = unfold parse_digits in refl
parse_digits-bytes_to_hex acc (b ∷ bs) (hb, hs) =
    parse_digits-two acc b (bytes_to_hex bs) hb ∙ parse_digits-bytes_to_hex (acc * 256 + b) bs hs

parse_hex_byte-cons :
    (c d : ℕ) (cs : List ℕ)
    → ascii_to_base16 c ≡ some d
    → parse_hex_byte (c ∷ cs) ≡ ok (parse_digits 0 (c ∷ cs))
unfolding parse_hex_byte
parse_hex_byte-cons c d cs e =
    let sum : 0 * 16 + d ≡ d = omega arith in
    let named : parse_digits 0 (c ∷ cs) ≡ parse_digits d cs =
      parse_digits-cons 0 c d cs e ∙ ap (λ n. parse_digits n cs) sum in
    cc

-- Bytes written as text are read as the number that they are the bytes of.
pub parse_hex_byte-bytes_to_hex :
    (b : ℕ) (bs : List ℕ)
    → AreBytes (b ∷ bs)
    → parse_hex_byte (bytes_to_hex (b ∷ bs)) ≡ ok (bytes_to_bigint (b ∷ bs))
unfolding bytes_to_hex bytes_to_bigint
parse_hex_byte-bytes_to_hex b bs h =
    let high = ascii_to_base16-hex_digit (b / 16) (omega (arith, h.0)) in
    parse_hex_byte-cons (hex_digit (b / 16)) (b / 16) (hex_digit (b % 16) ∷ bytes_to_hex bs) high
    ∙ ap ok (parse_digits-bytes_to_hex 0 (b ∷ bs) h)
