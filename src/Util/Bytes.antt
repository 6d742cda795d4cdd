-- ===== src/Util/Bytes.antt =====
-- packages/util/src/bytes.ts: big integers as bytes, the highest first. The source goes through
-- hexadecimal text, where a byte is two digits; here the bytes are the digits to the base 256.
pub mod Numbers
pub mod Leading
use tvmjs_monorepo.Prelude.{
  ℕ, zero, suc, ◌+◌, ◌-◌, ◌*◌, ◌/◌, ◌%◌, ◌<◌, Bool, true, false, List, [], ◌∷◌, ◌++◌, ltb,
  if◌then◌else◌, length, take, drop, replicate, Result, ok, err,
}

abbrev pub IsByte : ℕ → Type 0
IsByte b = b < 256

abbrev pub AreBytes : List ℕ → Type 0
AreBytes [] = Unit {0}
AreBytes (b ∷ bs) = IsByte b × AreBytes bs

unfoldable pub value_from : ℕ → List ℕ → ℕ
value_from acc [] = acc
value_from acc (b ∷ bs) = value_from (acc * 256 + b) bs

-- `bytesToBigInt`; the empty array is 0.
unfoldable pub bytes_to_bigint : List ℕ → ℕ
unfolding value_from
bytes_to_bigint = value_from 0

-- The digits of `n`, with fuel above their number.
unfoldable pub digits_from : ℕ → ℕ → List ℕ
digits_from zero n = []
digits_from (suc fuel) n =
    let rest = digits_from fuel (n / 256) in if ltb n 256 then n ∷ [] else rest ++ n % 256 ∷ []

-- `bigIntToBytes`; 0 is one byte.
unfoldable pub bigint_to_bytes : ℕ → List ℕ
unfolding digits_from
bigint_to_bytes n = digits_from (suc n) n

pub data BytesError : Type 0 where
  too_long : BytesError

-- `setLength(msg, length, right, allowTruncate)`
unfoldable pub set_length : List ℕ → ℕ → Bool → Bool → Result BytesError (List ℕ)
set_length msg len right allow_truncate =
    if ltb len (length msg)
    then (if allow_truncate
        then ok (if right then take len msg else drop (length msg - len) msg)
        else err too_long)
    else if ltb (length msg) len
    then ok (
        if right
        then msg ++ replicate (len - length msg) 0
        else replicate (len - length msg) 0 ++ msg)
    else ok msg

unfoldable pub set_length_left : List ℕ → ℕ → Bool → Result BytesError (List ℕ)
unfolding set_length
set_length_left msg len = set_length msg len false

unfoldable pub set_length_right : List ℕ → ℕ → Bool → Result BytesError (List ℕ)
unfolding set_length
set_length_right msg len = set_length msg len true
