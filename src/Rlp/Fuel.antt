-- ===== src/Rlp/Fuel.antt =====
-- packages/rlp/src/index.ts: the recursion of `_decode` ends, with the fuel that `decode` gives it.
use tvmjs_monorepo.Prelude.{
  ℕ, zero, suc, ◌+◌, ◌≤◌, ◌<◌, ◌≡◌, ◌≢◌, ap, ltb, leb, Bool, true, false, List, [], ◌∷◌, ◌++◌,
  length, Result, ok, err, ◌>>=◌, arith, Bool-cases, inl, inr, length-append,
}
use tvmjs_monorepo.Util.Bytes.{AreBytes}
use tvmjs_monorepo.Util.Bytes.Numbers.{AreBytes-parts}
use tvmjs_monorepo.Rlp.Hex.{RlpError, out_of_fuel, remainder_not_zero}
use tvmjs_monorepo.Rlp.Item.{Item, Items, bytes, list, cons, raw, to_bytes}
use tvmjs_monorepo.Rlp.Encode.Rules.{rlp}
use tvmjs_monorepo.Rlp.Decode.{
  decode_one, decode_items, short_string, long_string, short_list, long_list, Decoded, whole,
  decode, enough_fuel, finish_decode, is_empty,
}
use tvmjs_monorepo.Rlp.Decode.Backward.{short_list_ok, long_list_ok}
use tvmjs_monorepo.Rlp.Canonical.{decode_one-canonical}
use tvmjs_monorepo.Rlp.RoundTrip.{length-rlp}
use tvmjs_monorepo.Rlp.Decode.Ends.{
  Ends, Ends-bind, Ends-throw_if, short_string-Ends, long_string-Ends, short_list-Ends,
  long_list-Ends,
}

-- The contents of a list are shorter than the list.
short_contents :
    (b : ℕ) (tail found rest : List ℕ)
    → 192 ≤ b
    → short_list b (b ∷ tail) ≡ ok (found, rest)
    → (length found ≤ length tail) × (AreBytes tail → AreBytes found)
short_contents b tail found rest ge e =
    let (size, parts) = short_list_ok b tail ge e in
    (
      omega (arith, ap length parts, length-append found rest),
      λ h. (AreBytes-parts found rest (rw parts h)).0,
    )

long_contents :
    (b : ℕ) (tail found rest : List ℕ)
    → 248 ≤ b
    → AreBytes tail
    → long_list b (b ∷ tail) ≡ ok (found, rest)
    → (length found ≤ length tail) × AreBytes found
long_contents b tail found rest ge h e =
    let (digits, size, shown, long, parts) = long_list_ok b tail ge h e in
    let inner = AreBytes-parts digits (found ++ rest) (rw parts h) in
    (
      omega
          (arith, ap length parts, length-append digits (found ++ rest), length-append found rest),
      (AreBytes-parts found rest inner.1).0,
    )

abbrev as_string : List ℕ × List ℕ → Result RlpError (Item × List ℕ)
as_string parts = ok (bytes parts.0, parts.1)

abbrev as_list : List ℕ → Items → Result RlpError (Item × List ℕ)
as_list rest xs = ok (list xs, rest)

string-Ends : (r : Result RlpError (List ℕ × List ℕ)) → Ends r → Ends (r >>= as_string)
string-Ends r h = Ends-bind r as_string h (λ parts e. tt)

list-Ends :
    (items : List ℕ → Result RlpError Items) (r : Result RlpError (List ℕ × List ℕ))
    → Ends r
    → ((parts : List ℕ × List ℕ) → r ≡ ok parts → Ends (items parts.0))
    → Ends (r >>= λ parts. items parts.0 >>= as_list parts.1)
list-Ends items r h inner =
    Ends-bind r (λ parts. items parts.0 >>= as_list parts.1) h
      (λ parts e. Ends-bind (items parts.0) (as_list parts.1) (inner parts e) (λ xs e'. tt))

mutual
  unfolding decode_one decode_items

  decode_one-Ends :
      (fuel : ℕ) (input : List ℕ)
      → AreBytes input
      → 1 ≤ fuel
      → length input + length input ≤ fuel
      → Ends (decode_one fuel input)
  decode_one-Ends zero input h some_fuel enough = absurd (omega arith)
  decode_one-Ends (suc fuel) [] h some_fuel enough = λ q. cc
  decode_one-Ends (suc fuel) (b ∷ tail) (hb, hs) some_fuel enough =
      let input = b ∷ tail in
      elim (Bool-cases (leb b 127)) [
        | inl byte ↦ rw byte tt
        | inr q1 ↦ elim (Bool-cases (leb b 183)) [
          | inl short ↦
              rw (q1, short) (string-Ends (short_string b input) (short_string-Ends b input))
          | inr q2 ↦ elim (Bool-cases (leb b 191)) [
            | inl long ↦
                rw (q1, q2, long) (string-Ends (long_string b input) (long_string-Ends b input))
            | inr q3 ↦ elim (Bool-cases (leb b 247)) [
              | inl short ↦
                  rw (q1, q2, q3, short)
                    (list-Ends (decode_items fuel) (short_list b input) (short_list-Ends b input)
                      (λ parts e.
                        let (le, inner) = short_contents b tail parts.0 parts.1 (ground arith) e in
                        decode_items-Ends fuel parts.0 (inner hs) (omega arith)))
              | inr long ↦
                  rw (q1, q2, q3, long)
                    (list-Ends (decode_items fuel) (long_list b input) (long_list-Ends b input)
                      (λ parts e.
                        let (le, inner) =
                          long_contents b tail parts.0 parts.1 (ground arith) hs e in
                        decode_items-Ends fuel parts.0 inner (omega arith)))
            ]
          ]
        ]
      ]

  decode_items-Ends :
      (fuel : ℕ) (input : List ℕ)
      → AreBytes input
      → length input + length input < fuel
      → Ends (decode_items fuel input)
  decode_items-Ends zero input h enough = absurd (omega arith)
  decode_items-Ends (suc fuel) [] h enough = tt
  decode_items-Ends (suc fuel) (b ∷ bs) h enough =
      Ends-bind (decode_one fuel (b ∷ bs)) _
        (decode_one-Ends fuel (b ∷ bs) h (omega arith) (omega arith))
        (λ d e.
          let whole = decode_one-canonical fuel (b ∷ bs) h e in
          let are_bytes = AreBytes-parts (rlp d.0) d.1 (rw whole h) in
          let size = length-append (rlp d.0) d.1 in
          let total = ap length whole in
          let some_byte = length-rlp d.0 in
          Ends-bind (decode_items fuel d.1) (λ xs. ok (cons d.0 xs))
            (decode_items-Ends fuel d.1 are_bytes.1 (omega arith)) (λ xs e'. tt))

finish_decode-Ends : (stream : Bool) (d : Item × List ℕ) → Ends (finish_decode stream d)
unfolding finish_decode
finish_decode-Ends true d = tt
finish_decode-Ends false d =
    Ends-throw_if (ltb 0 (length d.1)) remainder_not_zero (ok (whole d.0)) (λ q. cc) tt

-- For an array of bytes, decode with or without stream returns or throws one of the errors of the
-- source: it does not run out of the fuel that it gives to the recursion.
pub decode-ends :
    (utf8 : List ℕ → List ℕ) (bs : List ℕ) (stream : Bool)
    → AreBytes bs
    → decode utf8 (raw bs) stream ≢ err out_of_fuel
unfolding decode is_empty to_bytes
decode-ends utf8 [] stream h = λ q. cc
decode-ends utf8 (b ∷ bs) stream h =
    ends (decode_one (enough_fuel (b ∷ bs)) (b ∷ bs) >>= finish_decode stream) (
      Ends-bind (decode_one (enough_fuel (b ∷ bs)) (b ∷ bs)) (finish_decode stream)
        (decode_one-Ends (enough_fuel (b ∷ bs)) (b ∷ bs) h (omega arith) (omega arith))
        (λ d e. finish_decode-Ends stream d))
  where
    ends : (r : Result RlpError Decoded) → Ends r → r ≢ err out_of_fuel
    ends (ok a) h = λ q. cc
    ends (err e) h = λ q. h (ground (arith, q))
