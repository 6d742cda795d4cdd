-- ===== src/Rlp/Decode/Written.antt =====
-- `_decode` of packages/rlp/src/index.ts on strings and lists as the rules write them.
use tvmjs_monorepo.Prelude.{
  ℕ, suc, ◌+◌, ◌^◌, ◌≤◌, ◌<◌, ◌≡◌, ◌≢◌, refl, ap, ltb, leb, true, false, List, [], ◌∷◌, ◌++◌,
  length, ok, arith, Bool-cases, inl, inr, append_assoc,
}
use tvmjs_monorepo.Util.Bytes.{digits_from, bigint_to_bytes}
use tvmjs_monorepo.Util.Bytes.Numbers.{length-bigint_to_bytes}
use tvmjs_monorepo.Util.Bytes.Leading.{bigint_to_bytes-IsLed, IsLed}
use tvmjs_monorepo.Rlp.Item.{Items, bytes, list}
use tvmjs_monorepo.Rlp.Encode.Rules.{rlp_items, rlp_prefix, rlp_bytes, stands_alone}
use tvmjs_monorepo.Rlp.Decode.{
  decode_one, decode_items, short_string, long_string, short_list, long_list,
}
use tvmjs_monorepo.Rlp.Decode.Forward.{
  short_string-forward, long_string-forward, short_list-forward, long_list-forward,
}

-- A length below 2 ^ 53 is written in at most eight bytes, and in at least one.
pub length_digits :
    (n : ℕ)
    → n < 2 ^ 53
    → n ≢ 0
    → (length (bigint_to_bytes n) ≤ 8) × (1 ≤ length (bigint_to_bytes n))
length_digits n small ne = (
  length-bigint_to_bytes n 7 (omega arith),
  some_digit (bigint_to_bytes n) (bigint_to_bytes-IsLed n ne),
)
  where
    some_digit : (v : List ℕ) → IsLed v → 1 ≤ length v
    some_digit [] led = absurd led
    some_digit (b ∷ bs) led = omega arith

pub rlp_prefix-short : (offset n : ℕ) → n < 56 → rlp_prefix offset n ≡ (n + offset) ∷ []
unfolding rlp_prefix
rlp_prefix-short offset n small = ground arith

pub rlp_prefix-long :
    (offset n : ℕ)
    → 56 ≤ n
    → length (bigint_to_bytes n) ≤ 8
    → offset ≤ 192
    → rlp_prefix offset n ≡ (length (bigint_to_bytes n) + (offset + 55)) ∷ bigint_to_bytes n
unfolding rlp_prefix
rlp_prefix-long offset n big few limit =
    let long : ltb n 56 ≡ false = ground arith in
    let sum : offset + 55 + length (bigint_to_bytes n)
        ≡ length (bigint_to_bytes n) + (offset + 55) =
      omega arith in
    rw (long, sum) (ap (λ front. front ++ bigint_to_bytes n) (one_byte _ (omega arith)))
  where
    one_byte : (b : ℕ) → b < 256 → bigint_to_bytes b ≡ b ∷ []
    one_byte b h = unfold bigint_to_bytes digits_from in ground arith

module _ (fuel b : ℕ) (tail found rest : List ℕ) where
  decode_one-byte : b < 128 → decode_one (suc fuel) (b ∷ tail) ≡ ok (bytes (b ∷ []), tail)
  unfolding decode_one
  decode_one-byte h = let q : leb b 127 ≡ true = ground arith in rw q refl

  decode_one-short_string :
      128 ≤ b
      → b ≤ 183
      → short_string b (b ∷ tail) ≡ ok (found, rest)
      → decode_one (suc fuel) (b ∷ tail) ≡ ok (bytes found, rest)
  unfolding decode_one
  decode_one-short_string h k e =
      let q1 : leb b 127 ≡ false = ground arith in
      let q2 : leb b 183 ≡ true = ground arith in rw (q1, q2, e) refl

  decode_one-long_string :
      184 ≤ b
      → b ≤ 191
      → long_string b (b ∷ tail) ≡ ok (found, rest)
      → decode_one (suc fuel) (b ∷ tail) ≡ ok (bytes found, rest)
  unfolding decode_one
  decode_one-long_string h k e =
      let q1 : leb b 127 ≡ false = ground arith in
      let q2 : leb b 183 ≡ false = ground arith in
      let q3 : leb b 191 ≡ true = ground arith in rw (q1, q2, q3, e) refl

  decode_one-short_list :
      {xs : Items}
      → 192 ≤ b
      → b ≤ 247
      → short_list b (b ∷ tail) ≡ ok (found, rest)
      → decode_items fuel found ≡ ok xs
      → decode_one (suc fuel) (b ∷ tail) ≡ ok (list xs, rest)
  unfolding decode_one
  decode_one-short_list h k e later =
      let q1 : leb b 127 ≡ false = ground arith in
      let q2 : leb b 183 ≡ false = ground arith in
      let q3 : leb b 191 ≡ false = ground arith in
      let q4 : leb b 247 ≡ true = ground arith in rw (q1, q2, q3, q4, e, later) refl

  decode_one-long_list :
      {xs : Items}
      → 248 ≤ b
      → long_list b (b ∷ tail) ≡ ok (found, rest)
      → decode_items fuel found ≡ ok xs
      → decode_one (suc fuel) (b ∷ tail) ≡ ok (list xs, rest)
  unfolding decode_one
  decode_one-long_list h e later =
      let q1 : leb b 127 ≡ false = ground arith in
      let q2 : leb b 183 ≡ false = ground arith in
      let q3 : leb b 191 ≡ false = ground arith in
      let q4 : leb b 247 ≡ false = ground arith in rw (q1, q2, q3, q4, e, later) refl

pub decode_one-rlp_bytes :
    (fuel : ℕ) (bs rest : List ℕ)
    → length bs < 2 ^ 53
    → decode_one (suc fuel) (rlp_bytes bs ++ rest) ≡ ok (bytes bs, rest)
unfolding rlp_bytes
decode_one-rlp_bytes fuel bs rest small = elim (Bool-cases (stands_alone bs)) [
  | inl alone ↦ rw alone (single bs alone)
  | inr prefixed ↦ rw prefixed (elim (Bool-cases (ltb (length bs) 56)) [
    | inl short ↦
        let lt : length bs < 56 = ground arith in
        let b = length bs + 128 in
        rw (rlp_prefix-short 128 (length bs) lt) (
          decode_one-short_string fuel b (bs ++ rest) bs rest (omega arith) (omega arith)
            (short_string-forward b bs rest refl prefixed))
    | inr long ↦
        let le : 56 ≤ length bs = ground arith in
        let digits = bigint_to_bytes (length bs) in
        let (few, some_digits) = length_digits (length bs) small (λ e. absurd (omega arith)) in
        let b = length digits + 183 in
        rw (rlp_prefix-long 128 (length bs) le few (omega arith), append_assoc (b ∷ digits) bs rest)
          (decode_one-long_string fuel b (digits ++ (bs ++ rest)) bs rest (omega arith)
            (omega arith) (long_string-forward b digits bs rest refl le refl))
  ])
]
  where
    single :
        (bs : List ℕ)
        → stands_alone bs ≡ true
        → decode_one (suc fuel) (bs ++ rest) ≡ ok (bytes bs, rest)
    single [] e = cc
    single (c ∷ []) e = decode_one-byte fuel c rest [] [] (ground arith)
    single (c ∷ d ∷ bs) e = absurd (ground arith)

pub decode_one-list :
    (fuel : ℕ) (xs : Items) (rest : List ℕ)
    → length (rlp_items xs) < 2 ^ 53
    → decode_items fuel (rlp_items xs) ≡ ok xs
    → decode_one (suc fuel) ((rlp_prefix 192 (length (rlp_items xs)) ++ rlp_items xs) ++ rest)
      ≡ ok (list xs, rest)
decode_one-list fuel xs rest small later =
    let inner = rlp_items xs in
    elim (Bool-cases (ltb (length (rlp_items xs)) 56)) [
      | inl short ↦
          let b = length inner + 192 in
          let lt : length inner < 56 = ground arith in
          rw (rlp_prefix-short 192 (length inner) lt) (
            decode_one-short_list fuel b (inner ++ rest) inner rest (omega arith) (omega arith)
              (short_list-forward b inner rest refl) later)
      | inr long ↦
          let le : 56 ≤ length inner = ground arith in
          let digits = bigint_to_bytes (length inner) in
          let b = length digits + 247 in
          let (few, some_digits) = length_digits (length inner) small (λ e. absurd (omega arith)) in
          rw
            (
              rlp_prefix-long 192 (length inner) le few (omega arith),
              append_assoc (b ∷ digits) inner rest,
            )
            (decode_one-long_list fuel b (digits ++ (inner ++ rest)) inner rest (omega arith)
              (long_list-forward b digits inner rest refl le refl) later)
    ]
