-- ===== src/Rlp/Canonical.antt =====
-- packages/rlp/src/index.ts: `decode` accepts nothing but what `encode` writes.
use tvmjs_monorepo.Prelude.{
  ℕ, zero, suc, ◌≤◌, ◌≡◌, refl, sym, ap, ◌∙◌, ltb, leb, true, false, List, [], ◌∷◌, ◌++◌, length,
  Result, ok, err, ok_unique, ◌>>=◌, arith, Bool-cases, inl, inr, append-nil, bind_ok, throw_if_ok,
  nil_of_length,
}
use tvmjs_monorepo.Util.Bytes.{AreBytes}
use tvmjs_monorepo.Util.Bytes.Numbers.{AreBytes-parts}
use tvmjs_monorepo.Rlp.Hex.{RlpError, remainder_not_zero}
use tvmjs_monorepo.Rlp.Item.{Item, Items, bytes, list, raw, to_bytes}
use tvmjs_monorepo.Rlp.Encode.{encode}
use tvmjs_monorepo.Rlp.Encode.Rules.{
  rlp, rlp_items, rlp_prefix, rlp_bytes, stands_alone, input_of, encode-rlp,
}
use tvmjs_monorepo.Rlp.Decode.{
  decode_one, decode_items, short_string, long_string, short_list, long_list, whole, decode,
  enough_fuel, finish_decode, is_empty,
}
use tvmjs_monorepo.Rlp.Decode.Backward.{
  IsLong-rlp_prefix, short-rlp_prefix, short_string_ok, long_string_ok, short_list_ok, long_list_ok,
}

abbrev as_string : List ℕ × List ℕ → Result RlpError (Item × List ℕ)
as_string parts = ok (bytes parts.0, parts.1)

abbrev as_list : List ℕ → Items → Result RlpError (Item × List ℕ)
as_list rest xs = ok (list xs, rest)

-- A string was read.
pub string_read :
    (r : Result RlpError (List ℕ × List ℕ)) {x : Item} {rest : List ℕ}
    → (r >>= as_string) ≡ ok (x, rest)
    → (found : List ℕ) × (r ≡ ok (found, rest)) × (x ≡ bytes found)
string_read (err e) q = cc
string_read (ok (found, after)) {x} {rest} q =
    let parts : ◌≡◌ {A = Item × List ℕ} (bytes found, after) (x, rest) = ok_unique refl q in
    (found, ap (λ y. ok (found, y)) (ap (λ y. y.1) parts), sym (ap (λ y. y.0) parts))

-- A list was read, and its elements from its contents.
pub list_read :
    (items : List ℕ → Result RlpError Items) (r : Result RlpError (List ℕ × List ℕ)) {x : Item}
    {rest : List ℕ}
    → (r >>= λ parts. items parts.0 >>= as_list parts.1) ≡ ok (x, rest)
    → (found : List ℕ) × (xs : Items) × (r ≡ ok (found, rest))
      × (items found ≡ ok xs)
      × (x ≡ list xs)
list_read items (err e) q = cc
list_read items (ok (found, after)) {x} {rest} q =
    let (xs, e, later) = bind_ok (items found) (as_list after) q in
    let parts : ◌≡◌ {A = Item × List ℕ} (list xs, after) (x, rest) = ok_unique refl later in
    (found, xs, ap (λ y. ok (found, y)) (ap (λ y. y.1) parts), e, sym (ap (λ y. y.0) parts))

-- The rules for a string with a prefix.
rlp_bytes-prefixed :
    (bs : List ℕ) → stands_alone bs ≡ false → rlp_bytes bs ≡ rlp_prefix 128 (length bs) ++ bs
unfolding rlp_bytes
rlp_bytes-prefixed bs e = rw e refl

not_alone : (bs : List ℕ) → 56 ≤ length bs → stands_alone bs ≡ false
not_alone bs h = ground arith

list_canonical :
    (b : ℕ) (tail found rest : List ℕ) (xs : Items)
    → (rlp_prefix 192 (length found) ++ found) ++ rest ≡ b ∷ tail
    → rlp_items xs ≡ found
    → rlp (list xs) ++ rest ≡ b ∷ tail
unfolding rlp
list_canonical b tail found rest xs parts inner = rw (← inner) at parts

string_canonical :
    (b : ℕ) (tail found rest : List ℕ)
    → stands_alone found ≡ false
    → (rlp_prefix 128 (length found) ++ found) ++ rest ≡ b ∷ tail
    → rlp (bytes found) ++ rest ≡ b ∷ tail
unfolding rlp
string_canonical b tail found rest prefixed parts =
    ap (λ v. v ++ rest) (rlp_bytes-prefixed found prefixed) ∙ parts

-- The branches of a string.
strings_canonical :
    (fuel b : ℕ) (tail : List ℕ) {x : Item} {rest : List ℕ}
    → AreBytes tail
    → leb b 191 ≡ true
    → decode_one (suc fuel) (b ∷ tail) ≡ ok (x, rest)
    → rlp x ++ rest ≡ b ∷ tail
unfolding decode_one
strings_canonical fuel b tail {x} {rest} h low e = elim (Bool-cases (leb b 127)) [
  | inl byte ↦
      let parts : ◌≡◌ {A = Item × List ℕ} (bytes (b ∷ []), tail) (x, rest) =
        ok_unique refl (rw byte at e) in
      rw (← ap (λ y. y.0) parts, ← ap (λ y. y.1) parts) (unfold rlp rlp_bytes in ground arith)
  | inr other ↦ elim (Bool-cases (leb b 183)) [
    | inl short ↦
        let (found, slice, shown) =
          string_read (short_string b (b ∷ tail)) (rw (other, short) at e) in
        let (prefixed, size, parts) = short_string_ok b tail (ground arith) slice in
        rw shown (
          string_canonical b tail found rest prefixed
            (short-rlp_prefix b 128 tail found rest (ground arith) (ground arith) size parts))
    | inr long ↦
        let (found, slice, shown) =
          string_read (long_string b (b ∷ tail)) (rw (other, long, low) at e) in
        let is_long = long_string_ok b tail (ground arith) h slice in
        rw shown (
          string_canonical b tail found rest (not_alone found is_long.3) (
            IsLong-rlp_prefix b 128 tail found rest (ground arith) (ground arith) (omega arith)
              is_long))
  ]
]

mutual
  unfolding decode_one decode_items rlp

  pub decode_one-canonical :
      (fuel : ℕ) (input : List ℕ) {x : Item} {rest : List ℕ}
      → AreBytes input
      → decode_one fuel input ≡ ok (x, rest)
      → rlp x ++ rest ≡ input
  decode_one-canonical zero input h e = cc
  decode_one-canonical (suc fuel) [] h e = cc
  decode_one-canonical (suc fuel) (b ∷ tail) {x} {rest} (hb, hs) e = elim (Bool-cases (leb b 191)) [
    | inl string ↦ strings_canonical fuel b tail hs string e
    | inr other ↦
        let q1 : leb b 127 ≡ false = ground arith in
        let q2 : leb b 183 ≡ false = ground arith in
        elim (Bool-cases (leb b 247)) [
          | inl short ↦
              let (found, xs, slice, items, shown) =
                list_read (decode_items fuel) (short_list b (b ∷ tail))
                  (rw (q1, q2, other, short) at e) in
              let (size, parts) = short_list_ok b tail (ground arith) slice in
              let are_bytes = AreBytes-parts found rest (rw parts hs) in
              rw shown (
                list_canonical b tail found rest xs
                  (short-rlp_prefix b 192 tail found rest (ground arith) (ground arith) size parts)
                  (decode_items-canonical fuel found are_bytes.0 items))
          | inr long ↦
              let (found, xs, slice, items, shown) =
                list_read (decode_items fuel) (long_list b (b ∷ tail))
                  (rw (q1, q2, other, long) at e) in
              let is_long = long_list_ok b tail (ground arith) hs slice in
              let inner = AreBytes-parts is_long.0 (found ++ rest) (rw is_long.4 hs) in
              let are_bytes = AreBytes-parts found rest inner.1 in
              rw shown (
                list_canonical b tail found rest xs
                  (IsLong-rlp_prefix b 192 tail found rest (ground arith) (ground arith)
                    (omega arith) is_long)
                  (decode_items-canonical fuel found are_bytes.0 items))
        ]
  ]

  decode_items-canonical :
      (fuel : ℕ) (input : List ℕ) {xs : Items}
      → AreBytes input
      → decode_items fuel input ≡ ok xs
      → rlp_items xs ≡ input
  decode_items-canonical zero input h e = cc
  decode_items-canonical (suc fuel) [] h e = rw (← ok_unique refl e) refl
  decode_items-canonical (suc fuel) (b ∷ bs) {xs} h e =
      let (d, first, e') = bind_ok (decode_one fuel (b ∷ bs)) _ e in
      let (ys, later, e'') = bind_ok (decode_items fuel d.1) _ e' in
      let whole = decode_one-canonical fuel (b ∷ bs) h first in
      let are_bytes = AreBytes-parts (rlp d.0) d.1 (rw whole h) in
      let rest = decode_items-canonical fuel d.1 are_bytes.1 later in
      rw (← ok_unique refl e'') (ap (λ v. rlp d.0 ++ v) rest ∙ whole)

-- Where decode without stream reads an array of bytes that is not empty as an item, encode returns
-- that array for that item: each item has one encoding.
pub encode-decode :
    (utf8 : List ℕ → List ℕ) (b : ℕ) (bs : List ℕ) (x : Item)
    → AreBytes (b ∷ bs)
    → decode utf8 (raw (b ∷ bs)) false ≡ ok (whole x)
    → encode utf8 (input_of x) ≡ ok (b ∷ bs)
unfolding decode is_empty to_bytes finish_decode
encode-decode utf8 b bs x h e =
    let (d, read, e') = bind_ok (decode_one (enough_fuel (b ∷ bs)) (b ∷ bs)) _ e in
    let (no_rest, e'') = throw_if_ok (ltb 0 (length d.1)) remainder_not_zero e' in
    let result : whole d.0 ≡ whole x = ok_unique refl e'' in
    let same : d.0 ≡ x = ground (arith, result) in
    let nothing : d.1 ≡ [] = nil_of_length d.1 (ground arith) in
    let written = decode_one-canonical (enough_fuel (b ∷ bs)) (b ∷ bs) h read in
    encode-rlp utf8 x
    ∙ ap ok (
        ap rlp (sym same)
        ∙ sym (append-nil (rlp d.0))
        ∙ ap (λ v. rlp d.0 ++ v) (sym nothing)
        ∙ written)
