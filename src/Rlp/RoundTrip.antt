-- ===== src/Rlp/RoundTrip.antt =====
-- packages/rlp/src/index.ts: `decode` after `encode`.
use tvmjs_monorepo.Prelude.{
  ℕ, zero, suc, ◌+◌, ◌^◌, ◌≤◌, ◌<◌, ◌≡◌, refl, sym, ap, ◌∙◌, ltb, Bool, true, false, List, [], ◌∷◌,
  ◌++◌, length, ok, ok_unique, arith, Bool-cases, inl, inr, length-append, append-nil,
}
use tvmjs_monorepo.Util.Bytes.{bigint_to_bytes}
use tvmjs_monorepo.Util.Bytes.Leading.{bigint_to_bytes-nonempty}
use tvmjs_monorepo.Rlp.Item.{Item, Items, bytes, list, nil, cons, raw, to_bytes}
use tvmjs_monorepo.Rlp.Encode.{encode}
use tvmjs_monorepo.Rlp.Encode.Rules.{
  rlp, rlp_items, rlp_prefix, rlp_bytes, stands_alone, input_of, encode-rlp,
}
use tvmjs_monorepo.Rlp.Decode.{
  decode_one, decode_items, whole, streamed, decode, enough_fuel, finish_decode, is_empty,
}
use tvmjs_monorepo.Rlp.Decode.Written.{decode_one-rlp_bytes, decode_one-list}

length-rlp_prefix : (offset n : ℕ) → 1 ≤ length (rlp_prefix offset n)
unfolding rlp_prefix
length-rlp_prefix offset n = elim (Bool-cases (ltb n 56)) [
  | inl short ↦ rw short (omega arith)
  | inr long ↦
      let len = bigint_to_bytes n in
      let first = bigint_to_bytes (offset + 55 + length len) in
      rw long (omega (arith, length-append first len, bigint_to_bytes-nonempty n))
]

pub length-rlp : (x : Item) → 1 ≤ length (rlp x)
unfolding rlp rlp_bytes
length-rlp (bytes bs) = elim (Bool-cases (stands_alone bs)) [
  | inl alone ↦ rw alone (ground arith)
  | inr prefixed ↦ rw prefixed (
      omega
        (arith, length-append (rlp_prefix 128 (length bs)) bs, length-rlp_prefix 128 (length bs)))
]
length-rlp (list xs) =
    let n = length (rlp_items xs) in
    omega (arith, length-append (rlp_prefix 192 n) (rlp_items xs), length-rlp_prefix 192 n)

bytes-le : (bs : List ℕ) → length bs ≤ length (rlp_bytes bs)
unfolding rlp_bytes
bytes-le bs = elim (Bool-cases (stands_alone bs)) [
  | inl alone ↦ rw alone (omega arith)
  | inr prefixed ↦ rw prefixed (omega (arith, length-append (rlp_prefix 128 (length bs)) bs))
]

decode_items-cons :
    (fuel : ℕ) (input rest : List ℕ) {x : Item} {xs : Items}
    → 1 ≤ length input
    → decode_one fuel input ≡ ok (x, rest)
    → decode_items fuel rest ≡ ok xs
    → decode_items (suc fuel) input ≡ ok (cons x xs)
unfolding decode_items
decode_items-cons fuel [] rest some_byte e later = absurd (omega arith)
decode_items-cons fuel (b ∷ bs) rest some_byte e later = rw (e, later) refl

list_inner-lt : (n : ℕ) (inner : List ℕ) → length inner < length (rlp_prefix 192 n ++ inner)
list_inner-lt n inner =
    omega (arith, length-append (rlp_prefix 192 n) inner, length-rlp_prefix 192 n)

-- Twice the length is fuel enough to read an item.
mutual
  unfolding rlp decode_items

  decode_one-rlp :
      (fuel : ℕ) (x : Item) (rest : List ℕ)
      → length (rlp x) < 2 ^ 53
      → length (rlp x) + length (rlp x) ≤ fuel
      → decode_one fuel (rlp x ++ rest) ≡ ok (x, rest)
  decode_one-rlp zero x rest small enough = absurd (omega (arith, length-rlp x))
  decode_one-rlp (suc fuel) (bytes bs) rest small enough =
      decode_one-rlp_bytes fuel bs rest (omega (arith, bytes-le bs))
  decode_one-rlp (suc fuel) (list xs) rest small enough =
      let lt = list_inner-lt (length (rlp_items xs)) (rlp_items xs) in
      decode_one-list fuel xs rest (omega arith)
        (decode_items-rlp_items fuel xs (omega arith) (omega arith))

  decode_items-rlp_items :
      (fuel : ℕ) (xs : Items)
      → length (rlp_items xs) < 2 ^ 53
      → length (rlp_items xs) + length (rlp_items xs) < fuel
      → decode_items fuel (rlp_items xs) ≡ ok xs
  decode_items-rlp_items zero xs small enough = absurd (omega arith)
  decode_items-rlp_items (suc fuel) nil small enough = refl
  decode_items-rlp_items (suc fuel) (cons x xs) small enough =
      let size = length-append (rlp x) (rlp_items xs) in
      let some_byte = length-rlp x in
      decode_items-cons fuel (rlp x ++ rlp_items xs) (rlp_items xs) (omega arith)
        (decode_one-rlp fuel x (rlp_items xs) (omega arith) (omega arith))
        (decode_items-rlp_items fuel xs (omega arith) (omega arith))

decode-raw :
    (utf8 : List ℕ → List ℕ) (input rest : List ℕ) (stream : Bool) (x : Item)
    → 1 ≤ length input
    → decode_one (enough_fuel input) input ≡ ok (x, rest)
    → decode utf8 (raw input) stream ≡ finish_decode stream (x, rest)
unfolding decode is_empty to_bytes
decode-raw utf8 [] rest stream x some_byte e = absurd (omega arith)
decode-raw utf8 (b ∷ bs) rest stream x some_byte e = rw e refl

-- What encode returns for an item of nested byte arrays, when it is shorter than 2 ^ 53 bytes,
-- decode reads as that item; with stream set and bytes after it, decode returns the item and the
-- bytes.
pub decode-encode :
    (utf8 : List ℕ → List ℕ) (x : Item) (bs rest : List ℕ)
    → encode utf8 (input_of x) ≡ ok bs
    → length bs < 2 ^ 53
    → (decode utf8 (raw bs) false ≡ ok (whole x))
      × (decode utf8 (raw (bs ++ rest)) true ≡ ok (streamed x rest))
decode-encode utf8 x bs rest e small =
    let shown : rlp x ≡ bs = ok_unique (encode-rlp utf8 x) e in
    let size = length-append bs rest in
    let some_byte : 1 ≤ length bs = rw (← shown) (length-rlp x) in
    let read : (later : List ℕ) (fuel : ℕ)
        → length bs + length bs ≤ fuel
        → decode_one fuel (bs ++ later) ≡ ok (x, later) =
      rw (← shown) (λ later fuel h. decode_one-rlp fuel x later (rw shown small) h) in
    let alone =
      ap (decode_one (enough_fuel bs)) (sym (append-nil bs))
      ∙ read [] (enough_fuel bs) (omega arith) in
    let stream = read rest (enough_fuel (bs ++ rest)) (omega arith) in
    (
      decode-raw utf8 bs [] false x some_byte alone ∙ (unfold finish_decode in refl),
      decode-raw utf8 (bs ++ rest) rest true x (omega arith) stream
          ∙ (unfold finish_decode in refl),
    )
