-- ===== src/Rlp/Decode/Backward.antt =====
-- What each branch of `_decode` accepts is contents behind the prefix that the rules write for them.
use tvmjs_monorepo.Prelude.{
  ℕ, ◌+◌, ◌-◌, ◌≤◌, ◌≡◌, refl, ap, ap₂, ◌∙◌, ◌==◌, ltb, leb, ◌&&◌, false, List, [], ◌∷◌, ◌++◌,
  length, get_or, drop, if◌then◌else◌, ok, ◌>>◌, throw_if, arith, append_assoc, bind_ok,
  throw_if_ok, ok_unique,
}
use tvmjs_monorepo.Util.Bytes.{bigint_to_bytes, AreBytes}
use mathlib.Core.Path.{subst}
use tvmjs_monorepo.Rlp.Hex.{
  single_byte_prefixed, no_bytes_for_length, string_too_short, list_too_short,
  total_length_too_large,
}
use tvmjs_monorepo.Rlp.Encode.Rules.{rlp_prefix, stands_alone}
use tvmjs_monorepo.Rlp.Decode.{
  safe_slice, short_string, long_string, short_list, long_list, decode_length,
}
use tvmjs_monorepo.Rlp.Decode.Written.{rlp_prefix-short, rlp_prefix-long}
use tvmjs_monorepo.Rlp.Decode.Slices.{first_slice_ok, string_slice_ok, two_slices_ok, IsLong}

pub short_string_ok :
    (b : ℕ) (tail : List ℕ) {found rest : List ℕ}
    → 128 ≤ b
    → short_string b (b ∷ tail) ≡ ok (found, rest)
    → (stands_alone found ≡ false) × (length found ≡ b - 128) × (found ++ rest ≡ tail)
unfolding short_string
short_string_ok b tail {found} {rest} ge e =
    let (shown, slice, later) =
      bind_ok (if b == 128 then ok [] else safe_slice (b ∷ tail) 1 (b - 127))
        (λ v.
          throw_if (b - 127 == 2 && ltb (get_or v 0 0) 128) single_byte_prefixed
          >> ok (v, drop (b - 127) (b ∷ tail)))
        e in
    let (prefixed, result) =
      throw_if_ok (b - 127 == 2 && ltb (get_or shown 0 0) 128) single_byte_prefixed later in
    finish (string_slice_ok b tail ge slice) prefixed (ok_unique refl result)
  where
    finish :
        {shown after : List ℕ}
        → (length shown ≡ b - 128) × (shown ++ after ≡ tail)
        → (b - 127 == 2 && ltb (get_or shown 0 0) 128) ≡ false
        → ◌≡◌ {A = List ℕ × List ℕ} (shown, after) (found, rest)
        → (stands_alone found ≡ false) × (length found ≡ b - 128) × (found ++ rest ≡ tail)
    finish {shown} {after} (size, parts) prefixed q =
        let same : shown ≡ found = ap (λ r. r.0) q in
        let left : after ≡ rest = ap (λ r. r.1) q in rw (← same, ← left) (ground arith, size, parts)

pub long_string_ok :
    (b : ℕ) (tail : List ℕ) {found rest : List ℕ}
    → 184 ≤ b
    → AreBytes tail
    → long_string b (b ∷ tail) ≡ ok (found, rest)
    → IsLong b 183 tail found rest
unfolding long_string
long_string_ok b tail {found} {rest} ge h e =
    let l = b - 182 in
    let (_, e1) = throw_if_ok (ltb (length (b ∷ tail) - 1) l) no_bytes_for_length e in
    let (digits, first, e2) = bind_ok (safe_slice (b ∷ tail) 1 l) _ e1 in
    let (n, read, e3) = bind_ok (decode_length digits) _ e2 in
    let (long, e4) = throw_if_ok (leb n 55) string_too_short e3 in
    let (shown, second, e5) = bind_ok (safe_slice (b ∷ tail) l (n + l)) _ e4 in
    let parts : ◌≡◌ {A = List ℕ × List ℕ} (shown, drop (n + l) (b ∷ tail)) (found, rest) =
      ok_unique refl e5 in
    subst (λ r. IsLong b 183 tail r.0 r.1) parts
      (two_slices_ok b 183 tail l n (n + l) (omega arith) refl h first read (ground arith) second)

pub short_list_ok :
    (b : ℕ) (tail : List ℕ) {found rest : List ℕ}
    → 192 ≤ b
    → short_list b (b ∷ tail) ≡ ok (found, rest)
    → (length found ≡ b - 192) × (found ++ rest ≡ tail)
unfolding short_list
short_list_ok b tail {found} {rest} ge e =
    let (shown, slice, e') = bind_ok (safe_slice (b ∷ tail) 1 (b - 191)) _ e in
    let (size, parts) = first_slice_ok b tail (b - 191) (omega arith) slice in
    let same : ◌≡◌ {A = List ℕ × List ℕ} (shown, drop (b - 191) (b ∷ tail)) (found, rest) =
      ok_unique refl e' in
    subst (λ r. (length r.0 ≡ b - 192) × (r.0 ++ r.1 ≡ tail)) same (omega (arith, size), parts)

pub long_list_ok :
    (b : ℕ) (tail : List ℕ) {found rest : List ℕ}
    → 248 ≤ b
    → AreBytes tail
    → long_list b (b ∷ tail) ≡ ok (found, rest)
    → IsLong b 247 tail found rest
unfolding long_list
long_list_ok b tail {found} {rest} ge h e =
    let l = b - 246 in
    let (digits, first, e2) = bind_ok (safe_slice (b ∷ tail) 1 l) _ e in
    let (n, read, e3) = bind_ok (decode_length digits) _ e2 in
    let (long, e4) = throw_if_ok (ltb n 56) list_too_short e3 in
    let (fits, e5) = throw_if_ok (ltb (length (b ∷ tail)) (l + n)) total_length_too_large e4 in
    let (shown, second, e6) = bind_ok (safe_slice (b ∷ tail) l (l + n)) _ e5 in
    let parts : ◌≡◌ {A = List ℕ × List ℕ} (shown, drop (l + n) (b ∷ tail)) (found, rest) =
      ok_unique refl e6 in
    subst (λ r. IsLong b 247 tail r.0 r.1) parts
      (two_slices_ok b 247 tail l n (l + n) (omega arith) (omega arith) h first read (ground arith)
        second)

-- What was read is behind the prefix that the rules write.
pub IsLong-rlp_prefix :
    (b offset : ℕ) (tail found rest : List ℕ)
    → offset + 56 ≤ b
    → b ≤ offset + 63
    → offset ≤ 192
    → IsLong b (offset + 55) tail found rest
    → (rlp_prefix offset (length found) ++ found) ++ rest ≡ b ∷ tail
IsLong-rlp_prefix b offset tail found rest ge le limit (digits, size, shown, long, parts) =
    let few : length (bigint_to_bytes (length found)) ≤ 8 = omega (arith, ap length shown) in
    let first : length (bigint_to_bytes (length found)) + (offset + 55) ≡ b =
      omega (arith, ap length shown) in
    let prefix : rlp_prefix offset (length found) ≡ b ∷ digits =
      rlp_prefix-long offset (length found) long few limit
      ∙ ap₂ (λ (c : ℕ) (ds : List ℕ). c ∷ ds) first shown in
    ap (λ v. (v ++ found) ++ rest) prefix
    ∙ append_assoc (b ∷ digits) found rest
    ∙ ap (λ v. b ∷ v) parts

pub short-rlp_prefix :
    (b offset : ℕ) (tail found rest : List ℕ)
    → offset ≤ b
    → b ≤ offset + 55
    → length found ≡ b - offset
    → found ++ rest ≡ tail
    → (rlp_prefix offset (length found) ++ found) ++ rest ≡ b ∷ tail
short-rlp_prefix b offset tail found rest ge le size parts =
    ap (λ v. (v ++ found) ++ rest) (rlp_prefix-short offset (length found) (omega arith))
    ∙ ap₂ (λ (c : ℕ) (ds : List ℕ). c ∷ ds) (omega arith) parts
