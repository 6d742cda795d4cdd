-- ===== src/Rlp/Decode/Forward.antt =====
-- Each branch of `_decode` on contents behind the prefix that the rules write for them.
use tvmjs_monorepo.Prelude.{
  ℕ, ◌+◌, ◌-◌, ◌≤◌, ◌≡◌, refl, sym, ap, ◌∙◌, ◌==◌, ltb, leb, ◌&&◌, false, List, [], ◌∷◌, ◌++◌,
  length, get_or, if◌then◌else◌, ok, arith, Bool-cases, inl, inr, length-append, take-append,
  drop-append, drop-append_two, nil_of_length,
}
use tvmjs_monorepo.Util.Bytes.{bigint_to_bytes}
use tvmjs_monorepo.Rlp.Encode.Rules.{stands_alone}
use tvmjs_monorepo.Rlp.Decode.{
  safe_slice, short_string, long_string, short_list, long_list, decode_length,
}
use tvmjs_monorepo.Rlp.Decode.Lengths.{decode_length-bigint_to_bytes}

-- A slice between two others.
safe_slice-append :
    (front xs ys : List ℕ) (start stop : ℕ)
    → start ≡ length front
    → stop ≡ length front + length xs
    → safe_slice (front ++ (xs ++ ys)) start stop ≡ ok xs
unfolding safe_slice
safe_slice-append front xs ys start stop e h =
    let size = length-append front (xs ++ ys) in
    let inner = length-append xs ys in
    let inside : ltb (length (front ++ (xs ++ ys))) stop ≡ false = ground arith in
    rw (inside, drop-append start front (xs ++ ys) e)
      (ap ok (take-append (stop - start) xs ys (omega arith)))

pub short_string-forward :
    (b : ℕ) (bs rest : List ℕ)
    → b ≡ length bs + 128
    → stands_alone bs ≡ false
    → short_string b (b ∷ bs ++ rest) ≡ ok (bs, rest)
unfolding short_string
short_string-forward b bs rest e plain =
    let slice = safe_slice-append (b ∷ []) bs rest 1 (b - 127) refl (omega arith) in
    let after = drop-append (b - 127) (b ∷ bs) rest (omega arith) in
    let found : (if b == 128 then ok [] else safe_slice (b ∷ bs ++ rest) 1 (b - 127)) ≡ ok bs =
      elim (Bool-cases (b == 128)) [
        | inl none ↦ rw none (ap ok (sym (nil_of_length bs (ground arith))))
        | inr some ↦ rw some slice
      ] in
    let long : (b - 127 == 2 && ltb (get_or bs 0 0) 128) ≡ false = ground arith in
    rw (found, long, after) refl

pub long_string-forward :
    (b : ℕ) (digits bs rest : List ℕ)
    → b ≡ length digits + 183
    → 56 ≤ length bs
    → bigint_to_bytes (length bs) ≡ digits
    → long_string b (b ∷ digits ++ (bs ++ rest)) ≡ ok (bs, rest)
unfolding long_string
long_string-forward b digits bs rest e big shown =
    let slice = safe_slice-append (b ∷ []) digits (bs ++ rest) 1 (b - 182) refl (omega arith) in
    let inner =
      safe_slice-append (b ∷ digits) bs rest (b - 182) (length bs + (b - 182)) (omega arith)
        (omega arith) in
    let after = drop-append_two (length bs + (b - 182)) (b ∷ digits) bs rest (omega arith) in
    let size = length-append digits (bs ++ rest) in
    let size_rest = length-append bs rest in
    let enough : ltb (length (b ∷ digits ++ (bs ++ rest)) - 1) (b - 182) ≡ false = ground arith in
    let long : leb (length bs) 55 ≡ false = ground arith in
    let read =
      ap decode_length (sym shown)
      ∙ decode_length-bigint_to_bytes (length bs) (λ z. absurd (omega arith)) in
    rw (enough, slice, read, long, inner, after) refl

pub short_list-forward :
    (b : ℕ) (bs rest : List ℕ) → b ≡ length bs + 192 → short_list b (b ∷ bs ++ rest) ≡ ok (bs, rest)
unfolding short_list
short_list-forward b bs rest e =
    let slice = safe_slice-append (b ∷ []) bs rest 1 (b - 191) refl (omega arith) in
    let after = drop-append (b - 191) (b ∷ bs) rest (omega arith) in rw (slice, after) refl

pub long_list-forward :
    (b : ℕ) (digits bs rest : List ℕ)
    → b ≡ length digits + 247
    → 56 ≤ length bs
    → bigint_to_bytes (length bs) ≡ digits
    → long_list b (b ∷ digits ++ (bs ++ rest)) ≡ ok (bs, rest)
unfolding long_list
long_list-forward b digits bs rest e big shown =
    let slice = safe_slice-append (b ∷ []) digits (bs ++ rest) 1 (b - 246) refl (omega arith) in
    let inner =
      safe_slice-append (b ∷ digits) bs rest (b - 246) (b - 246 + length bs) (omega arith)
        (omega arith) in
    let after = drop-append_two (b - 246 + length bs) (b ∷ digits) bs rest (omega arith) in
    let size = length-append digits (bs ++ rest) in
    let size_rest = length-append bs rest in
    let fits : ltb (length (b ∷ digits ++ (bs ++ rest))) (b - 246 + length bs) ≡ false =
      ground arith in
    let long : ltb (length bs) 56 ≡ false = ground arith in
    let read =
      ap decode_length (sym shown)
      ∙ decode_length-bigint_to_bytes (length bs) (λ z. absurd (omega arith)) in
    rw (slice, read, long, inner, fits, after) refl
