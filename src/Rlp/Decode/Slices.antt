-- ===== src/Rlp/Decode/Slices.antt =====
-- `safeSlice` cuts an input of `_decode` in parts that make the input together.
use tvmjs_monorepo.Prelude.{
  ℕ, ◌+◌, ◌-◌, ◌≤◌, ◌≡◌, refl, sym, ap, ◌∙◌, ◌==◌, ltb, List, [], ◌∷◌, ◌++◌, length, take, drop,
  if◌then◌else◌, ok, arith, Bool-cases, inl, inr, take-append-drop, length-take, length-drop,
  drop-drop, throw_if_ok, take-cons,
}
use tvmjs_monorepo.Util.Bytes.{bigint_to_bytes, AreBytes}
use tvmjs_monorepo.Util.Bytes.Numbers.{AreBytes-parts}
use tvmjs_monorepo.Rlp.Hex.{out_of_bounds}
use tvmjs_monorepo.Rlp.Decode.{safe_slice, decode_length}
use tvmjs_monorepo.Rlp.Decode.Lengths.{decode_length-ok}

-- A slice that is inside, between what is before it and what is after it.
safe_slice_ok :
    (input : List ℕ) (start stop : ℕ) {found : List ℕ}
    → start ≤ stop
    → safe_slice input start stop ≡ ok found
    → (take (stop - start) (drop start input) ≡ found)
      × (length found ≡ stop - start)
      × (take start input ++ (found ++ drop stop input) ≡ input)
unfolding safe_slice
safe_slice_ok input start stop {found} le e =
    let (inside, slice) = throw_if_ok (ltb (length input) stop) out_of_bounds e in
    let within : stop ≤ length input = ground arith in
    let front : take (stop - start) (drop start input) ≡ found = ground (arith, slice) in
    let later = drop-drop stop start (stop - start) input (omega arith) in
    (
      front,
      ap length (sym front)
          ∙ omega (arith, length-take (stop - start) (drop start input), length-drop start input),
      rw (← front, later, take-append-drop (stop - start) (drop start input))
          (take-append-drop start input),
    )

-- A slice after the first byte.
pub first_slice_ok :
    (b : ℕ) (tail : List ℕ) (stop : ℕ) {found : List ℕ}
    → 1 ≤ stop
    → safe_slice (b ∷ tail) 1 stop ≡ ok found
    → (length found ≡ stop - 1) × (found ++ drop stop (b ∷ tail) ≡ tail)
first_slice_ok b tail stop le e =
    let (front, size, parts) = safe_slice_ok (b ∷ tail) 1 stop le e in (size, ap (drop 1) parts)

pub string_slice_ok :
    (b : ℕ) (tail : List ℕ) {found : List ℕ}
    → 128 ≤ b
    → (if b == 128 then ok [] else safe_slice (b ∷ tail) 1 (b - 127)) ≡ ok found
    → (length found ≡ b - 128) × (found ++ drop (b - 127) (b ∷ tail) ≡ tail)
string_slice_ok b tail {found} le e = elim (Bool-cases (b == 128)) [
  | inl empty ↦
      let one : b ≡ 128 = ground arith in
      let nothing : [] ≡ found = ground (arith, e) in rw (← nothing, one) (refl, refl)
  | inr some ↦
      let (size, parts) = first_slice_ok b tail (b - 127) (omega arith) (rw some at e) in
      (omega (arith, size), parts)
]

-- The digits of a length, the contents of that length, and the rest.
abbrev pub IsLong : ℕ → ℕ → List ℕ → List ℕ → List ℕ → Type 0
IsLong b base tail found rest =
    (digits : List ℕ) × (length digits ≡ b - base)
    × (bigint_to_bytes (length found) ≡ digits)
    × (56 ≤ length found)
    × (digits ++ (found ++ rest) ≡ tail)

-- Two slices after the first byte.
pub two_slices_ok :
    (b base : ℕ) (tail : List ℕ) (l n stop : ℕ) {digits found : List ℕ}
    → l ≡ b - base + 1
    → stop ≡ n + l
    → AreBytes tail
    → safe_slice (b ∷ tail) 1 l ≡ ok digits
    → decode_length digits ≡ ok n
    → 56 ≤ n
    → safe_slice (b ∷ tail) l stop ≡ ok found
    → IsLong b base tail found (drop stop (b ∷ tail))
two_slices_ok b base tail l n stop {digits} {found} e e' h first read le second =
    let (front, size, parts) = safe_slice_ok (b ∷ tail) 1 l (omega arith) first in
    let (_, size', parts') = safe_slice_ok (b ∷ tail) l stop (omega arith) second in
    let length_found : length found ≡ n = omega (arith, size') in
    let behind = ap (drop 1) parts in
    let are_bytes : AreBytes (digits ++ drop l (b ∷ tail)) = rw behind h in
    let front' : take l (b ∷ tail) ≡ b ∷ digits =
      take-cons l b tail (omega arith) ∙ ap (λ v. b ∷ v) front in
    (
      digits,
      omega (arith, size),
      ap bigint_to_bytes length_found
          ∙ decode_length-ok digits n (AreBytes-parts digits (drop l (b ∷ tail)) are_bytes).0 read,
      omega arith,
      ap (λ v. drop 1 (v ++ (found ++ drop stop (b ∷ tail)))) (sym front') ∙ ap (drop 1) parts',
    )
