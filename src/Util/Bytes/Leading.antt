-- ===== src/Util/Bytes/Leading.antt =====
-- Bytes without a leading zero are the bytes of their number.
use tvmjs_monorepo.Prelude.{
  ℕ, zero, suc, ◌+◌, ◌*◌, ◌/◌, ◌%◌, ◌<◌, ◌≡◌, ◌≢◌, refl, sym, ap, ◌∙◌, List, [], ◌∷◌, ◌++◌,
  append_assoc, append-nil, ltb, arith, ◌≤◌, length, length-append, false, Bool-cases, inl, inr,
}
use tvmjs_monorepo.Util.Bytes.{
  AreBytes, IsByte, value_from, bytes_to_bigint, digits_from, bigint_to_bytes,
}

abbrev pub IsLed : List ℕ → Type 0
IsLed [] = ⊥
IsLed (b ∷ bs) = b ≢ 0

IsLed-append : (xs ys : List ℕ) → IsLed xs → IsLed (xs ++ ys)
IsLed-append [] ys h = absurd h
IsLed-append (x ∷ xs) ys h = h

digits_from-IsLed : (fuel n : ℕ) → n < fuel → n ≢ 0 → IsLed (digits_from fuel n)
unfolding digits_from
digits_from-IsLed zero n h ne = elim h [ ]
digits_from-IsLed (suc fuel) n h ne = elim (Bool-cases (ltb n 256)) [
  | inl small ↦ rw small ne
  | inr large ↦
      let higher : n / 256 ≢ 0 = λ e. absurd (ground arith) in
      rw large (
        IsLed-append (digits_from fuel (n / 256)) (n % 256 ∷ [])
          (digits_from-IsLed fuel (n / 256) (ground arith) higher))
]

-- The highest byte of a positive number is not zero.
pub bigint_to_bytes-IsLed : (n : ℕ) → n ≢ 0 → IsLed (bigint_to_bytes n)
unfolding bigint_to_bytes
bigint_to_bytes-IsLed n ne = digits_from-IsLed (suc n) n (omega arith) ne

pub digits_from-fuel : (f g n : ℕ) → n < f → n < g → digits_from f n ≡ digits_from g n
unfolding digits_from
digits_from-fuel zero g n hf hg = elim hf [ ]
digits_from-fuel (suc f) zero n hf hg = elim hg [ ]
digits_from-fuel (suc f) (suc g) n hf hg = ground (arith, digits_from-fuel f g (n / 256))

bigint_to_bytes-snoc :
    (n b : ℕ) → n ≢ 0 → IsByte b → bigint_to_bytes (n * 256 + b) ≡ bigint_to_bytes n ++ b ∷ []
unfolding bigint_to_bytes digits_from
bigint_to_bytes-snoc n b ne h =
    let big : ltb (n * 256 + b) 256 ≡ false = ground arith in
    let high : (n * 256 + b) / 256 ≡ n = omega arith in
    let low : (n * 256 + b) % 256 ≡ b = omega arith in
    let enough = digits_from-fuel (n * 256 + b) (suc n) n (omega arith) (omega arith) in
    rw (big, high, low, enough) refl

bigint_to_bytes-value_from :
    (acc : ℕ) (bs : List ℕ)
    → acc ≢ 0
    → AreBytes bs
    → bigint_to_bytes (value_from acc bs) ≡ bigint_to_bytes acc ++ bs
unfolding value_from
bigint_to_bytes-value_from acc [] ne h = sym (append-nil (bigint_to_bytes acc))
bigint_to_bytes-value_from acc (b ∷ bs) ne (hb, hs) =
    bigint_to_bytes-value_from (acc * 256 + b) bs (λ e. ne (omega arith)) hs
    ∙ ap (λ front. front ++ bs) (bigint_to_bytes-snoc acc b ne hb)
    ∙ append_assoc (bigint_to_bytes acc) (b ∷ []) bs

one_byte : (b : ℕ) → IsByte b → bigint_to_bytes b ≡ b ∷ []
unfolding bigint_to_bytes digits_from
one_byte b h = ground arith

-- Bytes whose first is not zero are what bigIntToBytes writes for their number.
pub bigint_to_bytes-bytes_to_bigint :
    (v : List ℕ) → IsLed v → AreBytes v → bigint_to_bytes (bytes_to_bigint v) ≡ v
unfolding bytes_to_bigint value_from
bigint_to_bytes-bytes_to_bigint [] led h = absurd led
bigint_to_bytes-bytes_to_bigint (b ∷ bs) ne (hb, hs) =
    let sum : 0 * 256 + b ≡ b = omega arith in
    ap (λ n. bigint_to_bytes (value_from n bs)) sum
    ∙ bigint_to_bytes-value_from b bs ne hs
    ∙ ap (λ front. front ++ bs) (one_byte b hb)

digits_from-nonempty : (fuel n : ℕ) → 1 ≤ length (digits_from (suc fuel) n)
unfolding digits_from
digits_from-nonempty fuel n = elim (Bool-cases (ltb n 256)) [
  | inl small ↦ rw small (omega arith)
  | inr large ↦ rw large (omega (arith, length-append (digits_from fuel (n / 256)) (n % 256 ∷ [])))
]

pub bigint_to_bytes-nonempty : (n : ℕ) → 1 ≤ length (bigint_to_bytes n)
unfolding bigint_to_bytes
bigint_to_bytes-nonempty n = digits_from-nonempty n n
