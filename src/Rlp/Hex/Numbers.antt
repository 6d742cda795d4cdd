-- ===== src/Rlp/Hex/Numbers.antt =====
-- Hexadecimal text gives the bytes back that it was written from.
use tvmjs_monorepo.Prelude.{
  ℕ, zero, suc, ◌/◌, ◌%◌, ◌<◌, ◌≡◌, refl, sym, ap, ◌∙◌, List, [], ◌∷◌, ◌++◌, ltb, append_assoc,
  length-append, Option, some, none, Result, ok, err, ◌>>=◌, arith, Bool-cases, inl, inr,
}
use tvmjs_monorepo.Util.Bytes.{digits_from, bigint_to_bytes, IsByte}
use tvmjs_monorepo.Rlp.Hex.{
  RlpError, hex_digit, ascii_to_base16, hex_pair, and_then, hex_pairs, pad_to_even, to_string_16,
  number_to_hex,
}

pub ascii_to_base16-hex_digit : (d : ℕ) → d < 16 → ascii_to_base16 (hex_digit d) ≡ some d
unfolding ascii_to_base16 hex_digit
ascii_to_base16-hex_digit d h = ground arith

pub hex_pairs-append :
    (xs ys bs : List ℕ)
    → hex_pairs xs ≡ ok bs
    → hex_pairs (xs ++ ys) ≡ (hex_pairs ys >>= λ cs. ok (bs ++ cs))
unfolding hex_pairs
hex_pairs-append [] ys bs e =
    let q : bs ≡ [] = ground (arith, e) in rw q (pure_right (hex_pairs ys))
  where
    pure_right : (r : Result RlpError (List ℕ)) → r ≡ (r >>= λ cs. ok cs)
    pure_right (ok a) = refl
    pure_right (err x) = refl
hex_pairs-append (c ∷ []) ys bs e = cc
hex_pairs-append (c1 ∷ c2 ∷ rest) ys bs e =
    step (hex_pair c1 c2) (hex_pairs rest) (hex_pairs ys) e (hex_pairs-append rest ys)
  where
    step :
        (o : Option ℕ) (tail later : Result RlpError (List ℕ))
        → and_then o tail ≡ ok bs
        → ((ts : List ℕ) → tail ≡ ok ts → hex_pairs (rest ++ ys) ≡ (later >>= λ cs. ok (ts ++ cs)))
        → and_then o (hex_pairs (rest ++ ys)) ≡ (later >>= λ cs. ok (bs ++ cs))
    step none tail later q ih = cc
    step (some b) (err x) later q ih = cc
    step (some b) (ok ts) (err x) q ih = rw (ih ts refl) refl
    step (some b) (ok ts) (ok cs) q ih =
        let shown : b ∷ ts ≡ bs = ground (arith, q) in rw (ih ts refl) (rw (← shown) refl)

two_digits :
    (b : ℕ) → IsByte b → hex_pairs (hex_digit (b / 16) ∷ hex_digit (b % 16) ∷ []) ≡ ok (b ∷ [])
unfolding hex_pairs hex_pair
two_digits b h =
    ground (arith, ascii_to_base16-hex_digit (b / 16), ascii_to_base16-hex_digit (b % 16))

-- A leading 0 stands for nothing.
one_digit : (b : ℕ) → b < 16 → hex_pairs (48 ∷ hex_digit b ∷ []) ≡ ok (b ∷ [])
unfolding hex_digit
one_digit b h =
    let q : b / 16 ≡ 0 = omega arith in
    let r : b % 16 ≡ b = omega arith in let whole = two_digits b (omega arith) in rw (q, r) at whole

pad_to_even-snoc :
    (t : List ℕ) (a b : ℕ) → pad_to_even ((t ++ a ∷ []) ++ b ∷ []) ≡ pad_to_even t ++ (a ∷ b ∷ [])
unfolding pad_to_even
pad_to_even-snoc t a b =
    let whole : (t ++ a ∷ []) ++ b ∷ [] ≡ t ++ (a ∷ b ∷ []) = append_assoc t (a ∷ []) (b ∷ []) in
    rw whole (ground (arith, length-append t (a ∷ b ∷ [])))

padded_digits :
    (f g n : ℕ) → n < f → n < g → hex_pairs (pad_to_even (to_string_16 f n)) ≡ ok (digits_from g n)
unfolding to_string_16 digits_from pad_to_even
padded_digits f zero n hf hg = elim hg [ ]
padded_digits zero (suc g) n hf hg = elim hf [ ]
padded_digits (suc zero) (suc g) n hf hg = ground (arith, one_digit n)
padded_digits (suc (suc f)) (suc g) n hf hg = elim (Bool-cases (ltb n 256)) [
  | inl small ↦ elim (Bool-cases (ltb n 16)) [
    | inl digit ↦ ground (arith, one_digit n)
    | inr two ↦ let q : n / 16 < 16 = ground arith in ground (arith, two_digits n)
  ]
  | inr large ↦
      let t = to_string_16 f (n / 256) in
      let ih = padded_digits f g (n / 256) (ground arith) (ground arith) in
      let quarter : n / 16 / 16 ≡ n / 256 = omega arith in
      let high : n % 256 / 16 ≡ n / 16 % 16 = omega arith in
      let low : n % 256 % 16 ≡ n % 16 = omega arith in
      let last = two_digits (n % 256) (omega arith) in
      let split =
        hex_pairs-append (pad_to_even t) (hex_digit (n % 256 / 16) ∷ hex_digit (n % 256 % 16) ∷ [])
          (digits_from g (n / 256)) ih in
      let shape = pad_to_even-snoc t (hex_digit (n % 256 / 16)) (hex_digit (n % 256 % 16)) in
      let text : to_string_16 (suc (suc f)) n
          ≡ (t ++ hex_digit (n % 256 / 16) ∷ []) ++ hex_digit (n % 256 % 16) ∷ [] =
        ground (arith, quarter, high, low) in
      let bytes : digits_from (suc g) n ≡ digits_from g (n / 256) ++ n % 256 ∷ [] = ground arith in
      ap (λ x. hex_pairs (pad_to_even x)) text
      ∙ ap hex_pairs shape
      ∙ split
      ∙ rw last (ap ok (sym bytes))
]

-- The text of a number is the text of its bytes.
pub hex_pairs-number_to_hex : (n : ℕ) → hex_pairs (number_to_hex n) ≡ ok (bigint_to_bytes n)
unfolding number_to_hex bigint_to_bytes
hex_pairs-number_to_hex n = padded_digits (suc n) (suc n) n (omega arith) (omega arith)
