-- ===== src/Rlp/Decode/Ends.antt =====
-- No branch of `_decode` of packages/rlp/src/index.ts throws for lack of fuel itself.
use tvmjs_monorepo.Prelude.{
  ℕ, ◌+◌, ◌-◌, ◌==◌, ◌≡◌, ◌≢◌, refl, ltb, leb, ◌&&◌, Bool, true, false, Option, some, none, List,
  [], ◌∷◌, length, drop, get_or, if◌then◌else◌, Result, ok, err, ◌>>=◌, ◌>>◌, throw_if, Bool-cases,
  inl, inr,
}
use tvmjs_monorepo.Rlp.Hex.{
  RlpError, out_of_fuel, invalid_byte_sequence, bytes_to_hex, parse_hex_byte, parse_digits,
  ascii_to_base16, extra_zeros, out_of_bounds, single_byte_prefixed, no_bytes_for_length,
  string_too_short, list_too_short, total_length_too_large,
}
use tvmjs_monorepo.Rlp.Decode.{
  decode_length, safe_slice, short_string, long_string, short_list, long_list,
}

-- Every error but the lack of fuel.
abbrev pub Ends {ℓ} : {A : Type ℓ} → Result RlpError A → Type 0
Ends (ok a) = Unit {0}
Ends (err e) = e ≢ out_of_fuel

module _ {ℓ κ} {A : Type ℓ} {B : Type κ} where
  pub Ends-bind :
      (r : Result RlpError A) (next : A → Result RlpError B)
      → Ends r
      → ((a : A) → r ≡ ok a → Ends (next a))
      → Ends (r >>= next)
  Ends-bind (err e) next h k = h
  Ends-bind (ok a) next h k = k a refl

module _ {ℓ} {A : Type ℓ} where
  pub Ends-throw_if :
      (test : Bool) (e : RlpError) (r : Result RlpError A)
      → e ≢ out_of_fuel
      → Ends r
      → Ends (throw_if test e >> r)
  Ends-throw_if true e r ne h = ne
  Ends-throw_if false e r ne h = h

safe_slice-Ends : (input : List ℕ) (start stop : ℕ) → Ends (safe_slice input start stop)
unfolding safe_slice
safe_slice-Ends input start stop =
    Ends-throw_if (ltb (length input) stop) out_of_bounds _ (λ q. cc) tt

parse_hex_byte-Ends : (cs : List ℕ) → Ends (parse_hex_byte cs)
unfolding parse_hex_byte
parse_hex_byte-Ends [] = λ q. cc
parse_hex_byte-Ends (c ∷ cs) = digit (ascii_to_base16 c) (λ d. parse_digits d cs)
  where
    digit :
        (o : Option ℕ) (f : ℕ → ℕ)
        → Ends (elim o as (λ x. Result RlpError ℕ) [
          | none ↦ err invalid_byte_sequence
          | some d ↦ ok (f d)
        ])
    digit none f = λ q. cc
    digit (some d) f = tt

decode_length-Ends : (v : List ℕ) → Ends (decode_length v)
unfolding decode_length
decode_length-Ends [] = parse_hex_byte-Ends (bytes_to_hex [])
decode_length-Ends (b ∷ bs) =
    Ends-throw_if (b == 0) extra_zeros _ (λ q. cc) (parse_hex_byte-Ends (bytes_to_hex (b ∷ bs)))

module _ (b : ℕ) (input : List ℕ) where
  pub short_string-Ends : Ends (short_string b input)
  unfolding short_string
  short_string-Ends =
      Ends-bind (if b == 128 then ok [] else safe_slice input 1 (b - 127)) _ slice_ends (λ found e.
        Ends-throw_if (b - 127 == 2 && ltb (get_or found 0 0) 128) single_byte_prefixed
          (ok (found, drop (b - 127) input)) (λ q. cc) tt)
    where
      slice_ends : Ends (if b == 128 then ok [] else safe_slice input 1 (b - 127))
      slice_ends = elim (Bool-cases (b == 128)) [
        | inl empty ↦ rw empty tt
        | inr some_bytes ↦ rw some_bytes (safe_slice-Ends input 1 (b - 127))
      ]

  pub long_string-Ends : Ends (long_string b input)
  unfolding long_string
  long_string-Ends =
      let l = b - 182 in
      let inner : ℕ → Result RlpError (List ℕ × List ℕ) =
        λ n. safe_slice input l (n + l) >>= λ found. ok (found, drop (n + l) input) in
      let inner_ends : (n : ℕ) → Ends (inner n) = λ n.
        Ends-bind (safe_slice input l (n + l)) _ (safe_slice-Ends input l (n + l)) (λ v e. tt) in
      let checked : ℕ → Result RlpError (List ℕ × List ℕ) =
        λ n. throw_if (leb n 55) string_too_short >> inner n in
      let sized : List ℕ → Result RlpError (List ℕ × List ℕ) =
        λ digits. decode_length digits >>= checked in
      Ends-throw_if (ltb (length input - 1) l) no_bytes_for_length (safe_slice input 1 l >>= sized)
        (λ q. cc)
        (Ends-bind (safe_slice input 1 l) sized (safe_slice-Ends input 1 l) (λ digits e.
          Ends-bind (decode_length digits) checked (decode_length-Ends digits)
            (λ n e'. Ends-throw_if (leb n 55) string_too_short (inner n) (λ q. cc) (inner_ends n))))

  pub short_list-Ends : Ends (short_list b input)
  unfolding short_list
  short_list-Ends =
      Ends-bind (safe_slice input 1 (b - 191)) _ (safe_slice-Ends input 1 (b - 191)) (λ inner e. tt)

  pub long_list-Ends : Ends (long_list b input)
  unfolding long_list
  long_list-Ends =
      let l = b - 246 in
      let inner : ℕ → Result RlpError (List ℕ × List ℕ) =
        λ n. safe_slice input l (l + n) >>= λ found. ok (found, drop (l + n) input) in
      let inner_ends : (n : ℕ) → Ends (inner n) = λ n.
        Ends-bind (safe_slice input l (l + n)) _ (safe_slice-Ends input l (l + n)) (λ v e. tt) in
      let fitting : ℕ → Result RlpError (List ℕ × List ℕ) =
        λ n. throw_if (ltb (length input) (l + n)) total_length_too_large >> inner n in
      let checked : ℕ → Result RlpError (List ℕ × List ℕ) =
        λ n. throw_if (ltb n 56) list_too_short >> fitting n in
      let sized : List ℕ → Result RlpError (List ℕ × List ℕ) =
        λ digits. decode_length digits >>= checked in
      Ends-bind (safe_slice input 1 l) sized (safe_slice-Ends input 1 l) (λ digits e.
        Ends-bind (decode_length digits) checked (decode_length-Ends digits) (λ n e'.
          Ends-throw_if (ltb n 56) list_too_short (fitting n) (λ q. cc)
            (Ends-throw_if (ltb (length input) (l + n)) total_length_too_large (inner n) (λ q. cc)
              (inner_ends n))))
