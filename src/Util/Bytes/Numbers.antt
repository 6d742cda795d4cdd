-- ===== src/Util/Bytes/Numbers.antt =====
-- The bytes of a number give the number back, and a word has at most 32 of them.
use tvmjs_monorepo.Prelude.{
  ℕ, zero, suc, ◌+◌, ◌-◌, ◌*◌, ◌/◌, ◌%◌, ◌^◌, ◌≤◌, ◌<◌, ◌≡◌, refl, ap, false, List, [], ◌∷◌, ◌++◌,
  ltb, length, length-append, replicate, length-replicate, ok, arith, Bool-cases, inl, inr,
  append-nil,
}
use native.Mathlib.Nat.{pow-suc, pow-zero}
use tvmjs_monorepo.Util.Bytes.{
  AreBytes, value_from, bytes_to_bigint, digits_from, bigint_to_bytes, set_length_left,
  set_length_right,
}

pub AreBytes-append : (xs ys : List ℕ) → AreBytes xs → AreBytes ys → AreBytes (xs ++ ys)
AreBytes-append [] ys h k = k
AreBytes-append (x ∷ xs) ys h k = (h.0, AreBytes-append xs ys h.1 k)

pub AreBytes-parts : (xs ys : List ℕ) → AreBytes (xs ++ ys) → AreBytes xs × AreBytes ys
AreBytes-parts [] ys h = (tt, h)
AreBytes-parts (x ∷ xs) ys (hx, h) =
    let (front, back) = AreBytes-parts xs ys h in ((hx, front), back)

value_from-append :
    (acc : ℕ) (xs ys : List ℕ) → value_from acc (xs ++ ys) ≡ value_from (value_from acc xs) ys
unfolding value_from
value_from-append acc [] ys = refl
value_from-append acc (x ∷ xs) ys = value_from-append (acc * 256 + x) xs ys

pub bytes_to_bigint-snoc :
    (xs : List ℕ) (b : ℕ) → bytes_to_bigint (xs ++ b ∷ []) ≡ bytes_to_bigint xs * 256 + b
unfolding bytes_to_bigint
bytes_to_bigint-snoc xs b = value_from-append 0 xs (b ∷ [])

pub bytes_to_bigint-zeros :
    (n : ℕ) (xs : List ℕ) → bytes_to_bigint (replicate n 0 ++ xs) ≡ bytes_to_bigint xs
unfolding bytes_to_bigint
bytes_to_bigint-zeros zero xs = refl
bytes_to_bigint-zeros (suc n) xs = bytes_to_bigint-zeros n xs

value_from-lt :
    (acc : ℕ) (xs : List ℕ) → AreBytes xs → value_from acc xs + 1 ≤ (acc + 1) * 256 ^ length xs
unfolding value_from
value_from-lt acc [] h = omega (arith, pow-zero 256)
value_from-lt acc (x ∷ xs) (hx, hs) =
    omega (arith, value_from-lt (acc * 256 + x) xs hs, mono, scale)
  where
    mono : (acc * 256 + x + 1) * 256 ^ length xs ≤ (acc * 256 + 256) * 256 ^ length xs
    mono = grind arith

    scale : (acc * 256 + 256) * 256 ^ length xs ≡ (acc + 1) * 256 ^ suc (length xs)
    scale = omega (arith, ap (λ (t : ℕ). (acc + 1) * t) (pow-suc 256 (length xs)))

-- `k` bytes are below 256 ^ k.
pub bytes_to_bigint-lt : (xs : List ℕ) → AreBytes xs → bytes_to_bigint xs < 256 ^ length xs
unfolding bytes_to_bigint
bytes_to_bigint-lt xs h = omega (arith, value_from-lt 0 xs h)

digits_from_lem :
    (fuel n : ℕ)
    → n < fuel
    → (bytes_to_bigint (digits_from fuel n) ≡ n) × AreBytes (digits_from fuel n)
unfolding digits_from
digits_from_lem zero n h = elim h [ ]
digits_from_lem (suc fuel) n h = elim (Bool-cases (ltb n 256)) [
  | inl small ↦ rw small (unfold bytes_to_bigint value_from in ground arith)
  | inr large ↦
      let (value, bytes) = digits_from_lem fuel (n / 256) (ground arith) in
      rw large (
        rw (bytes_to_bigint-snoc, value) (omega arith),
        AreBytes-append (digits_from fuel (n / 256)) (n % 256 ∷ []) bytes (omega arith),
      )
]

-- For every number, bigIntToBytes writes bytes, from which bytesToBigInt reads the number back;
-- the fuel of its loop is enough.
pub bytes_to_bigint-bigint_to_bytes :
    (n : ℕ) → (bytes_to_bigint (bigint_to_bytes n) ≡ n) × AreBytes (bigint_to_bytes n)
unfolding bigint_to_bytes
bytes_to_bigint-bigint_to_bytes n = digits_from_lem (suc n) n (omega arith)

length-digits_from : (fuel n k : ℕ) → n < 256 ^ suc k → length (digits_from fuel n) ≤ suc k
unfolding digits_from
length-digits_from zero n k h = omega arith
length-digits_from (suc fuel) n zero h =
    let small : n < 256 = omega (arith, pow-suc 256 0, pow-zero 256) in ground arith
length-digits_from (suc fuel) n (suc k) h = ground (
  arith,
  pow-suc 256 (suc k),
  length-digits_from fuel (n / 256) k,
  length-append (digits_from fuel (n / 256)) (n % 256 ∷ []),
)

-- A number below 256 ^ k has at most `k` bytes, for a positive `k`.
pub length-bigint_to_bytes : (n k : ℕ) → n < 256 ^ suc k → length (bigint_to_bytes n) ≤ suc k
unfolding bigint_to_bytes
length-bigint_to_bytes n k h = length-digits_from (suc n) n k h

-- For a positive number `k` of bytes and a number below 256 ^ k, setLengthLeft of bigIntToBytes
-- succeeds with exactly `k` bytes, from which bytesToBigInt reads the number back.
pub set_length_left-bigint_to_bytes :
    (n k : ℕ)
    → n < 256 ^ suc k
    → (bs : List ℕ) × (set_length_left (bigint_to_bytes n) (suc k) false ≡ ok bs)
      × (length bs ≡ suc k)
      × (bytes_to_bigint bs ≡ n)
unfolding set_length_left
set_length_left-bigint_to_bytes n k h = (
  replicate (suc k - length msg) 0 ++ msg,
  padded (length-bigint_to_bytes n k h),
  omega (
    arith,
    length-append (replicate (suc k - length msg) 0) msg,
    length-replicate {0} {A = ℕ} (suc k - length msg) 0,
    length-bigint_to_bytes n k h,
  ),
  rw bytes_to_bigint-zeros (bytes_to_bigint-bigint_to_bytes n).0,
)
  where
    msg : List ℕ
    msg = bigint_to_bytes n

    padded :
        length msg ≤ suc k
        → set_length_left msg (suc k) false ≡ ok (replicate (suc k - length msg) 0 ++ msg)
    padded le = elim (Bool-cases (ltb (length msg) (suc k))) [
      | inl short ↦ ground arith
      | inr full ↦
          let none_added : suc k - length msg ≡ 0 = ground arith in rw none_added (ground arith)
    ]

-- `setLengthRight` adds zeros at the end where the bytes fit.
pub set_length_right_lem :
    (msg : List ℕ) (n : ℕ)
    → length msg ≤ n
    → set_length_right msg n false ≡ ok (msg ++ replicate (n - length msg) 0)
unfolding set_length_right
set_length_right_lem msg n le = elim (Bool-cases (ltb (length msg) n)) [
  | inl short ↦ ground arith
  | inr full ↦
      let none_added : n - length msg ≡ 0 = ground arith in
      rw none_added (ground (arith, append-nil msg))
]
