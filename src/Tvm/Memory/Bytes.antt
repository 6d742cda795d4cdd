-- ===== src/Tvm/Memory/Bytes.antt =====
-- Bytes by address: a cell that is not stored reads as 0.
use tvmjs_monorepo.Prelude.{
  ℕ, zero, suc, ◌+◌, ◌-◌, ◌<◌, ◌≡◌, refl, List, [], ◌∷◌, ◌++◌, arith, length, take, drop, get_or,
  replicate, ltb, if◌then◌else◌,
}
use native.Mathlib.Nat.{zero-add}

abbrev pub byte_at : List ℕ → ℕ → ℕ
byte_at xs i = get_or xs i 0

-- Zeros at the end do not show.
pub byte_at-append_zeros : (xs : List ℕ) (n i : ℕ) → byte_at (xs ++ replicate n 0) i ≡ byte_at xs i
byte_at-append_zeros [] zero i = refl
byte_at-append_zeros [] (suc n) zero = refl
byte_at-append_zeros [] (suc n) (suc i) = byte_at-append_zeros [] n i
byte_at-append_zeros (x ∷ xs) n zero = refl
byte_at-append_zeros (x ∷ xs) n (suc i) = byte_at-append_zeros xs n i

pub byte_at-append :
    (xs ys : List ℕ) (i : ℕ)
    → byte_at (xs ++ ys) i
      ≡ (if ltb i (length xs) then byte_at xs i else byte_at ys (i - length xs))
byte_at-append [] ys i = ground arith
byte_at-append (x ∷ xs) ys zero = ground arith
byte_at-append (x ∷ xs) ys (suc i) = ground (arith, byte_at-append xs ys i)

pub byte_at-take :
    (n : ℕ) (xs : List ℕ) (i : ℕ) → byte_at (take n xs) i ≡ (if ltb i n then byte_at xs i else 0)
byte_at-take zero xs i = ground arith
byte_at-take (suc n) [] i = ground arith
byte_at-take (suc n) (x ∷ xs) zero = ground arith
byte_at-take (suc n) (x ∷ xs) (suc i) = ground (arith, byte_at-take n xs i)

pub byte_at-drop : (n : ℕ) (xs : List ℕ) (i : ℕ) → byte_at (drop n xs) i ≡ byte_at xs (n + i)
byte_at-drop zero xs i = rw zero-add
byte_at-drop (suc n) [] i = refl
byte_at-drop (suc n) (x ∷ xs) i = ground (arith, byte_at-drop n xs i)

-- Lists of one length with the same bytes are one list.
pub byte_ext :
    (xs ys : List ℕ)
    → length xs ≡ length ys
    → ((i : ℕ) → i < length xs → byte_at xs i ≡ byte_at ys i)
    → xs ≡ ys
byte_ext [] [] e h = refl
byte_ext [] (y ∷ ys) e h = absurd (omega arith)
byte_ext (x ∷ xs) [] e h = absurd (omega arith)
byte_ext (x ∷ xs) (y ∷ ys) e h =
    cc (h 0 (omega arith), byte_ext xs ys (omega arith) (λ i hi. h (suc i) (omega arith)))
