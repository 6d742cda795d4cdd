-- ===== src/Tvm/Ops/Logic/Laws.antt =====
-- What the comparisons, the bitwise handlers and the shifts leave on the stack.
use tvmjs_monorepo.Prelude.{
  ◌⊎◌, ℕ, ◌+◌, ◌-◌, ◌*◌, ◌/◌, ◌%◌, ◌^◌, ◌≤◌, ◌<◌, ◌≡◌, ◌≢◌, refl, sym, ap, ◌∙◌, List, [], ◌∷◌,
  arith, ltb, leb, ◌==◌, if◌then◌else◌, Bool-cases, inl, inr, bit_and,
}
use native.Mathlib.Nat.{mod-eq_of_lt, mul-lt-mul_of_pos_right, mul-le-mul_right}
use tvmjs_monorepo.Prelude.Power.{pow-add}
use tvmjs_monorepo.Prelude.Bits.{bit_and_mask, two-pow-le, one-le-two-pow}
use tvmjs_monorepo.Prelude.Int.{pos, negsuc, ◌-ℤ◌, ◌*ℤ◌, ltb_ℤ}
use tvmjs_monorepo.Tvm.Stack.View.{view, IsValid}
use tvmjs_monorepo.Tvm.Word.{
  IsWord, max_integer, from_twos, not_word, shift_right, shift_left, binary_length,
}
use tvmjs_monorepo.Tvm.Word.Binary.{binary_length_bounds}
use tvmjs_monorepo.Tvm.Machine.{RunState, Exec, ◌>>=◌, push, pop_n}
use tvmjs_monorepo.Tvm.Ops.Frame.{Leaves, replaces, replaces_one}
use tvmjs_monorepo.Tvm.Ops.Logic.{
  lt, gt, slt, sgt, iszero, not, byte, shl, shr, sar, sar_shifted, clz,
}
use tvmjs_monorepo.Tvm.Ops.Logic.Shifts.{shift_out, shift_over, floor_shift, sar_lem}

-- A word with its sign bit flipped: the order of these is the order of the signed numbers.
abbrev pub biased : ℕ → ℕ
biased a = (a + 2 ^ 255) % 2 ^ 256

signed-lt :
    (a b : ℕ) → IsWord a → IsWord b → ltb_ℤ (from_twos a) (from_twos b) ≡ ltb (biased a) (biased b)
unfolding from_twos
signed-lt a b ha hb = ground arith

shl_value :
    (a b : ℕ)
    → (if ltb 256 a then 0 else bit_and (shift_left b (pos a)) max_integer) ≡ b * 2 ^ a % 2 ^ 256
unfolding shift_left
shl_value a b = ground (arith, bit_and_mask 256 (b * 2 ^ a), shift_over b a)

shr_value : (a b : ℕ) → IsWord b → (if ltb 256 a then 0 else shift_right b (pos a)) ≡ b / 2 ^ a
unfolding shift_right
shr_value a b hb = ground (arith, shift_out b a hb)

-- The byte at an index counted from the highest.
abbrev pub byte_from_top : ℕ → ℕ → ℕ
byte_from_top at word = if ltb at 32 then word / 2 ^ (8 * (31 - at)) % 256 else 0

byte_count : (at : ℕ) → at ≤ 31 → (pos 31 -ℤ pos at) *ℤ pos 8 ≡ pos (8 * (31 - at))
unfolding ◌-ℤ◌ ◌*ℤ◌
byte_count at h = ground arith

byte_count_at_32 : (pos 31 -ℤ pos 32) *ℤ pos 8 ≡ negsuc 7
unfolding ◌-ℤ◌ ◌*ℤ◌
byte_count_at_32 = refl

-- At index 32 the negative count of the source shifts to the left, and the mask leaves 0.
byte_value :
    (at word : ℕ)
    → (if ltb 32 at then 0 else bit_and (shift_right word ((pos 31 -ℤ pos at) *ℤ pos 8)) 255)
      ≡ byte_from_top at word
unfolding shift_right
byte_value at word = elim (Bool-cases (at == 32)) [
  | inl last ↦
      let e : at ≡ 32 = ground arith in
      rw (e, byte_count_at_32) (bit_and_mask 8 (word * 256) ∙ omega arith)
  | inr other ↦ ground (arith, byte_count at, bit_and_mask 8 (word / 2 ^ (8 * (31 - at))))
]

module _ (s : RunState) (valid : IsValid s.stack) (a b : ℕ) (rest : List ℕ)
    (shows : view s.stack ≡ a ∷ b ∷ rest) where
  two :
      (body : List ℕ → Exec (Unit {0})) (v w : ℕ)
      → ((t : RunState) → body (a ∷ b ∷ []) t ≡ push v t)
      → v ≡ w
      → Leaves (pop_n 2 >>= body) s (w ∷ rest)
  two body v w pushes e = rw (← e) (replaces s valid (a ∷ b ∷ []) rest shows 1 body v refl pushes)

  -- On a valid stack with words `a` and `b` on top: LT and GT succeed and compare the words, SLT
  -- and SGT succeed and compare the words with the sign bits flipped.
  pub comparison_ops :
      IsWord a
      → IsWord b
      → Leaves lt s ((if ltb a b then 1 else 0) ∷ rest)
        × Leaves gt s ((if ltb b a then 1 else 0) ∷ rest)
        × Leaves slt s ((if ltb (biased a) (biased b) then 1 else 0) ∷ rest)
        × Leaves sgt s ((if ltb (biased b) (biased a) then 1 else 0) ∷ rest)
  unfolding lt gt slt sgt
  comparison_ops ha hb = (
    two _ _ _ (λ t. refl) refl,
    two _ _ _ (λ t. refl) refl,
    two _ _ _ (λ t. refl) (rw (signed-lt a b ha hb)),
    two _ _ _ (λ t. refl) (rw (signed-lt b a hb ha)),
  )

  -- On a valid stack with a count `a` of any size and a word `b` on top, SHL, SHR and SAR succeed
  -- and leave the product with 2 ^ a modulo 2 ^ 256, the quotient by 2 ^ a, and the quotient of
  -- the signed number rounded down.
  pub shift_ops :
      IsWord b
      → Leaves shl s (b * 2 ^ a % 2 ^ 256 ∷ rest)
        × Leaves shr s (b / 2 ^ a ∷ rest)
        × Leaves sar s (floor_shift a b ∷ rest)
  unfolding shl shr sar
  shift_ops hb = (
    two _ (if ltb 256 a then 0 else bit_and (shift_left b (pos a)) max_integer) _
        (λ t. ground arith) (shl_value a b),
    two _ (if ltb 256 a then 0 else shift_right b (pos a)) _ (λ t. ground arith) (shr_value a b hb),
    two _
        (if ltb 256 a
          then (if ltb_ℤ (from_twos b) (pos 0) then max_integer else 0)
          else sar_shifted (ltb_ℤ (from_twos b) (pos 0)) a b)
        _ (λ t. ground arith) (sar_lem a b hb),
  )

  -- On a valid stack with an index and a word on top: BYTE succeeds and leaves the byte at the
  -- index, counted from the highest, and 0 from index 32 on, where the shift count of the source
  -- is negative at 32.
  pub byte_lem : Leaves byte s (byte_from_top a b ∷ rest)
  unfolding byte
  byte_lem =
      two _ (if ltb 32 a then 0 else bit_and (shift_right b ((pos 31 -ℤ pos a) *ℤ pos 8)) 255) _
        (λ t. ground arith) (byte_value a b)

-- A word shifted left by its leading zeros has its highest bit set.
leading_zeros :
    (a n : ℕ)
    → IsWord a
    → a ≢ 0
    → n ≡ 256 - binary_length a
    → (2 ^ 255 ≤ a * 2 ^ n) × (a * 2 ^ n < 2 ^ 256)
leading_zeros a n ha nz e = (omega (arith, whole, lower), omega (arith, whole, upper))
  where
    bounds : (a < 2 ^ binary_length a) × (2 ^ binary_length a ≤ 2 * a)
    bounds = binary_length_bounds a nz

    fits : binary_length a ≤ 256
    fits = elim (Bool-cases (leb 257 (binary_length a))) [
      | inl long ↦ absurd (omega (arith, bounds, two-pow-le 257 (binary_length a) (ground arith)))
      | inr short ↦ ground arith
    ]

    whole : 2 ^ binary_length a * 2 ^ n ≡ 2 ^ 256
    whole =
        let sum : binary_length a + n ≡ 256 = omega (arith, fits, e) in
        sym (pow-add 2 (binary_length a) n) ∙ ap (2 ^◌) sum

    lower : 2 ^ binary_length a * 2 ^ n ≤ 2 * a * 2 ^ n
    lower = mul-le-mul_right (2 ^ n) bounds.1

    upper : a * 2 ^ n < 2 ^ binary_length a * 2 ^ n
    upper = mul-lt-mul_of_pos_right bounds.0 (one-le-two-pow n)

module _ (s : RunState) (valid : IsValid s.stack) (a : ℕ) (rest : List ℕ)
    (shows : view s.stack ≡ a ∷ rest) where
  -- On a valid stack with a word on top, NOT succeeds and leaves its complement to 2 ^ 256 - 1,
  -- and ISZERO succeeds and leaves 1 for 0 and 0 for any other word.
  pub unary_ops :
      IsWord a
      → Leaves not s ((2 ^ 256 - 1 - a) ∷ rest) × Leaves iszero s ((if a == 0 then 1 else 0) ∷ rest)
  unfolding not iszero
  unary_ops ha = (
    rw (← inverted) (replaces_one s valid a rest shows _ _ (λ t. refl)),
    replaces_one s valid a rest shows _ _ (λ t. refl),
  )
    where
      inverted : not_word a ≡ 2 ^ 256 - 1 - a
      inverted = unfold not_word in rw (mod-eq_of_lt ha) refl

  -- On a valid stack with a word `a` on top: CLZ succeeds and leaves the number `n` of leading
  -- zeros, which is 256 for 0, and else has 2 ^ 255 ≤ a * 2 ^ n < 2 ^ 256.
  pub clz_lem :
      IsWord a
      → (n : ℕ) × Leaves clz s (n ∷ rest)
        × (((a ≡ 0) × (n ≡ 256)) ⊎ ((2 ^ 255 ≤ a * 2 ^ n) × (a * 2 ^ n < 2 ^ 256)))
  unfolding clz
  clz_lem ha = (
    n,
    replaces_one s valid a rest shows _ n (λ t. ground arith),
    elim (Bool-cases (a == 0)) [
      | inl z ↦ inl (ground arith)
      | inr nz ↦ inr (leading_zeros a n ha (ground arith) (ground arith))
    ],
  )
    where
      n : ℕ
      n = if a == 0 then 256 else 256 - binary_length a
