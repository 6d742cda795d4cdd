-- ===== src/Tvm/Ops/Logic/Shifts.antt =====
-- The shifts as arithmetic.
use tvmjs_monorepo.Prelude.{
  ℕ, suc, ◌+◌, ◌-◌, ◌*◌, ◌/◌, ◌%◌, ◌^◌, ◌≤◌, ◌<◌, ◌≡◌, refl, sym, ap, ◌∙◌, arith, ltb, ◌==◌,
  if◌then◌else◌, Bool-cases, inl, inr, bit_or, true, not,
}
use native.Mathlib.Nat.{
  mul-mod_right, div-lt_iff_lt-mul, div-add-mod, div-eq_of_lt-le, add-mul-div_left,
  add-mul-mod_self_left, mod-eq_of_lt, mod-lt, div-le_self,
}
use tvmjs_monorepo.Prelude.Bits.{bit_or_high_word, two-pow-le, two-pow-suc, one-le-two-pow}
use tvmjs_monorepo.Prelude.Power.{pow-add}
use tvmjs_monorepo.Prelude.Int.{pos, negsuc, ◌-ℤ◌, ltb_ℤ}
use tvmjs_monorepo.Tvm.Word.{IsWord, max_integer, from_twos, shift_left, shift_right}
use tvmjs_monorepo.Tvm.Ops.Logic.{sar_shifted}

-- A word shifted right by 256 bits or more is 0.
pub shift_out : (b a : ℕ) → IsWord b → 256 ≤ a → b / 2 ^ a ≡ 0
shift_out b a h k =
    let below : b / 2 ^ a < 1 =
      (div-lt_iff_lt-mul (one-le-two-pow a)).1 (omega (arith, two-pow-le 256 a k)) in
    omega (arith, below)

-- A word shifted left by 256 bits or more is a multiple of 2 ^ 256.
pub shift_over : (b a : ℕ) → 256 ≤ a → b * 2 ^ a % 2 ^ 256 ≡ 0
shift_over b a k = ap (◌% 2 ^ 256) factored ∙ mul-mod_right (2 ^ 256) (b * 2 ^ (a - 256))
  where
    split : 2 ^ a ≡ 2 ^ 256 * 2 ^ (a - 256)
    split = let e : a ≡ 256 + (a - 256) = omega arith in ap (2 ^◌) e ∙ pow-add 2 256 (a - 256)

    factored : b * 2 ^ a ≡ 2 ^ 256 * (b * 2 ^ (a - 256))
    factored = omega (arith, ap (λ (t : ℕ). b * t) split)

module _ (a w b : ℕ) (e : w + a ≡ 255) (hb : IsWord b) where
  whole : 2 ^ w * 2 ^ a ≡ 2 ^ 255
  whole = sym (pow-add 2 w a) ∙ ap (2 ^◌) e

  whole_word : 2 ^ w * 2 ^ suc a ≡ 2 ^ 256
  whole_word = omega (arith, whole, ap (λ (t : ℕ). 2 ^ w * t) (two-pow-suc a))

  -- The mask of ones from bit `w` on.
  mask_lem : (2 ^ 256 - 1) / 2 ^ w * 2 ^ w ≡ 2 ^ 256 - 2 ^ w
  mask_lem = rw quotient (omega (arith, ones, whole_word))
    where
      ones : (2 ^ suc a - 1) * 2 ^ w + 2 ^ w ≡ 2 ^ w * 2 ^ suc a
      ones =
          let some : 2 ^ suc a ≡ 2 ^ suc a - 1 + 1 = omega (arith, one-le-two-pow (suc a)) in
          omega (arith, ap (λ (t : ℕ). t * 2 ^ w) some)

      quotient : (2 ^ 256 - 1) / 2 ^ w ≡ 2 ^ suc a - 1
      quotient =
          div-eq_of_lt-le (2 ^ w) (omega (arith, ones, whole_word, one-le-two-pow w))
            (omega (arith, ones, whole_word, one-le-two-pow w))

  -- The quotient of a negative word keeps its sign bit at `w`.
  shifted : 2 ^ 255 ≤ b → b / 2 ^ a ≡ (b - 2 ^ 255) / 2 ^ a + 2 ^ w
  shifted neg = ap (◌/ 2 ^ a) split ∙ add-mul-div_left (b - 2 ^ 255) (2 ^ w) (one-le-two-pow a)
    where
      split : b ≡ b - 2 ^ 255 + 2 ^ a * 2 ^ w
      split = omega (arith, whole)

  quotient-lt : 2 ^ 255 ≤ b → (b - 2 ^ 255) / 2 ^ a < 2 ^ w
  quotient-lt neg = (div-lt_iff_lt-mul (one-le-two-pow a)).1 (omega (arith, whole))

  inverted : 2 ^ 255 ≤ b → (2 ^ 256 - 1 - b) / 2 ^ a ≡ 2 ^ w - 1 - (b - 2 ^ 255) / 2 ^ a
  inverted neg =
      div-eq_of_lt-le (2 ^ a)
        (omega (
          arith,
          scaled,
          div-add-mod (b - 2 ^ 255) (2 ^ a),
          mod-lt (b - 2 ^ 255) (one-le-two-pow a),
        ))
        (omega (
          arith,
          scaled,
          div-add-mod (b - 2 ^ 255) (2 ^ a),
          mod-lt (b - 2 ^ 255) (one-le-two-pow a),
        ))
    where
      q : ℕ
      q = (b - 2 ^ 255) / 2 ^ a

      scaled : (2 ^ w - 1 - q) * 2 ^ a + 2 ^ a + q * 2 ^ a ≡ 2 ^ 255
      scaled =
          let parts : 2 ^ w ≡ 2 ^ w - 1 - q + 1 + q = omega (arith, quotient-lt neg) in
          omega (arith, whole, ap (λ (t : ℕ). t * 2 ^ a) parts)

  -- A negative word shifted right with its sign: the complement of the shifted complement.
  sar_negative :
      2 ^ 255 ≤ b
      → bit_or (b / 2 ^ a) ((2 ^ 256 - 1) / 2 ^ w * 2 ^ w) ≡ 2 ^ 256 - 1 - (2 ^ 256 - 1 - b) / 2 ^ a
  sar_negative neg =
      rw (mask_lem, inverted neg)
        (bit_or_high_word w (suc a) 256 (b / 2 ^ a) (omega arith)
            (omega (arith, div-le_self b (2 ^ a)))
          ∙ omega (arith, low, quotient-lt neg, bounded))
    where
      low : b / 2 ^ a % 2 ^ w ≡ (b - 2 ^ 255) / 2 ^ a
      low =
          ap (◌% 2 ^ w) (shifted neg)
          ∙ add-mod_self ((b - 2 ^ 255) / 2 ^ a)
          ∙ mod-eq_of_lt (quotient-lt neg)
        where
          add-mod_self : (t : ℕ) → (t + 2 ^ w) % 2 ^ w ≡ t % 2 ^ w
          add-mod_self t = ap (◌% 2 ^ w) (omega arith) ∙ add-mul-mod_self_left t (2 ^ w) 1

      bounded : 2 ^ w ≤ 2 ^ 256
      bounded = two-pow-le w 256 (omega arith)

-- What SAR is to leave: the floor of the signed number divided by 2 ^ a.
abbrev pub floor_shift : ℕ → ℕ → ℕ
floor_shift a b = if ltb b (2 ^ 255) then b / 2 ^ a else 2 ^ 256 - 1 - (2 ^ 256 - 1 - b) / 2 ^ a

is_negative : (b : ℕ) → IsWord b → ltb_ℤ (from_twos b) (pos 0) ≡ not (ltb b (2 ^ 255))
unfolding from_twos
is_negative b hb = ground arith

width_within : (a : ℕ) → a ≤ 255 → pos 255 -ℤ pos a ≡ pos (255 - a)
unfolding ◌-ℤ◌
width_within a h = ground arith

width_at_256 : pos 255 -ℤ pos 256 ≡ negsuc 0
unfolding ◌-ℤ◌
width_at_256 = refl

complement_shifted_out : (a b : ℕ) → 256 ≤ a → (2 ^ 256 - 1 - b) / 2 ^ a ≡ 0
complement_shifted_out a b h = shift_out (2 ^ 256 - 1 - b) a (omega arith) h

-- `SAR` by at most 256, with the mask of the source, for a negative word.
sar_shifted_negative :
    (a b : ℕ)
    → IsWord b
    → 2 ^ 255 ≤ b
    → a ≤ 256
    → sar_shifted true a b ≡ 2 ^ 256 - 1 - (2 ^ 256 - 1 - b) / 2 ^ a
unfolding shift_right shift_left
sar_shifted_negative a b hb neg h = elim (Bool-cases (a == 256)) [
  | inl most ↦
      let e : a ≡ 256 = ground arith in
      let out : b / 2 ^ 256 ≡ 0 = shift_out b 256 hb (omega arith) in
      rw (e, width_at_256, out, complement_shifted_out 256 b (omega arith)) refl
  | inr less ↦
      let le : a ≤ 255 = ground arith in
      rw (width_within a le) (sar_negative a (255 - a) b (omega arith) hb neg)
]

-- On both signs, and for every count, SAR is the floor of the division.
pub sar_lem :
    (a b : ℕ)
    → IsWord b
    → (if ltb 256 a
        then (if ltb_ℤ (from_twos b) (pos 0) then max_integer else 0)
        else sar_shifted (ltb_ℤ (from_twos b) (pos 0)) a b)
      ≡ floor_shift a b
sar_lem a b hb = rw (is_negative b hb) (elim (Bool-cases (ltb b (2 ^ 255))) [
  | inl plus ↦ rw plus (unfold shift_right in ground (arith, shift_out b a hb))
  | inr minus ↦ rw minus (ground (arith, complement_shifted_out a b, sar_shifted_negative a b hb))
])
