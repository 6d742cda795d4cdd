-- ===== src/Tvm/Ops/Arith/Laws.antt =====
-- What the arithmetic handlers compute.
use tvmjs_monorepo.Prelude.{
  ℕ, zero, suc, ◌+◌, ◌-◌, ◌*◌, ◌/◌, ◌%◌, ◌^◌, ◌≤◌, ◌<◌, ◌≡◌, ◌≢◌, refl, sym, ap, ◌∙◌, List, [], ◌∷◌,
  arith, ltb, ◌==◌, if◌then◌else◌, Bool-cases, inl, inr, ◌⊎◌, bit_and, bit_or, true,
}
use native.Mathlib.Nat.{div-le_self, pow-suc, mul-zero, zero-mul, mod-eq_of_lt, pow-zero}
use tvmjs_monorepo.Prelude.Bits.{
  bit_and_mask, bit_or_high_word, two-pow-le, two-pow-suc, one-le-two-pow,
}
use tvmjs_monorepo.Prelude.Power.{mod-double}
use tvmjs_monorepo.Prelude.Int.{ℤ, pos, negsuc, ◌+ℤ◌, ◌*ℤ◌, pos_part, neg_part}
use tvmjs_monorepo.Tvm.Stack.View.{view, IsValid}
use tvmjs_monorepo.Tvm.Word.{IsWord, modulo, from_twos, to_twos, tdiv, trem, not_word, shift_right}
use tvmjs_monorepo.Tvm.Word.Exponent.{exponentiation_lem}
use tvmjs_monorepo.Tvm.Word.Signed.{
  modulo-sub, from_twos-FitsWord, from_twos-to_twos, tdiv-FitsWord, trem-FitsWord, tdiv-trem,
  trem_bounds, magnitude,
}
use tvmjs_monorepo.Tvm.Machine.{RunState, Exec, ◌>>=◌, push, pop_n}
use tvmjs_monorepo.Tvm.Ops.Frame.{Leaves, replaces}
use tvmjs_monorepo.Tvm.Ops.Arith.{
  add, mul, sub, div, sdiv, rem, smod, addmod, mulmod, exp_general, exp, signextend,
}

modulo-add : (a b n : ℕ) → modulo (pos a +ℤ pos b) n ≡ (a + b) % n
unfolding modulo ◌+ℤ◌
modulo-add a b n = ground arith

modulo-mul : (a b n : ℕ) → modulo (pos a *ℤ pos b) n ≡ a * b % n
unfolding modulo ◌*ℤ◌
modulo-mul a b n = ground arith

exp_general_lem : (a b : ℕ) → exp_general a b ≡ a ^ b % 2 ^ 256
exp_general_lem a zero = ap (◌% 2 ^ 256) (sym (pow-zero a))
exp_general_lem a (suc b) = elim (Bool-cases (a == 0)) [
  | inl z ↦
      let ea : a ≡ 0 = ground arith in
      let zero_power : 0 ^ suc b ≡ 0 = pow-suc 0 b ∙ mul-zero (0 ^ b) in
      rw (ea, zero_power) (ground arith)
  | inr nz ↦ rw nz (rw exponentiation_lem (ground arith))
]

exp_constant : ℕ → ℕ → ℕ
exp_constant a b =
    if a == 2
    then (if b == 96
        then 2 ^ 96
        else if b == 160
        then 2 ^ 160
        else if b == 224
        then 2 ^ 224
        else exp_general a b)
    else exp_general a b

power_of_two : (a b k : ℕ) → a == 2 ≡ true → b == k ≡ true → 2 ^ k ≡ a ^ b
power_of_two a b k ea eb =
    let pa : a ≡ 2 = ground arith in let pb : b ≡ k = ground arith in rw (pa, pb)

-- The constants of the switch are the powers that they stand for.
exp_constant_lem : (a b : ℕ) → exp_constant a b ≡ a ^ b % 2 ^ 256
unfolding exp_constant
exp_constant_lem a b =
    ground
      (arith, exp_general_lem a b, power_of_two a b 96, power_of_two a b 160, power_of_two a b 224)

-- The low `8 k + 8` bits, read as a signed number of that width.
abbrev pub extended : ℕ → ℕ → ℕ
extended k val =
    let low = val % 2 ^ suc (k * 8 + 7) in
    if ltb low (2 ^ (k * 8 + 7)) then low else low + (2 ^ 256 - 2 ^ suc (k * 8 + 7))

-- The same with the sign bit at `n`, where `2 ^ m` is the part of the word from that bit on.
sign_extended_lem :
    (n m val : ℕ)
    → n + m ≡ 256
    → 0 < m
    → IsWord val
    → (if bit_and (shift_right val (pos n)) 1 == 0
        then bit_and val (2 ^ n - 1)
        else bit_or val (not_word (2 ^ n - 1)))
      ≡ (if ltb (val % 2 ^ suc n) (2 ^ n)
          then val % 2 ^ suc n
          else val % 2 ^ suc n + (2 ^ 256 - 2 ^ suc n))
unfolding shift_right not_word
sign_extended_lem n m val e h hv = elim (Bool-cases (val / 2 ^ n % 2 == 0)) [
  | inl clear ↦
      let no_bit : val / 2 ^ n % 2 ≡ 0 = ground arith in
      let low : val % 2 ^ suc n ≡ val % 2 ^ n = wider ∙ rw no_bit (omega arith) in
      ground (arith, bit_and_mask 1 (val / 2 ^ n), bit_and_mask n val, low, small)
  | inr set ↦
      let bit : val / 2 ^ n % 2 ≡ 1 = ground arith in
      let low : val % 2 ^ suc n ≡ val % 2 ^ n + 2 ^ n = wider ∙ rw bit (omega arith) in
      ground (arith, bit_and_mask 1 (val / 2 ^ n), low, high, fits, two-pow-suc n)
]
  where
    wider : val % 2 ^ suc n ≡ val % 2 ^ n + 2 ^ n * (val / 2 ^ n % 2)
    wider = rw (two-pow-suc n) (mod-double val (2 ^ n) (one-le-two-pow n))

    small : val % 2 ^ n < 2 ^ n
    small = omega (arith, one-le-two-pow n)

    fits : 2 * 2 ^ n ≤ 2 ^ 256
    fits = omega (arith, two-pow-suc n, two-pow-le (suc n) 256 (omega arith))

    high : bit_or val (2 ^ 256 - 1 - (2 ^ n - 1) % 2 ^ 256) ≡ val % 2 ^ n + (2 ^ 256 - 2 ^ n)
    high =
        let inverted : 2 ^ 256 - 1 - (2 ^ n - 1) % 2 ^ 256 ≡ 2 ^ 256 - 2 ^ n =
          omega (arith, fits, one-le-two-pow n) in
        rw inverted (bit_or_high_word n m 256 val e hv)

no_opposite_signs :
    (x r : ℤ)
    → (neg_part x ≡ 0 → neg_part r ≡ 0)
    → (pos_part x ≡ 0 → pos_part r ≡ 0)
    → (pos_part x * neg_part r ≡ 0) × (neg_part x * pos_part r ≡ 0)
no_opposite_signs (pos n) r h k = (rw (h refl) (mul-zero n), zero-mul (pos_part r))
no_opposite_signs (negsuc n) r h k = (zero-mul (neg_part r), rw (k refl) (mul-zero (suc n)))

module _ (s : RunState) (valid : IsValid s.stack) (a b : ℕ) (rest : List ℕ)
    (shows : view s.stack ≡ a ∷ b ∷ rest) where
  two :
      (body : List ℕ → Exec (Unit {0})) (v w : ℕ)
      → ((t : RunState) → body (a ∷ b ∷ []) t ≡ push v t)
      → v ≡ w
      → Leaves (pop_n 2 >>= body) s (w ∷ rest)
  two body v w pushes e = rw (← e) (replaces s valid (a ∷ b ∷ []) rest shows 1 body v refl pushes)

  -- On a valid stack with words `a` and `b` on top, ADD, MUL and SUB succeed and leave the sum,
  -- the product and the difference modulo 2 ^ 256.
  pub wrapping_ops :
      IsWord a
      → IsWord b
      → Leaves add s ((a + b) % 2 ^ 256 ∷ rest)
        × Leaves mul s (a * b % 2 ^ 256 ∷ rest)
        × Leaves sub s ((a + (2 ^ 256 - b)) % 2 ^ 256 ∷ rest)
  unfolding add mul sub
  wrapping_ops ha hb = (
    two _ _ _ (λ t. refl) (modulo-add a b (2 ^ 256)),
    two _ _ _ (λ t. refl) (modulo-mul a b (2 ^ 256)),
    two _ _ _ (λ t. refl) (modulo-sub a b ha hb),
  )

  -- On a valid stack with a word `a` and `b` on top, DIV and MOD succeed and leave the quotient
  -- and the remainder, and 0 for the divisor 0.
  pub unsigned_division_ops :
      IsWord a
      → Leaves div s ((if b == 0 then 0 else a / b) ∷ rest)
        × Leaves rem s ((if b == 0 then 0 else a % b) ∷ rest)
  unfolding div rem modulo
  unsigned_division_ops ha = (
    two _ _ _ (λ t. refl) (ground (arith, mod-eq_of_lt {n = a / b} {m = 2 ^ 256}, div-le_self a b)),
    two _ _ _ (λ t. refl) (ground arith),
  )

  -- On a valid stack with `a` and a word `b` on top, where `b` is not 0 and it is not the least
  -- integer that is divided by -1: SDIV and SMOD succeed, and their results as signed integers
  -- give the dividend back; the remainder is smaller than the divisor and has not the opposite
  -- sign of the dividend.
  pub signed_division_ops :
      b ≢ 0
      → IsWord b
      → (from_twos a ≢ negsuc (2 ^ 255 - 1)) ⊎ (from_twos b ≢ negsuc 0)
      → (q r : ℕ) × Leaves sdiv s (q ∷ rest)
        × Leaves smod s (r ∷ rest)
        × (from_twos q *ℤ from_twos b +ℤ from_twos r ≡ from_twos a)
        × (magnitude (from_twos r) < magnitude (from_twos b))
        × (pos_part (from_twos a) * neg_part (from_twos r) ≡ 0)
        × (neg_part (from_twos a) * pos_part (from_twos r) ≡ 0)
  unfolding sdiv smod
  signed_division_ops nz hb fits = (
    to_twos (tdiv x y),
    to_twos (trem x y),
    two _ _ _ (λ t. refl) (ground arith),
    two _ _ _ (λ t. refl) (ground arith),
    rw (q_back, r_back) (tdiv-trem x y),
    rw r_back bounds.0,
    rw r_back signs.0,
    rw r_back signs.1,
  )
    where
      x : ℤ
      x = from_twos a

      y : ℤ
      y = from_twos b

      y_ne : y ≢ pos 0
      y_ne e = unfold from_twos in ground arith

      q_back : from_twos (to_twos (tdiv x y)) ≡ tdiv x y
      q_back = from_twos-to_twos _ (tdiv-FitsWord x y (from_twos-FitsWord a) fits)

      r_back : from_twos (to_twos (trem x y)) ≡ trem x y
      r_back = from_twos-to_twos _ (trem-FitsWord x y (from_twos-FitsWord a))

      bounds :
          (magnitude (trem x y) < magnitude y)
          × (neg_part x ≡ 0 → neg_part (trem x y) ≡ 0)
          × (pos_part x ≡ 0 → pos_part (trem x y) ≡ 0)
      bounds = trem_bounds x y y_ne

      signs : (pos_part x * neg_part (trem x y) ≡ 0) × (neg_part x * pos_part (trem x y) ≡ 0)
      signs = no_opposite_signs x (trem x y) bounds.1 bounds.2

  -- On a valid stack with `a` and `b` on top, EXP succeeds and leaves `a ^ b` modulo 2 ^ 256 in
  -- their place, by its shortcuts and by its loop.
  pub exp_lem : Leaves exp s (a ^ b % 2 ^ 256 ∷ rest)
  unfolding exp
  exp_lem =
      two _ (exp_constant a b) _ (λ t. unfold exp_constant in ground arith) (exp_constant_lem a b)

  -- On a valid stack with `a` and a word `b` on top: SIGNEXTEND succeeds and leaves the lowest `a
  -- + 1` bytes of `b` read as a signed number of that width, as a word, and `b` itself from `a =
  -- 31` on.
  pub signextend_lem :
      IsWord b → Leaves signextend s ((if ltb a 31 then extended a b else b) ∷ rest)
  unfolding signextend
  signextend_lem hb =
      two _ _ _ (λ t. refl) (ground (arith, sign_extended_lem (a * 8 + 7) (249 - a * 8) b))

module _ (s : RunState) (valid : IsValid s.stack) (a b c : ℕ) (rest : List ℕ)
    (shows : view s.stack ≡ a ∷ b ∷ c ∷ rest) where
  -- On a valid stack with `a`, `b` and `c` on top, ADDMOD and MULMOD succeed and leave the sum and
  -- the product modulo `c`, not wrapped before the reduction, and 0 for the modulus 0.
  pub modular_ops :
      Leaves addmod s ((if c == 0 then 0 else (a + b) % c) ∷ rest)
      × Leaves mulmod s ((if c == 0 then 0 else a * b % c) ∷ rest)
  unfolding addmod mulmod
  modular_ops = (
    rw (← modulo-add) (replaces s valid (a ∷ b ∷ c ∷ []) rest shows 2 _ _ refl (λ t. refl)),
    rw (← modulo-mul) (replaces s valid (a ∷ b ∷ c ∷ []) rest shows 2 _ _ refl (λ t. refl)),
  )
