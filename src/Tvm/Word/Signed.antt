-- ===== src/Tvm/Word/Signed.antt =====
-- Two's complement: the readings invert each other, and the signed operations follow the integers.
use tvmjs_monorepo.Prelude.{
  ℕ, zero, suc, ◌+◌, ◌-◌, ◌*◌, ◌/◌, ◌%◌, ◌^◌, ◌≤◌, ◌<◌, ◌≡◌, ◌≢◌, refl, sym, ap, ◌∙◌, ◌⊎◌, inl, inr,
  arith,
}
use native.Mathlib.Nat.{div-le_self, mod-le, mul-div-le, div-one, div-add-mod, zero-mul}
use tvmjs_monorepo.Prelude.Int.{
  ℤ, pos, negsuc, ◌+ℤ◌, ◌-ℤ◌, ◌*ℤ◌, int_laws, ◌≤ℤ◌, pos_part, neg_part,
}
use tvmjs_monorepo.Tvm.Word.{IsWord, modulo, from_twos, to_twos, tdiv, trem, negated}

-- The integers that 256 bits can hold.
abbrev pub FitsWord : ℤ → Type 0
FitsWord z = (negsuc (2 ^ 255 - 1) ≤ℤ z) × (z ≤ℤ pos (2 ^ 255 - 1))

pub to_twos-IsWord : (z : ℤ) → IsWord (to_twos z)
unfolding to_twos
to_twos-IsWord (pos n) = omega arith
to_twos-IsWord (negsuc n) = omega arith

pub from_twos-FitsWord : (a : ℕ) → FitsWord (from_twos a)
unfolding from_twos
from_twos-FitsWord a = ground arith

pub to_twos-from_twos : (a : ℕ) → IsWord a → to_twos (from_twos a) ≡ a
unfolding to_twos from_twos
to_twos-from_twos a h = ground arith

pub from_twos-to_twos : (z : ℤ) → FitsWord z → from_twos (to_twos z) ≡ z
unfolding to_twos from_twos
from_twos-to_twos (pos n) h = ground arith
from_twos-to_twos (negsuc n) h = ground arith

-- `mod` of a sum, a difference and a product is the arithmetic of the words.
pub modulo-sub :
    (a b : ℕ)
    → IsWord a
    → IsWord b
    → modulo (pos a -ℤ pos b) (2 ^ 256) ≡ (a + (2 ^ 256 - b)) % 2 ^ 256
unfolding modulo ◌-ℤ◌
modulo-sub a b ha hb = ground arith

negated_parts : (n : ℕ) → (pos_part (negated n) ≡ 0) × (neg_part (negated n) ≡ n)
negated_parts zero = omega arith
negated_parts (suc n) = omega arith

-- The quotient and the remainder of two integers that fit do fit, except for the one quotient of the
-- least integer by -1.
pub tdiv-FitsWord :
    (x y : ℤ) → FitsWord x → (x ≢ negsuc (2 ^ 255 - 1)) ⊎ (y ≢ negsuc 0) → FitsWord (tdiv x y)
unfolding tdiv
tdiv-FitsWord (pos a) (pos b) h o = omega (arith, div-le_self a b)
tdiv-FitsWord (pos a) (negsuc b) h o =
    omega (arith, div-le_self a (suc b), negated_parts (a / suc b))
tdiv-FitsWord (negsuc a) (pos b) h o =
    omega (arith, div-le_self (suc a) b, negated_parts (suc a / b))
tdiv-FitsWord (negsuc a) (negsuc zero) h (inl ne) = ground (arith, div-one (suc a))
tdiv-FitsWord (negsuc a) (negsuc zero) h (inr ne) = absurd (ne refl)
tdiv-FitsWord (negsuc a) (negsuc (suc b)) h o =
    omega (arith, mul-div-le (suc a) (suc (suc b)), grown)
  where
    grown : 2 * (suc a / suc (suc b)) ≤ suc (suc b) * (suc a / suc (suc b))
    grown = grind arith

pub trem-FitsWord : (x y : ℤ) → FitsWord x → FitsWord (trem x y)
unfolding trem
trem-FitsWord (pos a) (pos b) h = omega (arith, mod-le a b)
trem-FitsWord (pos a) (negsuc b) h = omega (arith, mod-le a (suc b))
trem-FitsWord (negsuc a) (pos b) h = omega (arith, mod-le (suc a) b, negated_parts (suc a % b))
trem-FitsWord (negsuc a) (negsuc b) h =
    omega (arith, mod-le (suc a) (suc b), negated_parts (suc a % suc b))

-- Products and sums of the signs that truncating division meets.
negated-eq : (n : ℕ) (z : ℤ) → pos_part z ≡ 0 → neg_part z ≡ n → z ≡ negated n
negated-eq n (pos m) p q = ground arith
negated-eq zero (negsuc m) p q = absurd (omega arith)
negated-eq (suc n) (negsuc m) p q = ground arith

mul_parts :
    (x y : ℤ)
    → (pos_part (x *ℤ y) + (pos_part x * neg_part y + neg_part x * pos_part y)
        ≡ neg_part (x *ℤ y) + (pos_part x * pos_part y + neg_part x * neg_part y))
unfolding ◌*ℤ◌
mul_parts x y = ground arith

module _ (q r y n : ℕ) (e : n ≡ y * q + r) where
  pos_pos : pos q *ℤ pos y +ℤ pos r ≡ pos n
  unfolding ◌*ℤ◌ ◌+ℤ◌
  pos_pos = ground arith

  scaled : (k : ℕ) → (pos_part (negated q) * k ≡ 0) × (neg_part (negated q) * k ≡ q * k)
  scaled k = (ap (◌* k) (negated_parts q).0 ∙ zero-mul k, ap (◌* k) (negated_parts q).1)

  neg_pos : negated q *ℤ pos y +ℤ negated r ≡ negated n
  neg_pos = omega (int_laws, mul_parts, negated_parts, scaled y)

  pos_neg : (k : ℕ) → y ≡ suc k → negated q *ℤ negsuc k +ℤ pos r ≡ pos n
  pos_neg k ey =
      omega (int_laws, mul_parts, negated_parts, scaled (suc k), ap (λ (t : ℕ). t * q) ey)

  neg_neg : (k : ℕ) → y ≡ suc k → pos q *ℤ negsuc k +ℤ negated r ≡ negated n
  neg_neg k ey = omega (int_laws, mul_parts, negated_parts, ap (λ (t : ℕ). t * q) ey)

-- Quotient and remainder give the dividend back.
pub tdiv-trem : (x y : ℤ) → tdiv x y *ℤ y +ℤ trem x y ≡ x
unfolding tdiv trem
tdiv-trem (pos a) (pos b) = pos_pos (a / b) (a % b) b a (sym (div-add-mod a b))
tdiv-trem (pos a) (negsuc b) =
    pos_neg (a / suc b) (a % suc b) (suc b) a (sym (div-add-mod a (suc b))) b refl
tdiv-trem (negsuc a) (pos b) =
    neg_pos (suc a / b) (suc a % b) b (suc a) (sym (div-add-mod (suc a) b))
tdiv-trem (negsuc a) (negsuc b) =
    neg_neg (suc a / suc b) (suc a % suc b) (suc b) (suc a) (sym (div-add-mod (suc a) (suc b))) b
      refl

-- The absolute value, as a natural number.
abbrev pub magnitude : ℤ → ℕ
magnitude z = pos_part z + neg_part z

-- The remainder is smaller than the divisor and has the sign of the dividend.
pub trem_bounds :
    (x y : ℤ)
    → y ≢ pos 0
    → (magnitude (trem x y) < magnitude y)
      × (neg_part x ≡ 0 → neg_part (trem x y) ≡ 0)
      × (pos_part x ≡ 0 → pos_part (trem x y) ≡ 0)
unfolding trem
trem_bounds (pos a) (pos b) ne = let nz : b ≢ 0 = λ e. ne (ap pos e) in omega (arith, nz)
trem_bounds (pos a) (negsuc b) ne = omega arith
trem_bounds (negsuc a) (pos b) ne =
    let nz : b ≢ 0 = λ e. ne (ap pos e) in omega (arith, nz, negated_parts (suc a % b))
trem_bounds (negsuc a) (negsuc b) ne = omega (arith, negated_parts (suc a % suc b))
