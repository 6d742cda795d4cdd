-- ===== src/Prelude/Power.antt =====
-- Powers, and products and powers under `%`.
use Prim.Native.Nat.{ℕ, zero, suc, ◌+◌, ◌*◌, ◌/◌, ◌%◌, ◌^◌, ◌≤◌, ◌<◌}
use mathlib.Core.Path.{◌≡◌, sym, ap, ◌∙◌}
use native.Mathlib.Nat.{
  pow-suc, pow-zero, mod-lt, mod-eq_of_lt, add-mul-mod_self_left, div-add-mod, mul_assoc, mul_comm,
  mul-one, add-zero, add-suc,
}
use native.Mathlib.Omega.{arith}

pub pow-add : (b m n : ℕ) → b ^ (m + n) ≡ b ^ m * b ^ n
pow-add b m zero = rw (add-zero, pow-zero b) (sym (mul-one (b ^ m)))
pow-add b m (suc n) = rw (add-suc, pow-suc, pow-add b m n, pow-suc, mul_assoc)

pub pow-double : (b n : ℕ) → (b * b) ^ n ≡ b ^ (n + n)
pow-double b zero = pow-zero (b * b) ∙ sym (pow-zero b) ∙ ap (b ^◌) (omega arith)
pow-double b (suc n) = rw (pow-suc, pow-double b n, two_more, pow-suc, pow-suc, mul_assoc)
  where
    two_more : suc n + suc n ≡ suc (suc (n + n))
    two_more = omega arith

-- A factor may be reduced first.
pub mod-mul-mod : (a b n : ℕ) → a % n * b % n ≡ a * b % n
mod-mul-mod a b n =
    sym (add-mul-mod_self_left (a % n * b) n (a / n * b)) ∙ ap (λ (t : ℕ). t % n) regrouped
  where
    regrouped : a % n * b + n * (a / n * b) ≡ a * b
    regrouped = omega (arith, ap (λ (t : ℕ). t * b) (div-add-mod a n))

pub mul-mod-mod : (a b n : ℕ) → a * (b % n) % n ≡ a * b % n
mul-mod-mod a b n = rw (mul_comm a (b % n), mod-mul-mod, mul_comm b a)

pub pow-mod : (b k n : ℕ) → (b % n) ^ k % n ≡ b ^ k % n
pow-mod b zero n = ap (◌% n) (pow-zero (b % n) ∙ sym (pow-zero b))
pow-mod b (suc k) n =
    rw (pow-suc, ← mod-mul-mod, pow-mod b k n, mod-mul-mod, mul-mod-mod, ← pow-suc)

-- One binary digit more of a remainder.
pub mod-double : (v p : ℕ) → 0 < p → v % (2 * p) ≡ v % p + p * (v / p % 2)
mod-double v p h =
    ap (◌% (2 * p)) split
    ∙ add-mul-mod_self_left (v % p + p * (v / p % 2)) (2 * p) (v / p / 2)
    ∙ mod-eq_of_lt small
  where
    halves : v / p ≡ 2 * (v / p / 2) + v / p % 2
    halves = omega arith

    split : v ≡ v % p + p * (v / p % 2) + 2 * p * (v / p / 2)
    split = omega (arith, div-add-mod v p, ap (λ (t : ℕ). p * t) halves)

    digit : p * (v / p % 2) ≤ p
    digit = grind arith

    small : v % p + p * (v / p % 2) < 2 * p
    small = omega (arith, digit, mod-lt v h)
