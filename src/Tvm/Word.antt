-- ===== src/Tvm/Word.antt =====
-- packages/tvm/src/opcodes/util.ts: arithmetic on 256-bit words. A bigint that cannot be negative is
-- a natural number, any other a signed integer.
pub mod Signed
pub mod Exponent
pub mod Binary
use tvmjs_monorepo.Prelude.{
  ℕ, zero, suc, ◌+◌, ◌-◌, ◌*◌, ◌/◌, ◌%◌, ◌^◌, ◌≤◌, ◌<◌, ◌≡◌, Bool, true, false, ltb, leb, ◌==◌, not,
  if◌then◌else◌, bit_and, bit_or, arith, dec_lt,
}
use mathlib.Core.Logic.{dite}
use mathlib.Core.WellFounded.{Acc}
use tvmjs_monorepo.Prelude.Int.{ℤ, pos, negsuc}
use tvmjs_monorepo.Prelude.Order.{lt_wf}

abbrev pub two_pow256 : ℕ
two_pow256 = 2 ^ 256

-- `MAX_INTEGER_BIGINT`
abbrev pub max_integer : ℕ
max_integer = 2 ^ 256 - 1

abbrev pub IsWord : ℕ → Type 0
IsWord a = a < 2 ^ 256

-- `mod(a, b)` of the source for a positive `b`. JavaScript's `%` has the sign of `a`, and a negative remainder is
-- moved up by `b`.
unfoldable pub modulo : ℤ → ℕ → ℕ
modulo (pos a) b = a % b
modulo (negsuc a) b = let r = suc a % b in if ltb 0 r then b - r else 0

-- `BigInt.asIntN(256, a)`
unfoldable pub from_twos : ℕ → ℤ
from_twos a = let w = a % 2 ^ 256 in if ltb w (2 ^ 255) then pos w else negsuc (2 ^ 256 - 1 - w)

-- `BigInt.asUintN(256, a)`
unfoldable pub to_twos : ℤ → ℕ
to_twos (pos a) = a % 2 ^ 256
to_twos (negsuc a) = 2 ^ 256 - 1 - a % 2 ^ 256

-- Bigint division and remainder, which truncate towards zero.
abbrev pub negated : ℕ → ℤ
negated zero = pos 0
negated (suc n) = negsuc n

unfoldable pub tdiv : ℤ → ℤ → ℤ
tdiv (pos a) (pos b) = pos (a / b)
tdiv (pos a) (negsuc b) = negated (a / suc b)
tdiv (negsuc a) (pos b) = negated (suc a / b)
tdiv (negsuc a) (negsuc b) = pos (suc a / suc b)

unfoldable pub trem : ℤ → ℤ → ℤ
trem (pos a) (pos b) = pos (a % b)
trem (pos a) (negsuc b) = pos (a % suc b)
trem (negsuc a) (pos b) = negated (suc a % b)
trem (negsuc a) (negsuc b) = negated (suc a % suc b)

-- `x >> n` and `x << n` on a bigint `x` that is not negative. A negative count shifts the other way.
unfoldable pub shift_right : ℕ → ℤ → ℕ
shift_right x (pos n) = x / 2 ^ n
shift_right x (negsuc n) = x * 2 ^ suc n

unfoldable pub shift_left : ℕ → ℤ → ℕ
shift_left x (pos n) = x * 2 ^ n
shift_left x (negsuc n) = x / 2 ^ suc n

-- `BigInt.asUintN(256, ~a)`
unfoldable pub not_word : ℕ → ℕ
not_word a = 2 ^ 256 - 1 - a % 2 ^ 256

abbrev pub halves : (e : ℕ) → 0 < e → e / 2 < e
halves e h = omega arith

-- The loop of `exponentiation`, which ends since `exp` is halved.
pub exponent_loop : ℕ → ℕ → (exp : ℕ) → Acc ◌<◌ exp → ℕ
exponent_loop t bas exp (Acc.intro _ smaller) =
    dite (dec_lt 0 exp)
      (λ more.
        exponent_loop (if not (exp % 2 == 0) then t * bas % two_pow256 else t)
          (bas * bas % two_pow256) (exp / 2) (smaller (exp / 2) (halves exp more)))
      (λ _. t)

unfoldable pub exponentiation : ℕ → ℕ → ℕ
unfolding exponent_loop lt_wf
exponentiation bas exp = exponent_loop 1 bas exp (lt_wf.apply exp)

-- `x.toString(2).length`: the number of binary digits. `fuel` is at least that number.
pub digits_loop : ℕ → ℕ → ℕ
digits_loop zero x = 0
digits_loop (suc fuel) x = let rest = digits_loop fuel (x / 2) in if x == 0 then 0 else suc rest

unfoldable pub binary_length : ℕ → ℕ
unfolding digits_loop
binary_length x = digits_loop x x

-- `createAddressFromStackBigInt` masks the word to 160 bits.
unfoldable pub address_of_word : ℕ → ℕ
address_of_word value = bit_and value (2 ^ 160 - 1)

unfoldable pub abs : ℤ → ℤ
abs (pos a) = pos a
abs (negsuc a) = pos (suc a)
