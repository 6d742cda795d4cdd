-- ===== src/Prelude/Bits.antt =====
-- `&` and `|` on natural numbers as arithmetic, at every width.
use Prim.Native.Nat.{
  ℕ, zero, suc, ◌+◌, ◌-◌, ◌*◌, ◌/◌, ◌%◌, ◌^◌, ◌≤◌, ◌<◌, min, max, bit_and, bit_or, digits,
  bit_and-bitwise, bit_or-bitwise,
}
use mathlib.Core.Path.{◌≡◌, refl, ap}
use native.Mathlib.Nat.{
  pow-suc, one-le-pow, pow-le-pow_right, mul_comm, div-add-mod, div-lt_iff_lt-mul,
}
use tvmjs_monorepo.Prelude.Power.{pow-add}
use native.Mathlib.Omega.{arith}

-- Both operations go through the binary digits of the first number, on fuel; what is left of the second
-- at the end goes through `last`.
module _ (last : ℕ → ℕ) (join : ℕ → ℕ → ℕ) where
  enough_fuel : (x y v w : ℕ) → v ≤ x → v ≤ y → digits last join x v w ≡ digits last join y v w
  enough_fuel zero zero zero w hx hy = refl
  enough_fuel zero (suc y) zero w hx hy = refl
  enough_fuel (suc x) zero zero w hx hy = refl
  enough_fuel (suc x) (suc y) zero w hx hy = refl
  enough_fuel zero y (suc v) w hx hy = elim hx [ ]
  enough_fuel (suc x) zero (suc v) w hx hy = elim hy [ ]
  enough_fuel (suc x) (suc y) (suc v) w hx hy =
      let shorter = enough_fuel x y (suc v / 2) (w / 2) (omega arith) (omega arith) in
      omega (arith, shorter)

-- The lowest digit of `&`, and the rest.
pub bit_and_step : (a b : ℕ) → bit_and a b ≡ bit_and (a / 2) (b / 2) * 2 + min (a % 2) (b % 2)
bit_and_step zero w = omega (arith, bit_and-bitwise 0 w, bit_and-bitwise 0 (w / 2))
bit_and_step (suc v) w =
    let half = suc v / 2 in
    let steps = enough_fuel (λ t. zero) min v half half (w / 2) (omega arith) (omega arith) in
    omega (arith, steps, bit_and-bitwise half (w / 2), bit_and-bitwise (suc v) w)

-- The lowest digit of `|`, and the rest.
pub bit_or_step : (a b : ℕ) → bit_or a b ≡ bit_or (a / 2) (b / 2) * 2 + max (a % 2) (b % 2)
bit_or_step zero w = omega (arith, bit_or-bitwise 0 w, bit_or-bitwise 0 (w / 2))
bit_or_step (suc v) w =
    let half = suc v / 2 in
    let steps = enough_fuel (λ t. t) max v half half (w / 2) (omega arith) (omega arith) in
    omega (arith, steps, bit_or-bitwise half (w / 2), bit_or-bitwise (suc v) w)

pub two-pow-suc : (k : ℕ) → 2 ^ suc k ≡ 2 * 2 ^ k
two-pow-suc k = omega (arith, pow-suc 2 k)

pub one-le-two-pow : (k : ℕ) → 1 ≤ 2 ^ k
one-le-two-pow k = one-le-pow k 2 (omega arith)

pub two-pow-le : (m n : ℕ) → m ≤ n → 2 ^ m ≤ 2 ^ n
two-pow-le m n h = pow-le-pow_right {n = 2} (omega arith) h

cleared : (fuel v : ℕ) → v ≤ fuel → bit_and v 0 ≡ 0
cleared fuel zero below = refl
cleared zero (suc v) below = elim below [ ]
cleared (suc fuel) (suc v) below =
    let rest = cleared fuel (suc v / 2) (omega arith) in omega (arith, rest, bit_and_step (suc v) 0)

pub bit_and-zero : (a : ℕ) → bit_and a 0 ≡ 0
bit_and-zero v = cleared v v (omega arith)

bit_and_low : (k q r a : ℕ) → a ≡ q * 2 ^ k + r → r < 2 ^ k → bit_and a (2 ^ k - 1) ≡ r
bit_and_low zero q r a e h = omega (arith, bit_and-zero a)
bit_and_low (suc k) q r a e h = omega (
  arith,
  scaled,
  two-pow-suc k,
  one-le-two-pow k,
  masked_step,
  bit_and_low k q (r / 2) (a / 2) (omega (arith, scaled)) (omega (arith, two-pow-suc k)),
)
  where
    scaled : q * 2 ^ suc k ≡ 2 * (q * 2 ^ k)
    scaled = omega (arith, ap (λ (t : ℕ). q * t) (two-pow-suc k))

    halved : (2 ^ suc k - 1) / 2 ≡ 2 ^ k - 1
    halved = omega (arith, two-pow-suc k, one-le-two-pow k)

    masked_step :
        bit_and a (2 ^ suc k - 1)
        ≡ bit_and (a / 2) (2 ^ k - 1) * 2 + min (a % 2) ((2 ^ suc k - 1) % 2)
    masked_step = rw halved at (bit_and_step a (2 ^ suc k - 1))

-- A mask of `k` ones keeps the remainder by `2 ^ k`.
pub bit_and_mask : (k a : ℕ) → bit_and a (2 ^ k - 1) ≡ a % 2 ^ k
bit_and_mask k a =
    bit_and_low k (a / 2 ^ k) (a % 2 ^ k) a (omega (arith, one-le-two-pow k))
      (omega (arith, one-le-two-pow k))

bit_or-zero_fuel : (n a : ℕ) → a ≤ n → bit_or a 0 ≡ a
bit_or-zero_fuel n zero h = refl
bit_or-zero_fuel zero (suc a) h = absurd (omega arith)
bit_or-zero_fuel (suc n) (suc a) h =
    omega (arith, bit_or_step (suc a) 0, bit_or-zero_fuel n (suc a / 2) (omega arith))

pub bit_or-zero : (a : ℕ) → bit_or a 0 ≡ a
bit_or-zero a = bit_or-zero_fuel a a (omega arith)

zero-bit_or : (b : ℕ) → bit_or 0 b ≡ b
zero-bit_or b = bit_or-bitwise 0 b

-- `r | (q << k)` is a sum when `r` fits `k` bits.
pub bit_or_fields : (k q r b : ℕ) → b ≡ q * 2 ^ k → r < 2 ^ k → bit_or r b ≡ r + q * 2 ^ k
bit_or_fields zero q r b e h =
    let z : r ≡ 0 = omega arith in omega (arith, z, rw (← z) at (zero-bit_or b))
bit_or_fields (suc k) q r b e h = omega (
  arith,
  scaled,
  bit_or_step r b,
  bit_or_fields k q (r / 2) (b / 2) (omega (arith, scaled)) (omega (arith, two-pow-suc k)),
)
  where
    scaled : q * 2 ^ suc k ≡ 2 * (q * 2 ^ k)
    scaled = omega (arith, ap (λ (t : ℕ). q * t) (two-pow-suc k))

-- `(q << k) | r` likewise.
pub bit_or_low : (k q r b : ℕ) → b ≡ q * 2 ^ k → r < 2 ^ k → bit_or b r ≡ q * 2 ^ k + r
bit_or_low zero q r b e h =
    let z : r ≡ 0 = omega arith in omega (arith, z, rw (← z) at (bit_or-zero b))
bit_or_low (suc k) q r b e h = omega (
  arith,
  scaled,
  bit_or_step b r,
  bit_or_low k q (r / 2) (b / 2) (omega (arith, scaled)) (omega (arith, two-pow-suc k)),
)
  where
    scaled : q * 2 ^ suc k ≡ 2 * (q * 2 ^ k)
    scaled = omega (arith, ap (λ (t : ℕ). q * t) (two-pow-suc k))

or_ones : (n v : ℕ) → v < 2 ^ n → bit_or v (2 ^ n - 1) ≡ 2 ^ n - 1
or_ones zero v h = let z : v ≡ 0 = omega arith in rw z refl
or_ones (suc n) v h =
    omega (
      arith,
      two-pow-suc n,
      one-le-two-pow n,
      step,
      or_ones n (v / 2) (omega (arith, two-pow-suc n)),
    )
  where
    halved : (2 ^ suc n - 1) / 2 ≡ 2 ^ n - 1
    halved = omega (arith, two-pow-suc n, one-le-two-pow n)

    step :
        bit_or v (2 ^ suc n - 1)
        ≡ bit_or (v / 2) (2 ^ n - 1) * 2 + max (v % 2) ((2 ^ suc n - 1) % 2)
    step = rw halved at (bit_or_step v (2 ^ suc n - 1))

-- `v | mask` for a mask of `n` ones above `k` zeros keeps the low bits and sets the others.
pub bit_or_high :
    (k n q r v b : ℕ)
    → v ≡ q * 2 ^ k + r
    → r < 2 ^ k
    → q < 2 ^ n
    → b ≡ (2 ^ n - 1) * 2 ^ k
    → bit_or v b ≡ r + b
bit_or_high zero n q r v b e hr hq eb =
    let ev : v ≡ q = omega arith in
    let ew : b ≡ 2 ^ n - 1 = omega arith in rw (ev, ew) (omega (arith, or_ones n q hq))
bit_or_high (suc k) n q r v b e hr hq eb = omega (
  arith,
  scaled q,
  scaled (2 ^ n - 1),
  bit_or_step v b,
  bit_or_high k n q (r / 2) (v / 2) (b / 2) (omega (arith, scaled q)) (omega (arith, two-pow-suc k))
      hq (omega (arith, scaled (2 ^ n - 1))),
)
  where
    scaled : (t : ℕ) → t * 2 ^ suc k ≡ 2 * (t * 2 ^ k)
    scaled t = omega (arith, ap (λ (p : ℕ). t * p) (two-pow-suc k))

-- In a word of `n + m` bits, setting the `m` high bits keeps the `n` low ones.
pub bit_or_high_word :
    (n m w v : ℕ) → n + m ≡ w → v < 2 ^ w → bit_or v (2 ^ w - 2 ^ n) ≡ v % 2 ^ n + (2 ^ w - 2 ^ n)
bit_or_high_word n m w v e h =
    bit_or_high n m (v / 2 ^ n) (v % 2 ^ n) v (2 ^ w - 2 ^ n) (omega (arith, div-add-mod v (2 ^ n)))
      (omega (arith, one-le-two-pow n))
      ((div-lt_iff_lt-mul (one-le-two-pow n)).1 (omega (arith, whole))) (omega (arith, whole, ones))
  where
    whole : 2 ^ w ≡ 2 ^ m * 2 ^ n
    whole = rw (← e, pow-add) (mul_comm (2 ^ n) (2 ^ m))

    ones : (2 ^ m - 1) * 2 ^ n + 2 ^ n ≡ 2 ^ m * 2 ^ n
    ones =
        let some : 2 ^ m ≡ (2 ^ m - 1) + 1 = omega (arith, one-le-two-pow m) in
        omega (arith, ap (λ (t : ℕ). t * 2 ^ n) some)
