-- ===== src/Tvm/Gas/Growth.antt =====
-- What a growing memory costs in all.
use tvmjs_monorepo.Prelude.{
  ℕ, ◌+◌, ◌-◌, ◌*◌, ◌/◌, ◌≤◌, ◌<◌, ◌≡◌, refl, ltb, leb, ◌==◌, if◌then◌else◌, arith, ok, Bool-cases,
  inl, inr,
}
use native.Mathlib.Nat.{
  mul-le-mul_left, mul-le-mul_right, mul-lt-mul_of_pos_right, div-add-mod, mod-lt,
}
use tvmjs_monorepo.Tvm.Machine.{Common, RunState}
use tvmjs_monorepo.Tvm.Gas.{div_ceil, sub_mem_usage}

-- `divCeil(a, 32)` is the least number of words that hold `a` bytes.
div_ceil_lem : (a : ℕ) → (a ≤ div_ceil a 32 * 32) × (div_ceil a 32 * 32 < a + 32)
unfolding div_ceil
div_ceil_lem a = ground arith

-- The price of a memory of `words` words.
abbrev pub memory_cost : Common → ℕ → ℕ
memory_cost common words =
    words * common.memory_gas + words * words / common.quad_coefficient_div_gas

-- The frame has been charged for the memory that it has.
abbrev pub IsPaid : Common → RunState → Type 0
IsPaid common s = s.highest_mem_cost ≡ memory_cost common s.memory_word_count

div-le-div_right : (q a b : ℕ) → 0 < q → a ≤ b → a / q ≤ b / q
div-le-div_right q a b h le = elim (Bool-cases (ltb (b / q) (a / q))) [
  | inr fine ↦ ground arith
  | inl over ↦
      let more : b / q + 1 ≤ a / q = ground arith in
      let scaled : (b / q + 1) * q ≤ a / q * q = mul-le-mul_right q more in
      absurd (omega (arith, scaled, div-add-mod a q, div-add-mod b q, mod-lt b h))
]

memory_cost-lt :
    (common : Common) (v w : ℕ)
    → 0 < common.memory_gas
    → 0 < common.quad_coefficient_div_gas
    → v < w
    → memory_cost common v < memory_cost common w
memory_cost-lt common v w g d h = omega (arith, linear, square)
  where
    below : v ≤ w
    below = omega arith

    smaller : v * v ≤ w * w
    smaller = omega (arith, mul-le-mul_right v below, mul-le-mul_left w below)

    linear : v * common.memory_gas < w * common.memory_gas
    linear = mul-lt-mul_of_pos_right h g

    square : v * v / common.quad_coefficient_div_gas ≤ w * w / common.quad_coefficient_div_gas
    square = div-le-div_right common.quad_coefficient_div_gas (v * v) (w * w) d smaller

-- Where the prices are positive and the frame has been charged for the memory that it has: an
-- access does not shrink the memory, makes it large enough for the accessed range where that is
-- not empty, and is charged what the memory then costs beyond what it cost before, so that the
-- frame has again been charged for what it has.
pub sub_mem_usage_lem :
    (common : Common) (offset size : ℕ) (s : RunState)
    → 0 < common.memory_gas
    → 0 < common.quad_coefficient_div_gas
    → IsPaid common s
    → (charge : ℕ) × (t : RunState) × (sub_mem_usage offset size common s ≡ ok (charge, t))
      × IsPaid common t
      × (s.memory_word_count ≤ t.memory_word_count)
      × ((if size == 0 then 0 else offset + size) ≤ t.memory_word_count * 32)
      × (memory_cost common s.memory_word_count + charge ≡ memory_cost common t.memory_word_count)
unfolding sub_mem_usage
sub_mem_usage_lem common offset size s g d paid = elim (Bool-cases (size == 0)) [
  | inl empty ↦ (0, s, ground arith, paid, omega arith, ground arith, omega arith)
  | inr some ↦ elim (Bool-cases (leb words s.memory_word_count)) [
    | inl fits ↦ (
      0,
      s,
      ground arith,
      paid,
      omega arith,
      ground (arith, div_ceil_lem (offset + size)),
      omega arith,
    )
    | inr grows ↦
        let more : memory_cost common s.memory_word_count < memory_cost common words =
          memory_cost-lt common s.memory_word_count words g d (ground arith) in
        (
          memory_cost common words - s.highest_mem_cost,
          record s { memory_word_count = words; highest_mem_cost = memory_cost common words },
          ground (arith, more),
          refl,
          ground arith,
          ground (arith, div_ceil_lem (offset + size)),
          omega (arith, more, paid),
        )
  ]
]
  where
    words : ℕ
    words = div_ceil (offset + size) 32
