-- ===== src/Tvm/Ops/Flow/Immediate.antt =====
-- EIP-8024: the stack depths that an immediate byte stands for.
use tvmjs_monorepo.Prelude.{
  ℕ, ◌+◌, ◌-◌, ◌/◌, ◌%◌, ◌≤◌, ◌<◌, ◌≡◌, ◌*◌, ◌⊎◌, ltb, leb, if◌then◌else◌, arith, ok, err,
}
use tvmjs_monorepo.Util.Bytes.{IsByte}
use tvmjs_monorepo.Tvm.Errors.{invalid_opcode}
use tvmjs_monorepo.Tvm.Machine.{RunState, Exec}
use tvmjs_monorepo.Tvm.Ops.Flow.{
  is_eip8024_single_immediate_valid, is_eip8024_pair_immediate_valid,
  decode_eip8024_single_immediate, decode_eip8024_pair_immediate,
}

module _ (s : RunState) where
  -- The code is a bijection between the valid bytes and the items of a range, and traps at every other byte.
  abbrev pub IsCode : {A : Type 0} → (ℕ → Exec A) → (ℕ → Type 0) → (A → Type 0) → Type 0
  IsCode {A = A} decode Valid InRange =
      ((b : ℕ) → IsByte b → Valid b → (a : A) × (decode b s ≡ ok (a, s)) × InRange a)
      × ((b : ℕ) → IsByte b → ¬ Valid b → decode b s ≡ err invalid_opcode)
      × ((b c : ℕ) (a : A)
          → IsByte b
          → IsByte c
          → decode b s ≡ ok (a, s)
          → decode c s ≡ ok (a, s)
          → b ≡ c)
      × ((a : A) → InRange a → (b : ℕ) × IsByte b × (decode b s ≡ ok (a, s)))

  abbrev pub IsSingle : ℕ → Type 0
  IsSingle b = (b ≤ 90) ⊎ (128 ≤ b)

  abbrev pub IsPair : ℕ → Type 0
  IsPair b = (b ≤ 79) ⊎ (128 ≤ b)

  abbrev pub IsSingleDepth : ℕ → Type 0
  IsSingleDepth n = (17 ≤ n) × (n ≤ 235)

  abbrev pub ArePairDepths : ℕ × ℕ → Type 0
  ArePairDepths (x, y) = (1 ≤ x) × (x ≤ 13) × (x < y) × (x + y ≤ 30)

  IsSingle-IsCode : IsCode decode_eip8024_single_immediate IsSingle IsSingleDepth
  unfolding decode_eip8024_single_immediate is_eip8024_single_immediate_valid
  IsSingle-IsCode = (
    λ b h valid. (if leb b 90 then b + 17 else b - 20, ground arith, (ground arith, ground arith)),
    λ b h invalid. ground arith,
    λ b c n hb hc eb ec. ground (arith, eb, ec),
    λ n (low, high). (if leb n 107 then n - 17 else n + 20, ground arith, ground arith),
  )

  pair_of : ℕ → ℕ × ℕ
  pair_of b =
      let k = if leb b 79 then b else b - 48 in
      let q = k / 16 in let r = k % 16 in if ltb q r then (q + 1, r + 1) else (r + 1, 29 - q)

  byte_of : ℕ → ℕ → ℕ
  byte_of x y =
      let k = if leb y 16 then 16 * (x - 1) + (y - 1) else 16 * (29 - y) + (x - 1) in
      if leb k 79 then k else k + 48

  IsPair-IsCode : IsCode decode_eip8024_pair_immediate IsPair ArePairDepths
  unfolding decode_eip8024_pair_immediate is_eip8024_pair_immediate_valid pair_of byte_of
  IsPair-IsCode = (
    λ b h valid.
        (pair_of b, ground arith, (ground arith, ground arith, ground arith, ground arith)),
    λ b h invalid. ground arith,
    λ b c a hb hc eb ec. ground (arith, eb, ec),
    λ (x, y) (low, high, less, sum). (byte_of x y, ground arith, ground arith),
  )

  -- The bytes up to 90 and from 128 on stand one to one for the depths from 17 to 235 of DUPN and
  -- SWAPN, every one of which has a byte. The bytes up to 79 and from 128 on stand one to one for
  -- the depths `x` and `y` of EXCHANGE with 1 ≤ x ≤ 13, x < y and x + y ≤ 30, every two of which
  -- have a byte. Every other byte is an invalid opcode.
  pub immediates_lem :
      IsCode decode_eip8024_single_immediate IsSingle IsSingleDepth
      × IsCode decode_eip8024_pair_immediate IsPair ArePairDepths
  immediates_lem = (IsSingle-IsCode, IsPair-IsCode)
