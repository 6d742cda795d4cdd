-- ===== src/Tvm/Ops/Words.antt =====
-- packages/tvm/src/opcodes/functions.ts: the handlers of one and two words together.
use tvmjs_monorepo.Prelude.{
  ℕ, ◌+◌, ◌-◌, ◌*◌, ◌/◌, ◌%◌, ◌^◌, ◌≡◌, ◌==◌, ltb, if◌then◌else◌, List, ◌∷◌,
}
use tvmjs_monorepo.Tvm.Stack.View.{view, IsValid}
use tvmjs_monorepo.Tvm.Word.{IsWord}
use tvmjs_monorepo.Tvm.Machine.{RunState}
use tvmjs_monorepo.Tvm.Ops.Frame.{Leaves}
use tvmjs_monorepo.Tvm.Ops.Arith.{add, mul, sub, div, rem}
use tvmjs_monorepo.Tvm.Ops.Arith.Laws.{wrapping_ops, unsigned_division_ops}
use tvmjs_monorepo.Tvm.Ops.Logic.{lt, gt, slt, sgt, iszero, not, byte}
use tvmjs_monorepo.Tvm.Ops.Logic.Laws.{biased, byte_from_top, comparison_ops, byte_lem, unary_ops}

module _ (s : RunState) (valid : IsValid s.stack) (a b : ℕ) (rest : List ℕ)
    (shows : view s.stack ≡ a ∷ b ∷ rest) where
  -- On a valid stack with words `a` and `b` on top, these succeed. ADD, MUL and SUB leave the sum,
  -- the product and the difference modulo 2 ^ 256; DIV and MOD the quotient and the remainder, and
  -- 0 for the divisor 0; LT and GT compare the words, SLT and SGT the words with the sign bits
  -- flipped; BYTE leaves the byte of `b` at the index `a`, counted from the highest, and 0 from
  -- index 32 on; NOT leaves the complement of `a` to 2 ^ 256 - 1, and ISZERO 1 for 0 and 0 for any
  -- other `a`.
  pub word_ops :
      IsWord a
      → IsWord b
      → (Leaves add s ((a + b) % 2 ^ 256 ∷ rest)
          × Leaves mul s (a * b % 2 ^ 256 ∷ rest)
          × Leaves sub s ((a + (2 ^ 256 - b)) % 2 ^ 256 ∷ rest))
        × (Leaves div s ((if b == 0 then 0 else a / b) ∷ rest)
            × Leaves rem s ((if b == 0 then 0 else a % b) ∷ rest))
        × (Leaves lt s ((if ltb a b then 1 else 0) ∷ rest)
            × Leaves gt s ((if ltb b a then 1 else 0) ∷ rest)
            × Leaves slt s ((if ltb (biased a) (biased b) then 1 else 0) ∷ rest)
            × Leaves sgt s ((if ltb (biased b) (biased a) then 1 else 0) ∷ rest))
        × Leaves byte s (byte_from_top a b ∷ rest)
        × (Leaves not s ((2 ^ 256 - 1 - a) ∷ b ∷ rest)
            × Leaves iszero s ((if a == 0 then 1 else 0) ∷ b ∷ rest))
  word_ops ha hb = (
    wrapping_ops s valid a b rest shows ha hb,
    unsigned_division_ops s valid a b rest shows ha,
    comparison_ops s valid a b rest shows ha hb,
    byte_lem s valid a b rest shows,
    unary_ops s valid a (b ∷ rest) shows ha,
  )
