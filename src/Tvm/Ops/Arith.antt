-- ===== src/Tvm/Ops/Arith.antt =====
-- packages/tvm/src/opcodes/functions.ts, 0x01 to 0x0b: the arithmetic handlers. `pos a` is the bigint
-- of a stack item, where the arithmetic of the source may leave the natural numbers.
pub mod Laws
use tvmjs_monorepo.Prelude.{
  ℕ, ◌+◌, ◌-◌, ◌*◌, ◌/◌, ◌%◌, ◌^◌, Bool, true, false, ltb, ◌==◌, if◌then◌else◌, bit_and, bit_or,
}
use tvmjs_monorepo.Prelude.Int.{ℤ, pos, negsuc, ◌+ℤ◌, ◌-ℤ◌, ◌*ℤ◌}
use tvmjs_monorepo.Tvm.Word.{
  two_pow256, modulo, from_twos, to_twos, tdiv, trem, exponentiation, not_word, shift_right,
}
use tvmjs_monorepo.Tvm.Machine.{Exec, ◌>>=◌, push, pop_n, nth}

unfoldable pub add : Exec (Unit {0})
add = do vs ← pop_n 2; let a = nth 0 vs; let b = nth 1 vs; push (modulo (pos a +ℤ pos b) two_pow256)

unfoldable pub mul : Exec (Unit {0})
mul = do vs ← pop_n 2; let a = nth 0 vs; let b = nth 1 vs; push (modulo (pos a *ℤ pos b) two_pow256)

unfoldable pub sub : Exec (Unit {0})
sub = do vs ← pop_n 2; let a = nth 0 vs; let b = nth 1 vs; push (modulo (pos a -ℤ pos b) two_pow256)

unfoldable pub div : Exec (Unit {0})
div = do
  vs ← pop_n 2
  let a = nth 0 vs
  let b = nth 1 vs
  push (if b == 0 then 0 else modulo (pos (a / b)) two_pow256)

unfoldable pub sdiv : Exec (Unit {0})
sdiv = do
  vs ← pop_n 2
  let a = nth 0 vs
  let b = nth 1 vs
  push (if b == 0 then 0 else to_twos (tdiv (from_twos a) (from_twos b)))

-- `MOD`
unfoldable pub rem : Exec (Unit {0})
rem = do
  vs ← pop_n 2
  let a = nth 0 vs
  let b = nth 1 vs
  push (if b == 0 then b else modulo (pos a) b)

unfoldable pub smod : Exec (Unit {0})
smod = do
  vs ← pop_n 2
  let a = nth 0 vs
  let b = nth 1 vs
  push (to_twos (if b == 0 then pos b else trem (from_twos a) (from_twos b)))

unfoldable pub addmod : Exec (Unit {0})
addmod = do
  vs ← pop_n 3
  let a = nth 0 vs
  let b = nth 1 vs
  let c = nth 2 vs
  push (if c == 0 then 0 else modulo (pos a +ℤ pos b) c)

unfoldable pub mulmod : Exec (Unit {0})
mulmod = do
  vs ← pop_n 3
  let a = nth 0 vs
  let b = nth 1 vs
  let c = nth 2 vs
  push (if c == 0 then 0 else modulo (pos a *ℤ pos b) c)

-- The powers of 2 that the switch of `EXP` answers from constants.
abbrev exp_general : ℕ → ℕ → ℕ
exp_general base exponent =
    if exponent == 0 then 1 else if base == 0 then base else exponentiation base exponent

unfoldable pub exp : Exec (Unit {0})
exp = do
  vs ← pop_n 2
  let base = nth 0 vs
  let exponent = nth 1 vs
  if base == 2
      then (if exponent == 96
          then push (2 ^ 96)
          else if exponent == 160
          then push (2 ^ 160)
          else if exponent == 224
          then push (2 ^ 224)
          else push (exp_general base exponent))
      else push (exp_general base exponent)

abbrev pub sign_extended : ℕ → ℕ → ℕ
sign_extended k val =
    let sign_bit = k * 8 + 7 in
    let mask = 2 ^ sign_bit - 1 in
    if bit_and (shift_right val (pos sign_bit)) 1 == 0
    then bit_and val mask
    else bit_or val (not_word mask)

unfoldable pub signextend : Exec (Unit {0})
signextend = do
  vs ← pop_n 2
  let k = nth 0 vs
  let val = nth 1 vs
  push (if ltb k 31 then sign_extended k val else val)
