-- ===== src/Tvm/Ops/Logic.antt =====
-- packages/tvm/src/opcodes/functions.ts, 0x10 to 0x1e: comparisons, bitwise operations and shifts.
pub mod Laws
pub mod Shifts
use tvmjs_monorepo.Prelude.{
  ℕ, ◌+◌, ◌-◌, ◌*◌, ◌/◌, ◌%◌, ◌^◌, Bool, true, false, ltb, ◌==◌, if◌then◌else◌, bit_and, bit_or,
  bit_xor,
}
use tvmjs_monorepo.Prelude.Int.{ℤ, pos, negsuc, ◌-ℤ◌, ◌*ℤ◌, ltb_ℤ}
use tvmjs_monorepo.Tvm.Word.{
  max_integer, from_twos, not_word, shift_left, shift_right, binary_length,
}
use tvmjs_monorepo.Tvm.Machine.{Exec, ◌>>=◌, push, pop, pop_n, nth}

unfoldable pub lt : Exec (Unit {0})
lt = do vs ← pop_n 2; push (if ltb (nth 0 vs) (nth 1 vs) then 1 else 0)

unfoldable pub gt : Exec (Unit {0})
gt = do vs ← pop_n 2; push (if ltb (nth 1 vs) (nth 0 vs) then 1 else 0)

unfoldable pub slt : Exec (Unit {0})
slt = do vs ← pop_n 2; push (if ltb_ℤ (from_twos (nth 0 vs)) (from_twos (nth 1 vs)) then 1 else 0)

unfoldable pub sgt : Exec (Unit {0})
sgt = do vs ← pop_n 2; push (if ltb_ℤ (from_twos (nth 1 vs)) (from_twos (nth 0 vs)) then 1 else 0)

unfoldable pub eq : Exec (Unit {0})
eq = do vs ← pop_n 2; push (if nth 0 vs == nth 1 vs then 1 else 0)

unfoldable pub iszero : Exec (Unit {0})
iszero = do a ← pop; push (if a == 0 then 1 else 0)

unfoldable pub and : Exec (Unit {0})
and = do vs ← pop_n 2; push (bit_and (nth 0 vs) (nth 1 vs))

unfoldable pub or : Exec (Unit {0})
or = do vs ← pop_n 2; push (bit_or (nth 0 vs) (nth 1 vs))

unfoldable pub xor : Exec (Unit {0})
xor = do vs ← pop_n 2; push (bit_xor (nth 0 vs) (nth 1 vs))

unfoldable pub not : Exec (Unit {0})
not = do a ← pop; push (not_word a)

unfoldable pub byte : Exec (Unit {0})
byte = do
  vs ← pop_n 2
  let at = nth 0 vs
  let word = nth 1 vs
  if ltb 32 at then push 0 else push (bit_and (shift_right word ((pos 31 -ℤ pos at) *ℤ pos 8)) 255)

unfoldable pub shl : Exec (Unit {0})
shl = do
  vs ← pop_n 2
  let a = nth 0 vs
  let b = nth 1 vs
  if ltb 256 a then push 0 else push (bit_and (shift_left b (pos a)) max_integer)

unfoldable pub shr : Exec (Unit {0})
shr = do
  vs ← pop_n 2
  let a = nth 0 vs
  let b = nth 1 vs
  if ltb 256 a then push 0 else push (shift_right b (pos a))

-- The value that `SAR` pushes when `a` is at most 256.
abbrev pub sar_shifted : Bool → ℕ → ℕ → ℕ
sar_shifted is_signed a b =
    let c = shift_right b (pos a) in
    let shifted_out_width = pos 255 -ℤ pos a in
    let mask = shift_left (shift_right max_integer shifted_out_width) shifted_out_width in
    if is_signed then bit_or c mask else c

unfoldable pub sar : Exec (Unit {0})
sar = do
  vs ← pop_n 2
  let a = nth 0 vs
  let b = nth 1 vs
  let is_signed = ltb_ℤ (from_twos b) (pos 0)
  if ltb 256 a
      then push (if is_signed then max_integer else 0)
      else push (sar_shifted is_signed a b)

unfoldable pub clz : Exec (Unit {0})
clz = do x ← pop; if x == 0 then push 256 else push (256 - binary_length x)
