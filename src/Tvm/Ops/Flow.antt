-- ===== src/Tvm/Ops/Flow.antt =====
-- packages/tvm/src/opcodes/functions.ts: JUMP to EXCHANGE, with the helpers of opcodes/util.ts and the
-- jump analysis of interpreter.ts. (The analysis also caches the table entry of each opcode; a table
-- that never changes makes that cache invisible.)
pub mod Analysis
pub mod Jumps
pub mod Scan
pub mod Dispatch
pub mod Immediate
use tvmjs_monorepo.Prelude.{
  ℕ, zero, suc, ◌+◌, ◌-◌, ◌*◌, ◌/◌, ◌%◌, min, ltb, leb, ◌==◌, ◌||◌, ◌&&◌, not, Bool, true, false,
  List, [], ◌∷◌, ◌++◌, take, drop, length, replicate, set, get_or, get_elem?, Option, some, none,
  if◌then◌else◌, ok, err,
}
use tvmjs_monorepo.Util.Bytes.{bytes_to_bigint, set_length_right}
use tvmjs_monorepo.Tvm.Errors.{TvmError, invalid_jump, invalid_opcode}
use tvmjs_monorepo.Tvm.Machine.{
  Common, RunState, Exec, ◌>>=◌, ◌>>◌, pure, trap, trap_if, gets, modify, push, pop, pop_n, nth,
  from_result, use_gas, dup, swap, exchange,
}

-- `jumpIsValid`
unfoldable pub jump_is_valid : List ℕ → ℕ → Bool
jump_is_valid valid_jumps dest = get_or valid_jumps dest 0 == 1

-- The common end of `JUMP` and `JUMPI`.
abbrev jump_to : ℕ → Exec (Unit {0})
jump_to dest = do
  code ← gets (λ s. s.env.code)
  trap_if (ltb (length code) dest) invalid_jump
  valid_jumps ← gets (λ s. s.valid_jumps)
  trap_if (not (jump_is_valid valid_jumps dest)) invalid_jump
  modify (λ s. record s { program_counter = dest })

unfoldable pub jump : Exec (Unit {0})
jump = pop >>= jump_to

unfoldable pub jumpi : Exec (Unit {0})
jumpi = do
  vs ← pop_n 2
  let dest = nth 0 vs
  let cond = nth 1 vs
  if cond == 0 then pure tt else jump_to dest

unfoldable pub jumpdest : Exec (Unit {0})
jumpdest = pure tt

-- The operand bytes of a push, with zeros beyond the end of the code.
abbrev pub push_bytes : List ℕ → ℕ → ℕ → Exec (List ℕ)
push_bytes code start num =
    let loaded = take num (drop start code) in
    if ltb (length loaded) num then from_result (set_length_right loaded num false) else pure loaded

abbrev pub lookup : ℕ → List (ℕ × ℕ) → Option ℕ
lookup k [] = none
lookup k ((k', v) ∷ rest) = if k == k' then some v else lookup k rest

-- `accessWitness.readAccountCodeChunks`
abbrev pub read_code_chunks : ℕ → ℕ → Exec ℕ
read_code_chunks start stop s = ok (
  s.env.chunk_gas s.code_accesses start stop,
  record s { code_accesses = (start, stop) ∷ s.code_accesses },
)

abbrev pub charge_code : Common → ℕ → Exec (Unit {0})
charge_code common num = do
  s ← gets (λ s. s)
  if (common.is_activated_eip 6800 || common.is_activated_eip 7864) && s.env.charge_code_accesses
      then (let start = min (length s.code) (s.program_counter + 1) in
          let stop = min (length s.code) (start + num - 1) in
          read_code_chunks start stop >>= use_gas)
      else pure tt

-- A value that is not cached is `undefined`, here 0; the analysis caches all that are read.
abbrev pub cached : ℕ → List (ℕ × ℕ) → ℕ
cached k pushes = elim (lookup k pushes) [ some v ↦ v | none ↦ 0 ]

-- `PUSH1` to `PUSH32`
abbrev pub advance : ℕ → Exec (Unit {0})
advance num = modify (λ s. record s { program_counter = s.program_counter + num })

abbrev pub push_loaded : ℕ → Exec (Unit {0})
push_loaded num = do
  s ← gets (λ s. s)
  loaded ← push_bytes s.code s.program_counter num
  advance num
  push (bytes_to_bigint loaded)

abbrev pub push_cached : ℕ → Exec (Unit {0})
push_cached num = do s ← gets (λ s. s); push (cached s.program_counter s.cached_pushes); advance num

abbrev pub push_value : ℕ → Exec (Unit {0})
push_value num = do
  analyse ← gets (λ s. s.should_do_jump_analysis)
  if analyse then push_loaded num else push_cached num

unfoldable pub push_n : Common → Exec (Unit {0})
push_n common = do
  num_to_push ← gets (λ s. s.op_code - 95)
  charge_code common num_to_push
  push_value num_to_push

unfoldable pub push0 : Exec (Unit {0})
push0 = push 0

-- `DUP1` to `DUP16`, `SWAP1` to `SWAP16`
unfoldable pub dup_n : Exec (Unit {0})
dup_n = gets (λ s. s.op_code - 127) >>= dup

unfoldable pub swap_n : Exec (Unit {0})
swap_n = gets (λ s. s.op_code - 143) >>= swap

-- `readImmediateByteOrZero`
unfoldable pub read_immediate_byte_or_zero : Exec ℕ
read_immediate_byte_or_zero s =
    ok (get_or s.code s.program_counter 0, record s { program_counter = s.program_counter + 1 })

unfoldable pub is_eip8024_single_immediate_valid : ℕ → Bool
is_eip8024_single_immediate_valid immediate = leb immediate 90 || leb 128 immediate

unfoldable pub decode_eip8024_single_immediate : ℕ → Exec ℕ
decode_eip8024_single_immediate immediate =
    if not (is_eip8024_single_immediate_valid immediate)
    then trap invalid_opcode
    else pure (if leb immediate 90 then immediate + 17 else immediate - 20)

unfoldable pub is_eip8024_pair_immediate_valid : ℕ → Bool
is_eip8024_pair_immediate_valid immediate = leb immediate 79 || leb 128 immediate

unfoldable pub decode_eip8024_pair_immediate : ℕ → Exec (ℕ × ℕ)
decode_eip8024_pair_immediate immediate =
    if not (is_eip8024_pair_immediate_valid immediate)
    then trap invalid_opcode
    else let k = if leb immediate 79 then immediate else immediate - 48 in
      let q = k / 16 in
      let r = k % 16 in if ltb q r then pure (q + 1, r + 1) else pure (r + 1, 29 - q)

unfoldable pub dupn : Common → Exec (Unit {0})
dupn common = do
  trap_if (not (common.is_activated_eip 8024)) invalid_opcode
  immediate ← read_immediate_byte_or_zero
  to_dup ← decode_eip8024_single_immediate immediate
  dup to_dup

unfoldable pub swapn : Common → Exec (Unit {0})
swapn common = do
  trap_if (not (common.is_activated_eip 8024)) invalid_opcode
  immediate ← read_immediate_byte_or_zero
  to_swap ← decode_eip8024_single_immediate immediate
  swap to_swap

unfoldable pub exchange_op : Common → Exec (Unit {0})
exchange_op common = do
  trap_if (not (common.is_activated_eip 8024)) invalid_opcode
  immediate ← read_immediate_byte_or_zero
  depths ← decode_eip8024_pair_immediate immediate
  exchange depths.0 depths.1
