-- ===== src/Tvm/Gas/Handlers.antt =====
-- packages/tvm/src/opcodes/gas.ts: the prices that depend on the operands, of the opcodes whose handlers are
-- modelled. Each takes the base fee.
use tvmjs_monorepo.Prelude.{ℕ, ◌+◌, ◌-◌, ◌*◌, ◌/◌, ltb, ◌==◌, ◌||◌, ◌&&◌, min, if◌then◌else◌}
use tvmjs_monorepo.Tvm.Errors.{out_of_gas, out_of_range, static_state_change}
use tvmjs_monorepo.Tvm.Word.{binary_length}
use tvmjs_monorepo.Tvm.Machine.{Common, Exec, ◌>>=◌, ◌>>◌, pure, gets, trap_if, peek, nth}
use tvmjs_monorepo.Tvm.Interpreter.{get_return_data_size, get_code_size, is_static}
use tvmjs_monorepo.Tvm.Ops.Flow.{read_code_chunks}
use tvmjs_monorepo.Tvm.Gas.{div_ceil, sub_mem_usage}

-- The bytes of the exponent: an eighth of its binary digits, rounded up.
unfoldable pub exp_gas : Common → ℕ → Exec ℕ
exp_gas common gas = do
  vs ← peek 2
  let exponent = nth 1 vs
  let byte_length = div_ceil (binary_length exponent) 8
  if exponent == 0
      then pure gas
      else (trap_if (ltb byte_length 1 || ltb 32 byte_length) out_of_range
          >> pure (gas + byte_length * common.param "expByteGas"))

unfoldable pub keccak256_gas : Common → ℕ → Exec ℕ
keccak256_gas common gas = do
  vs ← peek 2
  mem ← sub_mem_usage (nth 0 vs) (nth 1 vs) common
  pure (gas + mem + common.param "keccak256WordGas" * div_ceil (nth 1 vs) 32)

-- What a copy of so many bytes costs besides the memory.
abbrev pub copy_cost : Common → ℕ → ℕ
copy_cost common size = if size == 0 then 0 else common.param "copyGas" * div_ceil size 32

unfoldable pub calldatacopy_gas : Common → ℕ → Exec ℕ
calldatacopy_gas common gas = do
  vs ← peek 3
  mem ← sub_mem_usage (nth 0 vs) (nth 2 vs) common
  pure (gas + mem + copy_cost common (nth 2 vs))

-- What the access witness charges for the copied code.
abbrev pub copied_chunks : Common → ℕ → ℕ → Exec ℕ
copied_chunks common offset size s =
    if (common.is_activated_eip 6800 || common.is_activated_eip 7864) && s.env.charge_code_accesses
    then read_code_chunks offset (min (offset + size) (get_code_size s)) s
    else pure 0 s

unfoldable pub codecopy_gas : Common → ℕ → Exec ℕ
codecopy_gas common gas = do
  vs ← peek 3
  mem ← sub_mem_usage (nth 0 vs) (nth 2 vs) common
  chunks ← if nth 2 vs == 0 then pure 0 else copied_chunks common (nth 1 vs) (nth 2 vs)
  pure (gas + mem + copy_cost common (nth 2 vs) + chunks)

unfoldable pub returndatacopy_gas : Common → ℕ → Exec ℕ
returndatacopy_gas common gas = do
  vs ← peek 3
  size ← gets get_return_data_size
  trap_if (ltb size (nth 1 vs + nth 2 vs)) out_of_gas
  mem ← sub_mem_usage (nth 0 vs) (nth 2 vs) common
  pure (gas + mem + copy_cost common (nth 2 vs))

-- `MLOAD`, `MSTORE` and `MSTORE8`, by the size of the access.
unfoldable pub memory_access_gas : ℕ → Common → ℕ → Exec ℕ
memory_access_gas size common gas = do
  vs ← peek 1
  mem ← sub_mem_usage (nth 0 vs) size common
  pure (gas + mem)

unfoldable pub mcopy_gas : Common → ℕ → Exec ℕ
mcopy_gas common gas = do
  vs ← peek 3
  let words_copied = (nth 2 vs + 31) / 32
  read_part ← sub_mem_usage (nth 1 vs) (nth 2 vs) common
  written_part ← sub_mem_usage (nth 0 vs) (nth 2 vs) common
  pure (gas + 3 * words_copied + read_part + written_part)

unfoldable pub log_gas : Common → ℕ → Exec ℕ
log_gas common gas = do
  static ← gets is_static
  trap_if static static_state_change
  vs ← peek 2
  topics_count ← gets (λ s. s.op_code - 160)
  trap_if (ltb 4 topics_count) out_of_range
  mem ← sub_mem_usage (nth 0 vs) (nth 1 vs) common
  pure (
      gas
      + mem
      + (common.param "logTopicGas" * topics_count + nth 1 vs * common.param "logDataGas"))

-- `RETURN` and `REVERT`
unfoldable pub halt_gas : Common → ℕ → Exec ℕ
halt_gas common gas = do
  vs ← peek 2
  mem ← sub_mem_usage (nth 0 vs) (nth 1 vs) common
  pure (gas + mem)
