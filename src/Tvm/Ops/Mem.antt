-- ===== src/Tvm/Ops/Mem.antt =====
-- packages/tvm/src/opcodes/functions.ts: handlers that read and write memory. `Number(offset)` is the
-- offset itself, as it is below 2 ^ 53; the gas of larger ones exceeds any gas limit.
pub mod Laws
pub mod RoundTrip
use tvmjs_monorepo.Prelude.{ℕ, ◌==◌, Bool, true, false, List, if◌then◌else◌, bit_and}
use tvmjs_monorepo.Util.Bytes.{bytes_to_bigint, bigint_to_bytes, set_length_left}
use tvmjs_monorepo.Tvm.Slice.{get_data_slice}
use tvmjs_monorepo.Tvm.Interpreter.{get_call_data, get_code, get_return_data}
use tvmjs_monorepo.Tvm.Machine.{
  Exec, RunState, ◌>>=◌, ◌>>◌, pure, gets, push, pop, pop_n, nth, read_memory, write_memory,
  from_result,
}

-- `POP`
unfoldable pub drop_item : Exec (Unit {0})
drop_item = pop >>= λ _. pure tt

unfoldable pub mload : Exec (Unit {0})
mload = do pos ← pop; word ← read_memory pos 32 true; push (bytes_to_bigint word)

unfoldable pub mstore : Exec (Unit {0})
mstore = do
  vs ← pop_n 2
  let offset = nth 0 vs
  let word = nth 1 vs
  buf ← from_result (set_length_left (bigint_to_bytes word) 32 false)
  write_memory offset 32 buf

unfoldable pub mstore8 : Exec (Unit {0})
mstore8 = do
  vs ← pop_n 2
  let offset = nth 0 vs
  let byte = nth 1 vs
  write_memory offset 1 (bigint_to_bytes (bit_and byte 255))

unfoldable pub mcopy : Exec (Unit {0})
mcopy = do
  vs ← pop_n 3
  let dst = nth 0 vs
  let src = nth 1 vs
  let length = nth 2 vs
  bs ← read_memory src length true
  write_memory dst length bs

-- The handlers that copy from a byte array differ in the array only.
abbrev copy_operands : (RunState → List ℕ) → List ℕ → Exec (Unit {0})
copy_operands source vs =
    let mem_offset = nth 0 vs in
    let offset = nth 1 vs in
    let length = nth 2 vs in
    if length == 0 then pure tt else do
      xs ← gets source
      bs ← from_result (get_data_slice xs offset length)
      write_memory mem_offset length bs

abbrev copy_from : (RunState → List ℕ) → Exec (Unit {0})
copy_from source = pop_n 3 >>= copy_operands source

unfoldable pub calldatacopy : Exec (Unit {0})
calldatacopy = copy_from get_call_data

unfoldable pub codecopy : Exec (Unit {0})
codecopy = copy_from get_code

unfoldable pub returndatacopy : Exec (Unit {0})
returndatacopy = copy_from get_return_data
