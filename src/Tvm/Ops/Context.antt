-- ===== src/Tvm/Ops/Context.antt =====
-- packages/tvm/src/opcodes/functions.ts: handlers that push a value of the frame, the transaction or
-- the block.
pub mod Laws
use tvmjs_monorepo.Prelude.{
  ℕ, ◌+◌, ◌-◌, ◌*◌, ◌==◌, ltb, Bool, List, [], ◌∷◌, take, drop, length, Option, none, some,
  if◌then◌else◌, ok, err,
}
use tvmjs_monorepo.Util.Bytes.{bytes_to_bigint}
use tvmjs_monorepo.Tvm.Errors.{internal}
use tvmjs_monorepo.Tvm.Word.{shift_left}
use tvmjs_monorepo.Prelude.Int.{pos}
use tvmjs_monorepo.Tvm.Interpreter.{
  get_address, get_self_balance, get_call_value, get_call_data, get_call_data_size, get_caller,
  get_code_size, get_gas_left, get_return_data_size, get_tx_gas_price, get_tx_origin,
  get_block_number, get_block_timestamp, get_block_difficulty, get_block_prev_randao,
  get_block_gas_limit, get_block_slot_number, get_block_base_fee, get_chain_id,
}
use tvmjs_monorepo.Tvm.Machine.{Common, RunState, Exec, ◌>>=◌, ◌>>◌, trap, gets, push, pop}

unfoldable pub address : Exec (Unit {0})
address = gets (λ s. bytes_to_bigint (get_address s)) >>= push

unfoldable pub origin : Exec (Unit {0})
origin = gets get_tx_origin >>= push

unfoldable pub caller : Exec (Unit {0})
caller = gets get_caller >>= push

unfoldable pub callvalue : Exec (Unit {0})
callvalue = gets get_call_value >>= push

-- The bytes that there are, with the missing ones shifted in.
abbrev pub word_of : List ℕ → ℕ
word_of part =
    let loaded = if length part == 0 then 0 ∷ [] else part in
    let r = bytes_to_bigint loaded in
    if ltb (length loaded) 32 then shift_left r (pos (8 * (32 - length loaded))) else r

unfoldable pub calldataload : Exec (Unit {0})
calldataload = do
  i ← pop
  call_data ← gets get_call_data
  if ltb (length call_data) i then push 0 else push (word_of (take 32 (drop i call_data)))

unfoldable pub calldatasize : Exec (Unit {0})
calldatasize = gets get_call_data_size >>= push

unfoldable pub codesize : Exec (Unit {0})
codesize = gets get_code_size >>= push

unfoldable pub returndatasize : Exec (Unit {0})
returndatasize = gets get_return_data_size >>= push

unfoldable pub gasprice : Exec (Unit {0})
gasprice = gets get_tx_gas_price >>= push

unfoldable pub timestamp : Exec (Unit {0})
timestamp = gets get_block_timestamp >>= push

unfoldable pub number : Exec (Unit {0})
number = gets get_block_number >>= push

unfoldable pub difficulty : Common → Exec (Unit {0})
difficulty common =
    if common.is_activated_eip 4399
    then gets get_block_prev_randao >>= push
    else gets get_block_difficulty >>= push

unfoldable pub gaslimit : Exec (Unit {0})
gaslimit = gets get_block_gas_limit >>= push

unfoldable pub slotnum : Exec (Unit {0})
slotnum = get_block_slot_number >>= push

unfoldable pub chainid : Exec (Unit {0})
chainid = gets get_chain_id >>= push

unfoldable pub selfbalance : Exec (Unit {0})
selfbalance = gets get_self_balance >>= push

unfoldable pub basefee : Exec (Unit {0})
basefee = get_block_base_fee >>= push

-- The handler runs after the program counter has moved past the opcode.
unfoldable pub pc : Exec (Unit {0})
pc = gets (λ s. s.program_counter - 1) >>= push

unfoldable pub msize : Exec (Unit {0})
msize = gets (λ s. s.memory_word_count * 32) >>= push

unfoldable pub gas : Exec (Unit {0})
gas = gets get_gas_left >>= push
