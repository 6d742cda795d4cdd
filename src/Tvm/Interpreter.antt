-- ===== src/Tvm/Interpreter.antt =====
-- packages/tvm/src/interpreter.ts: what a handler asks of its frame, and the gas that is given back.
use tvmjs_monorepo.Prelude.{
  ℕ, ◌+◌, ◌-◌, ltb, Bool, List, length, some, none, if◌then◌else◌, ok, err,
}
use tvmjs_monorepo.Util.Bytes.{bytes_to_bigint}
use tvmjs_monorepo.Tvm.Errors.{internal, refund_exhausted}
use tvmjs_monorepo.Tvm.Machine.{RunState, Exec, ◌>>=◌, gets, trap, pure}

-- `getAddress`, as the handlers use it.
abbrev pub get_address : RunState → List ℕ
get_address s = s.env.address

abbrev pub get_self_balance : RunState → ℕ
get_self_balance s = s.env.contract_balance

abbrev pub get_call_value : RunState → ℕ
get_call_value s = s.env.call_value

abbrev pub get_call_data : RunState → List ℕ
get_call_data s = s.env.call_data

abbrev pub get_call_data_size : RunState → ℕ
get_call_data_size s = length s.env.call_data

abbrev pub get_caller : RunState → ℕ
get_caller s = bytes_to_bigint s.env.caller

abbrev pub get_code_size : RunState → ℕ
get_code_size s = length s.env.code

abbrev pub get_code : RunState → List ℕ
get_code s = s.env.code

abbrev pub get_gas_left : RunState → ℕ
get_gas_left s = s.gas_left

abbrev pub get_return_data_size : RunState → ℕ
get_return_data_size s = length s.return_bytes

abbrev pub get_return_data : RunState → List ℕ
get_return_data s = s.return_bytes

abbrev pub is_static : RunState → Bool
is_static s = s.env.is_static

abbrev pub get_tx_gas_price : RunState → ℕ
get_tx_gas_price s = s.env.gas_price

abbrev pub get_tx_origin : RunState → ℕ
get_tx_origin s = bytes_to_bigint s.env.origin

abbrev pub get_block_number : RunState → ℕ
get_block_number s = s.env.block_number

abbrev pub get_block_timestamp : RunState → ℕ
get_block_timestamp s = s.env.block_timestamp

-- Always 0 on this chain.
abbrev pub get_block_difficulty : RunState → ℕ
get_block_difficulty s = 0

abbrev pub get_block_prev_randao : RunState → ℕ
get_block_prev_randao s = bytes_to_bigint s.env.block_prev_randao

abbrev pub get_block_gas_limit : RunState → ℕ
get_block_gas_limit s = s.env.block_gas_limit

abbrev pub get_block_slot_number : Exec ℕ
get_block_slot_number = do
  slot ← gets (λ s. s.env.block_slot_number)
  elim slot [ some n ↦ pure n | none ↦ trap internal ]

abbrev pub get_block_base_fee : Exec ℕ
get_block_base_fee = do
  fee ← gets (λ s. s.env.block_base_fee)
  elim fee [ some n ↦ pure n | none ↦ trap internal ]

abbrev pub get_chain_id : RunState → ℕ
get_chain_id s = s.env.chain_id

unfoldable pub refund_gas : ℕ → Exec (Unit {0})
refund_gas amount s = ok (tt, record s { gas_refund = s.gas_refund + amount })

unfoldable pub sub_refund : ℕ → Exec (Unit {0})
sub_refund amount s =
    if ltb s.gas_refund amount
    then err refund_exhausted
    else ok (tt, record s { gas_refund = s.gas_refund - amount })

unfoldable pub add_stipend : ℕ → Exec (Unit {0})
add_stipend amount s = ok (tt, record s { gas_left = s.gas_left + amount })
