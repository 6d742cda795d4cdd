-- ===== src/Tvm/Gas.antt =====
-- packages/tvm/src/opcodes/util.ts: the gas of a growing memory, and the cap on the gas of a call.
pub mod Growth
pub mod Handlers
use tvmjs_monorepo.Prelude.{ℕ, ◌+◌, ◌-◌, ◌*◌, ◌/◌, ◌%◌, leb, ltb, ◌==◌, if◌then◌else◌, ok}
use tvmjs_monorepo.Tvm.Machine.{Common, RunState, Exec}

-- `divCeil`, whose arguments here are never negative.
unfoldable pub div_ceil : ℕ → ℕ → ℕ
div_ceil a b = let div = a / b in let modulus = a % b in if modulus == 0 then div else div + 1

-- `subMemUsage` returns the gas that the caller charges.
unfoldable pub sub_mem_usage : ℕ → ℕ → Common → Exec ℕ
unfolding div_ceil
sub_mem_usage offset length common s =
    let new_memory_word_count = div_ceil (offset + length) 32 in
    let words = new_memory_word_count in
    let cost = words * common.memory_gas + words * words / common.quad_coefficient_div_gas in
    if length == 0
    then ok (0, s)
    else if leb new_memory_word_count s.memory_word_count
    then ok (0, s)
    else if ltb s.highest_mem_cost cost
    then ok (
      cost - s.highest_mem_cost,
      record s { memory_word_count = new_memory_word_count; highest_mem_cost = cost },
    )
    else ok (cost, record s { memory_word_count = new_memory_word_count })

-- `maxCallGas`
unfoldable pub max_call_gas : ℕ → ℕ → ℕ
max_call_gas gas_limit gas_left = if ltb gas_left gas_limit then gas_left else gas_limit
