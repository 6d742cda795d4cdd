-- ===== src/Tests/Data.antt =====
-- A frame with a few items on its stack.
use tvmjs_monorepo.Prelude.{ℕ, ◌≡◌, refl, true, false, List, [], ◌∷◌, some, none, arith}
use tvmjs_monorepo.Tvm.Stack.{Stack}
use tvmjs_monorepo.Tvm.Stack.View.{view, IsValid}
use tvmjs_monorepo.Tvm.Memory
use tvmjs_monorepo.Tvm.TransientStorage
use tvmjs_monorepo.Tvm.Machine.{Common, Env, RunState}

-- The entry above the items is stale.
abbrev pub items_3_2_1 : Stack
items_3_2_1 = record { store = 1 ∷ 2 ∷ 3 ∷ 9 ∷ []; max_height = 1024; len = 3 }

pub items_3_2_1-IsValid : IsValid items_3_2_1
items_3_2_1-IsValid = record { stored = omega arith; bounded = omega arith }

pub view_3_2_1 : view items_3_2_1 ≡ 3 ∷ 2 ∷ 1 ∷ []
unfolding view
view_3_2_1 = refl

-- PUSH1 0x5b, JUMPDEST, STOP: the first 0x5b is an operand.
abbrev pub code_example : List ℕ
code_example = 96 ∷ 91 ∷ 91 ∷ 0 ∷ []

abbrev pub env_example : Env
env_example = record {
  address = 65 ∷ 1 ∷ [];
  caller = 65 ∷ 2 ∷ [];
  origin = 65 ∷ 3 ∷ [];
  call_value = 7;
  call_data = 1 ∷ 2 ∷ 3 ∷ 4 ∷ 5 ∷ [];
  code = code_example;
  is_static = false;
  gas_price = 420;
  contract_balance = 1000;
  block_number = 12;
  block_timestamp = 1700000000;
  block_gas_limit = 100000;
  block_prev_randao = 0 ∷ [];
  block_base_fee = some 1;
  block_slot_number = none;
  chain_id = 728126428;
  charge_code_accesses = false;
  chunk_gas = λ accessed first last. 0;
}

abbrev pub common_example : Common
common_example = record {
  is_activated_eip = λ n. false;
  memory_gas = 3;
  quad_coefficient_div_gas = 512;
  param = λ name. 3;
  base_fee = λ name. 3;
  is_activated_proposal = λ n. false;
  keccak256 = λ bs. 7 ∷ [];
}

abbrev pub state_of : Stack → RunState
state_of st = record {
  program_counter = 1;
  op_code = 96;
  memory = Memory.new;
  memory_word_count = 0;
  highest_mem_cost = 0;
  stack = st;
  code = code_example;
  should_do_jump_analysis = true;
  valid_jumps = [];
  cached_pushes = [];
  env = env_example;
  gas_left = 1000;
  gas_refund = 0;
  return_bytes = 8 ∷ 9 ∷ [];
  transient_storage = TransientStorage.new;
  code_accesses = [];
  logs = [];
  return_value = none;
}

abbrev pub state : RunState
state = state_of items_3_2_1
