-- ===== src/Tvm/Machine.antt =====
-- The state of one call frame, `RunState` of packages/tvm/src/interpreter.ts, and actions on it. An
-- action returns a value and the new state, or throws. A throw ends the frame, whose stack, memory and
-- program counter are then dropped, so an error carries no state.
use tvmjs_monorepo.Prelude.{ℕ, ◌-◌, Bool, List, get_or, Option, Result, ok, err, ltb, if◌then◌else◌}
use Prim.Native.String.{String}
use tvmjs_monorepo.Tvm.Errors.{TvmError, internal, out_of_gas}
use tvmjs_monorepo.Tvm.Stack
use tvmjs_monorepo.Tvm.Stack.{Stack}
use tvmjs_monorepo.Tvm.Memory
use tvmjs_monorepo.Tvm.TransientStorage.{TransientStorage}
use tvmjs_monorepo.Tvm.Memory.{Memory}

-- The switches and parameters of `Common` that the modelled handlers read, and its hash
-- function. `base_fee` is `param` of the name of an opcode in small letters, with `Gas` behind it.
pub record Common : Type 0 where
  pub is_activated_eip : ℕ → Bool
  pub memory_gas : ℕ
  pub quad_coefficient_div_gas : ℕ
  pub param : String → ℕ
  pub base_fee : String → ℕ
  pub is_activated_proposal : ℕ → Bool
  pub keccak256 : List ℕ → List ℕ

-- The fields of `Env` and of the block header that the modelled handlers read. Addresses are bytes.
-- `chunk_gas accessed first last` is what the access witness charges for code bytes, after the
-- accesses so far.
pub record Env : Type 0 where
  pub address : List ℕ
  pub caller : List ℕ
  pub origin : List ℕ
  pub call_value : ℕ
  pub call_data : List ℕ
  pub code : List ℕ
  pub is_static : Bool
  pub gas_price : ℕ
  pub contract_balance : ℕ
  pub block_number : ℕ
  pub block_timestamp : ℕ
  pub block_gas_limit : ℕ
  pub block_prev_randao : List ℕ
  pub block_base_fee : Option ℕ
  pub block_slot_number : Option ℕ
  pub chain_id : ℕ
  pub charge_code_accesses : Bool
  pub chunk_gas : List (ℕ × ℕ) → ℕ → ℕ → ℕ

-- `Log`
pub record Log : Type 0 where
  pub address : List ℕ
  pub topics : List (List ℕ)
  pub logged : List ℕ

-- `logs` and `return_value` are of the interpreter's `_result`. `code_accesses` is what the access witness has recorded. `cached_pushes` is the object of the
-- source as a list of its properties, the newest first.
pub record RunState : Type 0 where
  pub program_counter : ℕ
  pub op_code : ℕ
  pub memory : Memory
  pub memory_word_count : ℕ
  pub highest_mem_cost : ℕ
  pub stack : Stack
  pub code : List ℕ
  pub should_do_jump_analysis : Bool
  pub valid_jumps : List ℕ
  pub cached_pushes : List (ℕ × ℕ)
  pub env : Env
  pub gas_left : ℕ
  pub gas_refund : ℕ
  pub return_bytes : List ℕ
  pub transient_storage : TransientStorage
  pub code_accesses : List (ℕ × ℕ)
  pub logs : List Log
  pub return_value : Option (List ℕ)

abbrev pub Exec {ℓ} : Type ℓ → Type ℓ
Exec A = RunState → Result TvmError (A × RunState)

infixl 5 ◌>>=◌ ◌>>◌
abbrev pub ◌>>=◌ {ℓ κ} : {A : Type ℓ} {B : Type κ} → Exec A → (A → Exec B) → Exec B
◌>>=◌ m f s = elim (m s) [ ok (a, s') ↦ f a s' | err e ↦ err e ]

abbrev pub ◌>>◌ {κ} : {B : Type κ} → Exec (Unit {0}) → Exec B → Exec B
m >> k = m >>= λ _. k

abbrev pub pure {ℓ} : {A : Type ℓ} → A → Exec A
pure a s = ok (a, s)

-- `trap(err)`
abbrev pub trap {ℓ} : {A : Type ℓ} → TvmError → Exec A
trap e s = err e

abbrev pub gets {ℓ} : {A : Type ℓ} → (RunState → A) → Exec A
gets f s = ok (f s, s)

abbrev pub modify : (RunState → RunState) → Exec (Unit {0})
modify f s = ok (tt, f s)

-- The methods of `runState.stack`.
abbrev pub on_stack : (Stack → Result TvmError Stack) → Exec (Unit {0})
on_stack f s = elim (f s.stack) [ ok st ↦ ok (tt, record s { stack = st }) | err e ↦ err e ]

abbrev pub push : ℕ → Exec (Unit {0})
push v = on_stack (Stack.push v)

abbrev pub pop : Exec ℕ
pop s = elim (Stack.pop s.stack) [ ok (v, st) ↦ ok (v, record s { stack = st }) | err e ↦ err e ]

abbrev pub pop_n : ℕ → Exec (List ℕ)
pop_n n s = elim (Stack.pop_n n s.stack) [
  | ok (vs, st) ↦ ok (vs, record s { stack = st })
  | err e ↦ err e
]

abbrev pub from_result {ℓ κ} : {E : Type ℓ} {A : Type κ} → Result E A → Exec A
from_result (ok a) s = ok (a, s)
from_result (err e) s = err internal

abbrev pub swap : ℕ → Exec (Unit {0})
swap position = on_stack (Stack.swap position)

abbrev pub dup : ℕ → Exec (Unit {0})
dup position = on_stack (Stack.dup position)

abbrev pub exchange : ℕ → ℕ → Exec (Unit {0})
exchange x y = on_stack (Stack.exchange x y)

-- `trap` under a condition.
abbrev pub trap_if : Bool → TvmError → Exec (Unit {0})
trap_if c e = if c then trap e else pure tt

-- `useGas`: the gas left never goes below 0.
unfoldable pub use_gas : ℕ → Exec (Unit {0})
use_gas amount s =
    if ltb s.gas_left amount
    then err out_of_gas
    else ok (tt, record s { gas_left = s.gas_left - amount })

-- An element of the array that `popN` returned, by destructuring.
abbrev pub nth : ℕ → List ℕ → ℕ
nth i vs = get_or vs i 0

abbrev pub peek : ℕ → Exec (List ℕ)
peek n s = elim (Stack.peek n s.stack) [ ok vs ↦ ok (vs, s) | err e ↦ err e ]

-- The methods of `runState.memory`.
abbrev pub read_memory : ℕ → ℕ → Bool → Exec (List ℕ)
read_memory offset size avoid_copy s =
    let r = Memory.read offset size avoid_copy s.memory in ok (r.0, record s { memory = r.1 })

abbrev pub write_memory : ℕ → ℕ → List ℕ → Exec (Unit {0})
write_memory offset size value s = elim (Memory.write offset size value s.memory) [
  | ok m ↦ ok (tt, record s { memory = m })
  | err e ↦ err e
]
