-- ===== src/Tvm/Opcodes/Table.antt =====
-- packages/tvm/src/opcodes: the maps of handlers and of prices, as far as they are modelled, and the table of
-- opcodes that `getOpcodesForHF` builds without custom opcodes.
use tvmjs_monorepo.Prelude.{
  ℕ, zero, suc, ◌+◌, ◌==◌, ◌||◌, ◌&&◌, false, List, [], ◌∷◌, ◌++◌, Option, some, none,
  if◌then◌else◌,
}
use text.Mathlib.Text.{◌==◌ as str_eq}
use tvmjs_monorepo.Tvm.Ops.Arith.{
  add, mul, sub, div, sdiv, rem, smod, addmod, mulmod, exp, signextend,
}
use tvmjs_monorepo.Tvm.Ops.Logic.{
  lt, gt, slt, sgt, eq, iszero, and, or, xor, not, byte, shl, shr, sar, clz,
}
use tvmjs_monorepo.Tvm.Ops.Context.{
  address, origin, caller, callvalue, calldataload, calldatasize, codesize, returndatasize,
  gasprice, timestamp, number, difficulty, gaslimit, slotnum, chainid, selfbalance, basefee, pc,
  msize, gas,
}
use tvmjs_monorepo.Tvm.Ops.Mem.{
  calldatacopy, codecopy, returndatacopy, drop_item, mload, mstore, mstore8, mcopy,
}
use tvmjs_monorepo.Tvm.Ops.Transient.{tload, tstore}
use tvmjs_monorepo.Tvm.Ops.Flow.{
  jumpdest, push0, dupn, swapn, exchange_op, jump, jumpi, push_n, dup_n, swap_n,
}
use tvmjs_monorepo.Tvm.Ops.Halt.{keccak256, log_n, stop_op, return_op, revert_op}
use tvmjs_monorepo.Tvm.Gas.Handlers.{
  exp_gas, keccak256_gas, calldatacopy_gas, codecopy_gas, returndatacopy_gas, memory_access_gas,
  mcopy_gas, log_gas, halt_gas,
}
use tvmjs_monorepo.Tvm.Machine.{Common}
use tvmjs_monorepo.Tvm.Run.{Step, OpcodeMapEntry, lift}
use tvmjs_monorepo.Tvm.Opcodes.Codes.{OpcodeEntry, opcodes, base_capability_opcodes, eip_opcodes}

-- A `Map` with numbers as keys; where a key occurs twice the first counts.
unfoldable pub entry_at {ℓ} : {V : Type ℓ} → ℕ → List (ℕ × V) → Option V
entry_at k [] = none
entry_at k ((k', v) ∷ rest) = if k == k' then some v else entry_at k rest

abbrev pub Handlers : Type 0
Handlers = List (ℕ × Step (Unit {0}))

-- The loops that set one handler for a range of opcodes.
abbrev pub fill_range {ℓ} : {V : Type ℓ} → ℕ → ℕ → V → List (ℕ × V)
fill_range first zero v = []
fill_range first (suc n) v = (first + n, v) ∷ fill_range first n v

abbrev pub arith_handlers : Handlers
arith_handlers =
    (0x01, lift add)
    ∷ (0x02, lift mul)
    ∷ (0x03, lift sub)
    ∷ (0x04, lift div)
    ∷ (0x05, lift sdiv)
    ∷ (0x06, lift rem)
    ∷ (0x07, lift smod)
    ∷ (0x08, lift addmod)
    ∷ (0x09, lift mulmod)
    ∷ (0x0a, lift exp)
    ∷ (0x0b, lift signextend)
    ∷ []

abbrev pub logic_handlers : Handlers
logic_handlers =
    (0x10, lift lt)
    ∷ (0x11, lift gt)
    ∷ (0x12, lift slt)
    ∷ (0x13, lift sgt)
    ∷ (0x14, lift eq)
    ∷ (0x15, lift iszero)
    ∷ (0x16, lift and)
    ∷ (0x17, lift or)
    ∷ (0x18, lift xor)
    ∷ (0x19, lift not)
    ∷ (0x1a, lift byte)
    ∷ (0x1b, lift shl)
    ∷ (0x1c, lift shr)
    ∷ (0x1d, lift sar)
    ∷ (0x1e, lift clz)
    ∷ []

abbrev pub context_handlers : Common → Handlers
context_handlers common =
    (0x30, lift address)
    ∷ (0x32, lift origin)
    ∷ (0x33, lift caller)
    ∷ (0x34, lift callvalue)
    ∷ (0x35, lift calldataload)
    ∷ (0x36, lift calldatasize)
    ∷ (0x38, lift codesize)
    ∷ (0x3d, lift returndatasize)
    ∷ (0x3a, lift gasprice)
    ∷ (0x42, lift timestamp)
    ∷ (0x43, lift number)
    ∷ (0x44, lift (difficulty common))
    ∷ (0x45, lift gaslimit)
    ∷ (0x4b, lift slotnum)
    ∷ (0x46, lift chainid)
    ∷ (0x47, lift selfbalance)
    ∷ (0x48, lift basefee)
    ∷ (0x58, lift pc)
    ∷ (0x59, lift msize)
    ∷ (0x5a, lift gas)
    ∷ []

abbrev pub mem_handlers : Handlers
mem_handlers =
    (0x37, lift calldatacopy)
    ∷ (0x39, lift codecopy)
    ∷ (0x3e, lift returndatacopy)
    ∷ (0x50, lift drop_item)
    ∷ (0x51, lift mload)
    ∷ (0x52, lift mstore)
    ∷ (0x53, lift mstore8)
    ∷ (0x5e, lift mcopy)
    ∷ []

abbrev pub transient_handlers : Handlers
transient_handlers = (0x5c, lift tload) ∷ (0x5d, lift tstore) ∷ []

abbrev pub flow_handlers : Common → Handlers
flow_handlers common =
    (0x5b, lift jumpdest)
    ∷ (0x5f, lift push0)
    ∷ (0xe6, lift (dupn common))
    ∷ (0xe7, lift (swapn common))
    ∷ (0xe8, lift (exchange_op common))
    ∷ []

abbrev pub hash_handlers : Common → Handlers
hash_handlers common = (0x20, lift (keccak256 common)) ∷ []

abbrev pub jump_handlers : Handlers
jump_handlers = (0x56, lift jump) ∷ (0x57, lift jumpi) ∷ []

abbrev pub halt_handlers : Handlers
halt_handlers = (0x00, stop_op) ∷ (0xf3, return_op) ∷ (0xfd, revert_op) ∷ []

abbrev pub joined : List Handlers → Handlers
joined [] = []
joined (hs ∷ groups) = hs ++ joined groups

abbrev pub straight_groups : Common → List Handlers
straight_groups common =
    arith_handlers
    ∷ logic_handlers
    ∷ context_handlers common
    ∷ mem_handlers
    ∷ transient_handlers
    ∷ flow_handlers common
    ∷ hash_handlers common
    ∷ halt_handlers
    ∷ fill_range 0x60 32 (lift (push_n common))
    ∷ fill_range 0x80 16 (lift dup_n)
    ∷ fill_range 0x90 16 (lift swap_n)
    ∷ fill_range 0xa0 5 (lift log_n)
    ∷ []

unfoldable pub straight_handlers : Common → Handlers
straight_handlers common = joined (straight_groups common)

unfoldable pub handlers : Common → Handlers
unfolding straight_handlers
handlers common = jump_handlers ++ straight_handlers common

-- `dynamicGasHandlers`
unfoldable pub gas_handlers : Common → List (ℕ × (ℕ → Step ℕ))
gas_handlers common =
    (0x0a, λ gas. lift (exp_gas common gas))
    ∷ (0x20, λ gas. lift (keccak256_gas common gas))
    ∷ (0x37, λ gas. lift (calldatacopy_gas common gas))
    ∷ (0x39, λ gas. lift (codecopy_gas common gas))
    ∷ (0x3e, λ gas. lift (returndatacopy_gas common gas))
    ∷ (0x51, λ gas. lift (memory_access_gas 32 common gas))
    ∷ (0x52, λ gas. lift (memory_access_gas 32 common gas))
    ∷ (0x53, λ gas. lift (memory_access_gas 1 common gas))
    ∷ (0x5e, λ gas. lift (mcopy_gas common gas))
    ∷ (0xf3, λ gas. lift (halt_gas common gas))
    ∷ (0xfd, λ gas. lift (halt_gas common gas))
    ∷ fill_range 0xa0 5 (λ gas. lift (log_gas common gas))

-- The opcodes of the activated proposals, the later before the earlier.
unfoldable pub with_activated :
    Common → List (ℕ × List (ℕ × OpcodeEntry)) → List (ℕ × OpcodeEntry) → List (ℕ × OpcodeEntry)
with_activated common [] builder = builder
with_activated common ((eip, added) ∷ rest) builder =
    with_activated common rest (if common.is_activated_eip eip then added ++ builder else builder)

unfoldable pub opcode_builder : Common → List (ℕ × OpcodeEntry)
unfolding with_activated opcodes base_capability_opcodes eip_opcodes
opcode_builder common =
    with_activated common eip_opcodes (with_activated common base_capability_opcodes opcodes)

-- Proposal 65 raises the price of MLOAD, MSTORE and MSTORE8.
unfoldable pub fee_of : Common → ℕ → OpcodeEntry → ℕ
fee_of common op e =
    common.base_fee e.name
    + (if common.is_activated_proposal 65 && (op == 0x51 || op == 0x52 || op == 0x53) then 1 else 0)

abbrev pub or_other {ℓ} : {V : Type ℓ} → Option V → V → V
or_other (some v) other = v
or_other none other = other

-- `opcodes[0xfe]`
abbrev pub invalid_entry : OpcodeEntry
invalid_entry = record { name = "INVALID"; is_async = false; dynamic_gas = false }

-- The handlers and prices of the opcodes that are not modelled are parameters.
module _ (common : Common) (other : ℕ → Step (Unit {0})) (other_gas : ℕ → ℕ → Step ℕ) where
  unfoldable pub known : ℕ → OpcodeEntry → OpcodeMapEntry
  unfolding fee_of handlers gas_handlers
  known op e = record {
    code = op;
    fee = fee_of common op e;
    dynamic_gas = e.dynamic_gas;
    is_invalid = str_eq e.name "INVALID";
    gas_handler = or_other (entry_at op (gas_handlers common)) (other_gas op);
    op_handler = or_other (entry_at op (handlers common)) (other op);
  }

  -- The entry of 0xfe stands for every opcode that there is none of.
  unfoldable pub opcode_map : ℕ → OpcodeMapEntry
  unfolding known opcode_builder
  opcode_map op = elim (entry_at op (opcode_builder common)) [
    | some e ↦ known op e
    | none ↦ known 0xfe invalid_entry
  ]
