-- ===== src/Tvm/Opcodes/Codes.antt =====
-- packages/tvm/src/opcodes/codes.ts: the names of the opcodes and how their handlers are called. Where two
-- entries have one key, the first counts.
use tvmjs_monorepo.Prelude.{ℕ, Bool, true, false, List, [], ◌∷◌}
use Prim.Native.String.{String}

pub record OpcodeEntry : Type 0 where
  pub name : String
  pub is_async : Bool
  pub dynamic_gas : Bool

abbrev default_op : String → OpcodeEntry
default_op name = record { name = name; is_async = false; dynamic_gas = false }

abbrev dynamic_gas_op : String → OpcodeEntry
dynamic_gas_op name = record { name = name; is_async = false; dynamic_gas = true }

abbrev async_op : String → OpcodeEntry
async_op name = record { name = name; is_async = true; dynamic_gas = false }

abbrev async_and_dynamic_gas_op : String → OpcodeEntry
async_and_dynamic_gas_op name = record { name = name; is_async = true; dynamic_gas = true }

unfoldable pub opcodes : List (ℕ × OpcodeEntry)
opcodes =
    (0x00, default_op "STOP")
    ∷ (0x01, default_op "ADD")
    ∷ (0x02, default_op "MUL")
    ∷ (0x03, default_op "SUB")
    ∷ (0x04, default_op "DIV")
    ∷ (0x05, default_op "SDIV")
    ∷ (0x06, default_op "MOD")
    ∷ (0x07, default_op "SMOD")
    ∷ (0x08, default_op "ADDMOD")
    ∷ (0x09, default_op "MULMOD")
    ∷ (0x0a, dynamic_gas_op "EXP")
    ∷ (0x0b, default_op "SIGNEXTEND")
    ∷ (0x10, default_op "LT")
    ∷ (0x11, default_op "GT")
    ∷ (0x12, default_op "SLT")
    ∷ (0x13, default_op "SGT")
    ∷ (0x14, default_op "EQ")
    ∷ (0x15, default_op "ISZERO")
    ∷ (0x16, default_op "AND")
    ∷ (0x17, default_op "OR")
    ∷ (0x18, default_op "XOR")
    ∷ (0x19, default_op "NOT")
    ∷ (0x1a, default_op "BYTE")
    ∷ (0x20, dynamic_gas_op "KECCAK256")
    ∷ (0x30, async_op "ADDRESS")
    ∷ (0x31, async_and_dynamic_gas_op "BALANCE")
    ∷ (0x32, async_op "ORIGIN")
    ∷ (0x33, async_op "CALLER")
    ∷ (0x34, async_op "CALLVALUE")
    ∷ (0x35, async_op "CALLDATALOAD")
    ∷ (0x36, async_op "CALLDATASIZE")
    ∷ (0x37, async_and_dynamic_gas_op "CALLDATACOPY")
    ∷ (0x38, default_op "CODESIZE")
    ∷ (0x39, dynamic_gas_op "CODECOPY")
    ∷ (0x3a, default_op "GASPRICE")
    ∷ (0x3b, async_and_dynamic_gas_op "EXTCODESIZE")
    ∷ (0x3c, async_and_dynamic_gas_op "EXTCODECOPY")
    ∷ (0x40, async_op "BLOCKHASH")
    ∷ (0x41, async_op "COINBASE")
    ∷ (0x42, async_op "TIMESTAMP")
    ∷ (0x43, async_op "NUMBER")
    ∷ (0x44, async_op "DIFFICULTY")
    ∷ (0x45, async_op "GASLIMIT")
    ∷ (0x50, default_op "POP")
    ∷ (0x51, dynamic_gas_op "MLOAD")
    ∷ (0x52, dynamic_gas_op "MSTORE")
    ∷ (0x53, dynamic_gas_op "MSTORE8")
    ∷ (0x54, async_and_dynamic_gas_op "SLOAD")
    ∷ (0x55, async_and_dynamic_gas_op "SSTORE")
    ∷ (0x56, default_op "JUMP")
    ∷ (0x57, default_op "JUMPI")
    ∷ (0x58, default_op "PC")
    ∷ (0x59, default_op "MSIZE")
    ∷ (0x5a, default_op "GAS")
    ∷ (0x5b, default_op "JUMPDEST")
    ∷ (0x60, default_op "PUSH")
    ∷ (0x61, default_op "PUSH")
    ∷ (0x62, default_op "PUSH")
    ∷ (0x63, default_op "PUSH")
    ∷ (0x64, default_op "PUSH")
    ∷ (0x65, default_op "PUSH")
    ∷ (0x66, default_op "PUSH")
    ∷ (0x67, default_op "PUSH")
    ∷ (0x68, default_op "PUSH")
    ∷ (0x69, default_op "PUSH")
    ∷ (0x6a, default_op "PUSH")
    ∷ (0x6b, default_op "PUSH")
    ∷ (0x6c, default_op "PUSH")
    ∷ (0x6d, default_op "PUSH")
    ∷ (0x6e, default_op "PUSH")
    ∷ (0x6f, default_op "PUSH")
    ∷ (0x70, default_op "PUSH")
    ∷ (0x71, default_op "PUSH")
    ∷ (0x72, default_op "PUSH")
    ∷ (0x73, default_op "PUSH")
    ∷ (0x74, default_op "PUSH")
    ∷ (0x75, default_op "PUSH")
    ∷ (0x76, default_op "PUSH")
    ∷ (0x77, default_op "PUSH")
    ∷ (0x78, default_op "PUSH")
    ∷ (0x79, default_op "PUSH")
    ∷ (0x7a, default_op "PUSH")
    ∷ (0x7b, default_op "PUSH")
    ∷ (0x7c, default_op "PUSH")
    ∷ (0x7d, default_op "PUSH")
    ∷ (0x7e, default_op "PUSH")
    ∷ (0x7f, default_op "PUSH")
    ∷ (0x80, default_op "DUP")
    ∷ (0x81, default_op "DUP")
    ∷ (0x82, default_op "DUP")
    ∷ (0x83, default_op "DUP")
    ∷ (0x84, default_op "DUP")
    ∷ (0x85, default_op "DUP")
    ∷ (0x86, default_op "DUP")
    ∷ (0x87, default_op "DUP")
    ∷ (0x88, default_op "DUP")
    ∷ (0x89, default_op "DUP")
    ∷ (0x8a, default_op "DUP")
    ∷ (0x8b, default_op "DUP")
    ∷ (0x8c, default_op "DUP")
    ∷ (0x8d, default_op "DUP")
    ∷ (0x8e, default_op "DUP")
    ∷ (0x8f, default_op "DUP")
    ∷ (0x90, default_op "SWAP")
    ∷ (0x91, default_op "SWAP")
    ∷ (0x92, default_op "SWAP")
    ∷ (0x93, default_op "SWAP")
    ∷ (0x94, default_op "SWAP")
    ∷ (0x95, default_op "SWAP")
    ∷ (0x96, default_op "SWAP")
    ∷ (0x97, default_op "SWAP")
    ∷ (0x98, default_op "SWAP")
    ∷ (0x99, default_op "SWAP")
    ∷ (0x9a, default_op "SWAP")
    ∷ (0x9b, default_op "SWAP")
    ∷ (0x9c, default_op "SWAP")
    ∷ (0x9d, default_op "SWAP")
    ∷ (0x9e, default_op "SWAP")
    ∷ (0x9f, default_op "SWAP")
    ∷ (0xa0, dynamic_gas_op "LOG")
    ∷ (0xa1, dynamic_gas_op "LOG")
    ∷ (0xa2, dynamic_gas_op "LOG")
    ∷ (0xa3, dynamic_gas_op "LOG")
    ∷ (0xa4, dynamic_gas_op "LOG")
    ∷ (0xf0, async_and_dynamic_gas_op "CREATE")
    ∷ (0xf1, async_and_dynamic_gas_op "CALL")
    ∷ (0xf2, async_and_dynamic_gas_op "CALLCODE")
    ∷ (0xf3, dynamic_gas_op "RETURN")
    ∷ (0xfe, default_op "INVALID")
    ∷ (0xff, async_and_dynamic_gas_op "SELFDESTRUCT")
    ∷ (0xd0, async_and_dynamic_gas_op "CALLTOKEN")
    ∷ (0xd1, async_and_dynamic_gas_op "TOKENBALANCE")
    ∷ (0xd2, async_op "CALLTOKENVALUE")
    ∷ (0xd3, async_op "CALLTOKENID")
    ∷ (0xd4, async_and_dynamic_gas_op "ISCONTRACT")
    ∷ []

unfoldable pub base_capability_opcodes : List (ℕ × List (ℕ × OpcodeEntry))
base_capability_opcodes =
    (606, (0xf4, async_and_dynamic_gas_op "DELEGATECALL") ∷ [])
    ∷ (
      608,
      (0x54, async_and_dynamic_gas_op "SLOAD")
          ∷ (0xf1, async_and_dynamic_gas_op "CALL")
          ∷ (0xf2, async_and_dynamic_gas_op "CALLCODE")
          ∷ (0x3b, async_and_dynamic_gas_op "EXTCODESIZE")
          ∷ (0x3c, async_and_dynamic_gas_op "EXTCODECOPY")
          ∷ (0xf4, async_and_dynamic_gas_op "DELEGATECALL")
          ∷ (0xff, async_and_dynamic_gas_op "SELFDESTRUCT")
          ∷ (0x31, async_and_dynamic_gas_op "BALANCE")
          ∷ [],
    )
    ∷ (
      609,
      (0xfd, dynamic_gas_op "REVERT")
          ∷ (0xfa, async_and_dynamic_gas_op "STATICCALL")
          ∷ (0x3d, async_op "RETURNDATASIZE")
          ∷ (0x3e, async_and_dynamic_gas_op "RETURNDATACOPY")
          ∷ [],
    )
    ∷ (
      1013,
      (0x1b, default_op "SHL")
          ∷ (0x1c, default_op "SHR")
          ∷ (0x1d, default_op "SAR")
          ∷ (0x3f, async_and_dynamic_gas_op "EXTCODEHASH")
          ∷ (0xf5, async_and_dynamic_gas_op "CREATE2")
          ∷ [],
    )
    ∷ (1679, (0x46, default_op "CHAINID") ∷ (0x47, default_op "SELFBALANCE") ∷ [])
    ∷ (4399, (0x44, async_op "PREVRANDAO") ∷ [])
    ∷ []

unfoldable pub eip_opcodes : List (ℕ × List (ℕ × OpcodeEntry))
eip_opcodes =
    (
      8024,
      (0xe6, default_op "DUPN") ∷ (0xe7, default_op "SWAPN") ∷ (0xe8, default_op "EXCHANGE") ∷ [],
    )
    ∷ (1153, (0x5c, default_op "TLOAD") ∷ (0x5d, default_op "TSTORE") ∷ [])
    ∷ (3198, (0x48, default_op "BASEFEE") ∷ [])
    ∷ (3855, (0x5f, default_op "PUSH0") ∷ [])
    ∷ (
      4200,
      (0xe0, default_op "RJUMP") ∷ (0xe1, default_op "RJUMPI") ∷ (0xe2, default_op "RJUMPV") ∷ [],
    )
    ∷ (4750, (0xe3, default_op "CALLF") ∷ (0xe4, default_op "RETF") ∷ [])
    ∷ (5656, (0x5e, dynamic_gas_op "MCOPY") ∷ [])
    ∷ (6206, (0xe5, default_op "JUMPF") ∷ [])
    ∷ (
      7069,
      (0xf7, default_op "RETURNDATALOAD")
          ∷ (0xf8, async_and_dynamic_gas_op "EXTCALL")
          ∷ (0xf9, async_and_dynamic_gas_op "EXTDELEGATECALL")
          ∷ (0xfb, async_and_dynamic_gas_op "EXTSTATICCALL")
          ∷ [],
    )
    ∷ (7843, (0x4b, async_op "SLOTNUM") ∷ [])
    ∷ (
      7620,
      (0xec, async_and_dynamic_gas_op "EOFCREATE")
          ∷ (0xee, async_and_dynamic_gas_op "RETURNCONTRACT")
          ∷ [],
    )
    ∷ (7939, (0x1e, default_op "CLZ") ∷ [])
    ∷ []
