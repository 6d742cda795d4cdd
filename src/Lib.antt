-- ===== src/Lib.antt =====
-- Verification of the TRON virtual machine monorepo (TypeScript): the core of the machine that executes
-- contract code, packages/tvm, the byte conversions of packages/util that it relies on, recursive length
-- prefix encoding, packages/rlp, and the paths and the database of the Merkle Patricia trie, packages/mpt.
--
-- A frame of execution is one `RunState` (packages/tvm/src/interpreter.ts): a stack, a memory, a
-- program counter, gas, and the environment of the call. An opcode handler
-- (packages/tvm/src/opcodes/functions.ts) is an action on that state, `Exec` of Tvm/Machine: it returns
-- the new state or throws, and a throw ends the frame. Handlers call the stack, the memory, and the
-- helpers of opcodes/util.ts, and so do the models.
--
--   Prelude   names, Boolean tests, lists over the native numbers, results of calls that may throw,
--             signed integers, bits and powers.
--   Util      Account is packages/util/src/account.ts. Bytes is packages/util/src/bytes.ts:
--             `bytesToBigInt` is `bytes_to_bigint`, `bigIntToBytes` is
--             `bigint_to_bytes`, `setLengthLeft` and `setLengthRight` keep their names.
--   Rlp       packages/rlp/src/index.ts: Hex is the hexadecimal text (`numberToHex`, `hexToBytes`,
--             `parseHexByte`), Item the inputs and the results, Encode is `encode`, Decode is `_decode`,
--             a function for each of its branches, and `decode`. Encode/Rules has the encoding without
--             the text and the errors.
--   Mpt       packages/mpt/src: Nibbles is util/nibbles.ts and util/hex.ts, Encoding is
--             util/encoding.ts, and
--             CheckpointDb is db/checkpointDB.ts, whose state CheckpointDb/Views reads as a stack of
--             contents. Its database and its LRU cache are a `Backend`, with the laws of
--             CheckpointDb/Backends.
--   Tvm       Stack is src/stack.ts and Memory is src/memory.ts of packages/tvm, method by method; Word,
--             Slice and Gas are opcodes/util.ts; Machine is the state of interpreter.ts; Ops is
--             opcodes/functions.ts: Arith (0x01 to 0x0b), Logic (0x10 to 0x1e), Mem (POP, MLOAD,
--             MSTORE, MSTORE8, MCOPY and the copies of byte arrays), Context (the values of the
--             frame, the transaction and the block), Flow (jumps, pushes, DUP, SWAP, EIP-8024, and the
--             jump analysis of interpreter.ts in Flow/Analysis). Interpreter is what a handler asks of its
--             frame; Ops/Transient is TLOAD and TSTORE. TransientStorage is
--             src/transientStorage.ts, with the JavaScript maps of Prelude/Maps and with its journal
--             and its indices newest first. Journal is src/journal.ts; the newest of its differences
--             stands by itself, as there always is one. Gas/Handlers is opcodes/gas.ts, Ops/Halt is
--             KECCAK256, LOG, STOP, RETURN and REVERT, and Opcodes is opcodes/codes.ts: Codes has its
--             tables, Table the maps of handlers and prices and `getOpcodesForHF`. Run is `runStep` and
--             the loop of `run` of interpreter.ts over such a table, as an `Effect` of Prelude/Effects,
--             which keeps the state where it throws; Run/Ends has the steps as a relation.
--             Call/Protocol is the two checkpoints and the clean-up of `_runCall` of src/tvm.ts, over
--             the journal, the transient storage and the access list, each a layer with its methods.
--             Call/AccessList is the checkpoints of packages/util/src/bal.ts, as such a layer.
--             Call/Transfer is what `_executeCall` moves between two accounts before it runs the code.
--   StateManager  Cache is src/cache/cache.ts of packages/statemanager, the dirty keys with their
--             checkpoints, which Cache/Levels reads as a stack of sets. Simple is src/simpleStateManager.ts,
--             the accounts, code, storage and token ids by levels, with accounts as values: what its
--             caller changes in an account that it has got counts when it puts the account.
--             Simple/Objects has the levels of accounts as objects on a heap, which are changed in
--             place and which a checkpoint copies.
--   Tests     runs at concrete inputs, and the theorems at such inputs.
--
-- A bigint of the source is a native number, and a stack item is below 2 ^ 256 where a theorem says
-- `IsWord`. Where the arithmetic of the source leaves the natural numbers it is done on ℤ. The view of a
-- stack is the list of its items, the top first; the entries above the length of the array are stale and
-- not in the view. A stack is valid when its length is within its array and its maximal height.
--
-- Fuel: the digits of a number are computed with one step more than the number, and the jump analysis
-- with one step for every byte of the code; both are enough for the results stated here. `decode` recurs
-- with two steps for every byte of its input and one more, as every second call consumes a byte. The
-- loop of `run` has a step for every unit of gas and byte of the code, as a step that uses no gas moves
-- forward. The exponentiation is a recursion on the well-founded order of the exponent.
--
-- Parameters: the switches and prices of `Common`, its Keccak function, the handlers and prices of the
-- opcodes that are not modelled, whether a witness has a chunk of code, the layers of a message call and
-- what it does between its checkpoints, what the access witness charges for code bytes, the
-- UTF-8 encoder of the platform, and the database and the LRU cache behind the trie, any call of whose
-- database may be rejected.
--
-- Not modelled: offsets from 2 ^ 53 on, which `Number` would round (the gas of such a memory exceeds any
-- limit); the texts of errors; `mergeAndFormatKeyPaths`; debug output and profiling; the handlers of
-- persistent storage, calls, creates and of the EOF format, and a run of such code; custom opcodes, the
-- step event, and the commits and reverts of the access witness; lengths from 2 ^ 53 on in recursive
-- length prefix encoding, which `parseInt` would round and which no array has; the nodes of the trie,
-- its proofs and its walks; the Merkle state manager and the values in the caches of the package
-- statemanager; the packages binarytree, tx, block, blockchain, vm, client and common.
pub mod Prelude
pub mod Util
pub mod Rlp
pub mod Mpt
pub mod StateManager
pub mod Tvm
pub mod Tests
