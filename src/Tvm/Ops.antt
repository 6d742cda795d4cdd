-- ===== src/Tvm/Ops.antt =====
-- packages/tvm/src/opcodes/functions.ts, by groups of opcodes.
pub mod Frame
pub mod Arith
pub mod Logic
pub mod Mem
pub mod Context
pub mod Flow
pub mod Transient
pub mod Words
pub mod Halt
