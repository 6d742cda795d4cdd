-- ===== src/Tvm.antt =====
-- packages/tvm: the virtual machine.
pub mod Errors
pub mod Stack
pub mod Memory
pub mod Word
pub mod Slice
pub mod TransientStorage
pub mod Journal
pub mod Machine
pub mod Interpreter
pub mod Gas
pub mod Ops
pub mod Run
pub mod Call
pub mod Opcodes
