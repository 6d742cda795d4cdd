-- ===== src/Tvm/Call.antt =====
-- packages/tvm/src/tvm.ts and the calls of interpreter.ts: message calls.
pub mod Protocol
pub mod Transfer
pub mod AccessList
