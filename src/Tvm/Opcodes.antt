-- ===== src/Tvm/Opcodes.antt =====
-- packages/tvm/src/opcodes: the table of opcodes with their handlers and prices.
pub mod Codes
pub mod Table
pub mod Quiet
pub mod Prices
pub mod Charging
