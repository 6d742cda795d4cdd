-- ===== src/Tvm/Errors.antt =====
-- packages/tvm/src/errors.ts: the errors that the modelled code throws. `internal` stands for
-- `EthereumJSErrorWithoutCode` and the type errors of the runtime, which carry no code of their own.
pub data TvmError : Type 0 where
  stop out_of_gas stack_underflow stack_overflow invalid_jump invalid_opcode : TvmError
  static_state_change out_of_range revert refund_exhausted internal : TvmError
  insufficient_balance insufficient_token_balance value_overflow : TvmError
