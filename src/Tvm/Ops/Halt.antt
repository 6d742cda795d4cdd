-- ===== src/Tvm/Ops/Halt.antt =====
-- packages/tvm/src/opcodes/functions.ts: KECCAK256, LOG, and the handlers that end the frame, which keep the
-- changed state where they throw. `Number(offset)` is the offset itself, as it is below 2 ^ 53.
use tvmjs_monorepo.Prelude.{
  ℕ, ◌-◌, ltb, ◌==◌, not, false, List, [], ◌∷◌, length, some, if◌then◌else◌, Result, ok, err,
  result_map,
}
use tvmjs_monorepo.Prelude.Effects.{Effect, throw}
use tvmjs_monorepo.Util.Bytes.{BytesError, bytes_to_bigint, bigint_to_bytes, set_length_left}
use tvmjs_monorepo.Tvm.Errors.{TvmError, stop, revert, out_of_range, internal}
use tvmjs_monorepo.Tvm.Machine.{
  Common, RunState, Exec, ◌>>=◌, ◌>>◌, pure, gets, modify, trap_if, push, pop_n, nth, read_memory,
  from_result,
}

-- The bytes of the memory that two operands name.
abbrev pub operand_bytes : ℕ → ℕ → Exec (List ℕ)
operand_bytes offset length = if length == 0 then pure [] else read_memory offset length false

unfoldable pub keccak256 : Common → Exec (Unit {0})
keccak256 common = do
  vs ← pop_n 2
  bs ← operand_bytes (nth 0 vs) (nth 1 vs)
  push (bytes_to_bigint (common.keccak256 bs))

-- `setLengthLeft(bigIntToBytes(a), 32)` of each topic.
unfoldable pub topic_bytes : List ℕ → Result BytesError (List (List ℕ))
topic_bytes [] = ok []
topic_bytes (a ∷ topics) =
    let rest = topic_bytes topics in
    elim (set_length_left (bigint_to_bytes a) 32 false) [
      | err e ↦ err e
      | ok topic ↦ result_map (λ others. topic ∷ others) rest
    ]

-- `log` of the interpreter; the newest log first.
abbrev pub log : List ℕ → ℕ → List (List ℕ) → Exec (Unit {0})
log logged number_of_topics topics = do
  trap_if (ltb 4 number_of_topics) out_of_range
  trap_if (not (length topics == number_of_topics)) internal
  modify (λ s. record s {
    logs = record { address = s.env.address; topics = topics; logged = logged } ∷ s.logs;
  })

unfoldable pub log_n : Exec (Unit {0})
unfolding topic_bytes
log_n = do
  vs ← pop_n 2
  topics_count ← gets (λ s. s.op_code - 160)
  topics ← pop_n topics_count
  topics_buf ← from_result (topic_bytes topics)
  mem ← operand_bytes (nth 0 vs) (nth 1 vs)
  log mem topics_count topics_buf

-- `STOP`
unfoldable pub stop_op : Effect RunState TvmError (Unit {0})
stop_op = throw stop

-- `finish` and `revert` of the interpreter.
abbrev pub halt_with : TvmError → List ℕ → Effect RunState TvmError (Unit {0})
halt_with e bs s = (record s { return_value = some bs }, err e)

-- `RETURN` and `REVERT`. Where the operands are missing, nothing has changed.
abbrev pub halt_op : TvmError → Effect RunState TvmError (Unit {0})
halt_op e s = elim ((pop_n 2 >>= λ vs. operand_bytes (nth 0 vs) (nth 1 vs)) s) [
  | ok (bs, t) ↦ halt_with e bs t
  | err thrown ↦ (s, err thrown)
]

unfoldable pub return_op : Effect RunState TvmError (Unit {0})
return_op = halt_op stop

unfoldable pub revert_op : Effect RunState TvmError (Unit {0})
revert_op = halt_op revert
