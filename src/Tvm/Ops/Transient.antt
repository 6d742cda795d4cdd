-- ===== src/Tvm/Ops/Transient.antt =====
-- packages/tvm/src/opcodes/functions.ts: TLOAD and TSTORE, with the methods of the interpreter that they
-- call.
pub mod Laws
use tvmjs_monorepo.Prelude.{false, ℕ, ◌==◌, List, [], length, ok, err, if◌then◌else◌}
use tvmjs_monorepo.Util.Bytes.{bytes_to_bigint, bigint_to_bytes, set_length_left}
use tvmjs_monorepo.Tvm.Errors.{static_state_change, internal}
use tvmjs_monorepo.Tvm.TransientStorage
use tvmjs_monorepo.Tvm.Interpreter.{get_address, is_static}
use tvmjs_monorepo.Tvm.Machine.{
  Exec, ◌>>=◌, ◌>>◌, gets, trap_if, push, pop, pop_n, nth, from_result,
}

-- `transientStorageLoad`
abbrev pub transient_storage_load : List ℕ → Exec (List ℕ)
transient_storage_load key =
    gets (λ s. TransientStorage.get (get_address s) key s.transient_storage)

-- `transientStorageStore`
abbrev pub transient_storage_store : List ℕ → List ℕ → Exec (Unit {0})
transient_storage_store key value s =
    elim (TransientStorage.put (get_address s) key value s.transient_storage) [
      | ok ts ↦ ok (tt, record s { transient_storage = ts })
      | err e ↦ err internal
    ]

unfoldable pub tload : Exec (Unit {0})
tload = do
  key ← pop
  key_buf ← from_result (set_length_left (bigint_to_bytes key) 32 false)
  value ← transient_storage_load key_buf
  push (if length value == 0 then 0 else bytes_to_bigint value)

unfoldable pub tstore : Exec (Unit {0})
tstore = do
  static ← gets is_static
  trap_if static static_state_change
  vs ← pop_n 2
  let key = nth 0 vs
  let val = nth 1 vs
  key_buf ← from_result (set_length_left (bigint_to_bytes key) 32 false)
  transient_storage_store key_buf (if val == 0 then [] else bigint_to_bytes val)
