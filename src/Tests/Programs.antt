-- ===== src/Tests/Programs.antt =====
-- A program under a table in which the opcodes that are not modelled throw.
use tvmjs_monorepo.Prelude.{
  ℕ, ◌≤◌, ◌+◌, ◌==◌, ◌≡◌, ◌⊎◌, inl, inr, refl, ap, Bool-cases, true, false, List, some, none,
  Result, ok, err, if◌then◌else◌, arith,
}
use tvmjs_monorepo.Prelude.Effects.{throw}
use tvmjs_monorepo.Tvm.Errors.{TvmError, internal}
use tvmjs_monorepo.Tvm.Stack.{Stack}
use tvmjs_monorepo.Tvm.Machine.{RunState, peek, nth}
use tvmjs_monorepo.Tvm.Run.{Step, RunResult, run}
use tvmjs_monorepo.Tvm.Run.Ends.{IsCharging, Runs}
use tvmjs_monorepo.Tvm.Opcodes.Codes.{OpcodeEntry}
use tvmjs_monorepo.Tvm.Opcodes.Table.{
  entry_at, or_other, handlers, straight_handlers, gas_handlers, fee_of, known, opcode_map,
  opcode_builder,
}
use tvmjs_monorepo.Tvm.Opcodes.Prices.{IsPrice}
use tvmjs_monorepo.Tvm.Opcodes.Charging.{IsEntry, is_jump, or_other-IsPrice, priced_lem, run-ends}
use tvmjs_monorepo.Tests.Data.{common_example, code_example, state}

-- A stand-in for CALL: with a value it costs 9000 and gives back a stipend of 2300.
abbrev cost_of_value : Result TvmError (List ℕ × RunState) → ℕ
cost_of_value (ok (operands, s)) = if nth 2 operands == 0 then 0 else 9000
cost_of_value (err e) = 0

abbrev least_cost : Stack → ℕ
least_cost stack = cost_of_value (peek 3 (record state { stack = stack }))

abbrev stipend : ℕ → ℕ
stipend cost = if cost == 0 then 0 else 2300

abbrev call_stand_in : Step (Unit {0})
call_stand_in s = (record s { gas_left = s.gas_left + stipend (least_cost s.stack) }, ok tt)

abbrev other_handlers : ℕ → Step (Unit {0})
other_handlers op = if op == 0xf1 then call_stand_in else throw internal

abbrev other_prices : ℕ → ℕ → Step ℕ
other_prices op fee s = (s, ok (if op == 0xf1 then fee + least_cost s.stack else fee))

other_prices-IsPrice : (op : ℕ) → IsPrice op (other_prices op)
other_prices-IsPrice op s t fee gas h = ground arith

example_jumps_cost :
    (op : ℕ) (e : OpcodeEntry)
    → entry_at op (opcode_builder common_example) ≡ some e
    → is_jump op ≡ true
    → 1 ≤ fee_of common_example op e
unfolding fee_of
example_jumps_cost op e found jumps = omega arith

cost_cases : (stack : Stack) → (least_cost stack ≡ 0) ⊎ (least_cost stack ≡ 9000)
cost_cases stack = of_operands (peek 3 (record state { stack = stack }))
  where
    of_operands :
        (r : Result TvmError (List ℕ × RunState)) → (cost_of_value r ≡ 0) ⊎ (cost_of_value r ≡ 9000)
    of_operands (err e) = inl refl
    of_operands (ok (operands, s)) = ground arith

call_price : entry_at 0xf1 (gas_handlers common_example) ≡ none
unfolding entry_at gas_handlers
call_price = refl

call_handler : entry_at 0xf1 (handlers common_example) ≡ none
unfolding entry_at handlers straight_handlers
call_handler = refl

call_is_dynamic : (e : OpcodeEntry) → IsEntry common_example 0xf1 e → e.dynamic_gas ≡ true
unfolding entry_at opcode_builder
call_is_dynamic e (inl found) = ground (arith, found)
call_is_dynamic e (inr (q, invalid)) = absurd (ground (arith, q))

call-IsCharging :
    (e : OpcodeEntry)
    → IsEntry common_example 0xf1 e
    → IsCharging (known common_example other_handlers other_prices 0xf1 e)
unfolding known
call-IsCharging e entry = record {
  least = least_cost;
  prices = λ s t gas h.
      let charged = rw (call_is_dynamic e entry, call_price) at h in
      let same : (s ≡ t) = ap (λ r. r.0) charged in
      let price : (fee_of common_example 0xf1 e + least_cost s.stack ≡ gas) =
        ground (arith, ap (λ r. r.1) charged) in
      rw (← same) ((refl, refl, refl, refl), omega (arith, price));
  runs = λ s t h.
      let ran = rw call_handler at h in
      let same = ap (λ r. r.0) ran in
      rw (← same) (elim (cost_cases s.stack) [
        | inl nothing ↦ rw nothing (refl, omega arith, inr (omega arith))
        | inr costs ↦ rw costs (refl, omega arith, inl (omega arith))
      ]);
}

throws-IsCharging :
    (op : ℕ) (e : OpcodeEntry)
    → (op == 0xf1) ≡ false
    → entry_at op (handlers common_example) ≡ none
    → IsCharging (known common_example other_handlers other_prices op e)
unfolding known
throws-IsCharging op e elsewhere absent = record {
  least = λ stack. 0;
  prices = λ s t gas h.
      let (same, low) =
        priced_lem (or_other (entry_at op (gas_handlers common_example)) (other_prices op)) op
          (or_other-IsPrice common_example other_handlers other_prices other_prices-IsPrice op
            (entry_at op (gas_handlers common_example)) refl)
          e.dynamic_gas (fee_of common_example op e) s t gas h in
      (same, omega arith);
  runs = λ s t h. absurd (ground (arith, rw (absent, elsewhere) at h));
}

others-AreCharging :
    (op : ℕ) (e : OpcodeEntry)
    → IsEntry common_example op e
    → entry_at op (handlers common_example) ≡ none
    → IsCharging (known common_example other_handlers other_prices op e)
others-AreCharging op e entry absent = elim (Bool-cases (op == 0xf1)) [
  | inl call ↦
      let here : (op ≡ 0xf1) = ground (arith, call) in
      rw here (call-IsCharging e (rw here at entry))
  | inr elsewhere ↦ throws-IsCharging op e elsewhere absent
]

run-ends_example :
    (r : RunResult) × (run
        (λ a n. true)
        (opcode_map common_example other_handlers other_prices)
        common_example
        code_example
        (some 0)
        state
      ≡ some r)
    × Runs
        (λ a n. true)
        (opcode_map common_example other_handlers other_prices)
        common_example
        (record state { code = code_example; program_counter = 0; should_do_jump_analysis = true })
        r
run-ends_example =
    run-ends common_example other_handlers other_prices other_prices-IsPrice example_jumps_cost
      others-AreCharging (λ a n. true) code_example 0 state (inl refl)
