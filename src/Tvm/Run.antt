-- ===== src/Tvm/Run.antt =====
-- packages/tvm/src/interpreter.ts: `runStep` and the loop of `run`, over a table of opcodes. A step keeps
-- the state where it throws. The profiler and the step event, which has no listener here, are left out,
-- and so are the commits and reverts of the access witness.
pub mod Ends
use tvmjs_monorepo.Prelude.{
  ℕ, zero, suc, ◌+◌, ◌-◌, ◌*◌, ltb, leb, not, ◌==◌, ◌||◌, ◌&&◌, Bool, true, false, List, ◌∷◌,
  get_or, length, Option, none, some, if◌then◌else◌, Result, ok, err,
}
use tvmjs_monorepo.Prelude.Effects.{
  Effect, ◌>>=◌, ◌>>◌, return, throw, get_state, update, throw_when,
}
use tvmjs_monorepo.Tvm.Errors.{TvmError, stop, out_of_gas, invalid_opcode, internal}
use tvmjs_monorepo.Tvm.Machine.{Common, RunState, Exec}
use tvmjs_monorepo.Tvm.Ops.Flow.Analysis.{analysed, is_cached}

abbrev pub Step {ℓ} : Type ℓ → Type ℓ
Step A = Effect RunState TvmError A

-- A handler that leaves no change of the state that its caller reads where it throws.
abbrev pub lift {ℓ} : {A : Type ℓ} → Exec A → Step A
lift m s = elim (m s) [ ok (a, s') ↦ (s', ok a) | err e ↦ (s, err e) ]

-- `OpcodeMapEntry` with its `Opcode`
pub record OpcodeMapEntry : Type 0 where
  pub code : ℕ
  pub fee : ℕ
  pub dynamic_gas : Bool
  pub is_invalid : Bool
  pub gas_handler : ℕ → Step ℕ
  pub op_handler : Step (Unit {0})

-- `useGas`, which leaves no gas where it throws.
unfoldable pub charge : ℕ → Step (Unit {0})
charge amount s =
    if ltb s.gas_left amount
    then (record s { gas_left = 0 }, err out_of_gas)
    else (record s { gas_left = s.gas_left - amount }, ok tt)

-- `accessWitness.readAccountCodeChunks` at the program counter.
abbrev pub read_code_chunk : Step ℕ
read_code_chunk s = (
  record s { code_accesses = (s.program_counter, s.program_counter) ∷ s.code_accesses },
  ok (s.env.chunk_gas s.code_accesses s.program_counter s.program_counter),
)

abbrev pub stateless_gas : Common → ℕ → Step ℕ
stateless_gas common gas s =
    if (common.is_activated_eip 6800 || common.is_activated_eip 7864) && s.env.charge_code_accesses
    then (read_code_chunk >>= λ more. return (gas + more)) s
    else (s, ok gas)

abbrev pub dynamic_gas_of : OpcodeMapEntry → Step ℕ
dynamic_gas_of e = if e.dynamic_gas then e.gas_handler e.fee else return e.fee

abbrev pub analyse_jumps : Common → OpcodeMapEntry → Step (Unit {0})
analyse_jumps common e s =
    if s.should_do_jump_analysis && (e.code == 86 || e.code == 87)
    then (analysed common s, ok tt)
    else (s, ok tt)

-- The step without its handler, in its parts.
abbrev pub advance_pc : Step (Unit {0})
advance_pc = update (λ s. record s { program_counter = s.program_counter + 1 })

abbrev pub paid : Common → OpcodeMapEntry → ℕ → Step (Unit {0})
paid common e gas = do charge gas; analyse_jumps common e; advance_pc

abbrev pub priced : Common → OpcodeMapEntry → ℕ → Step (Unit {0})
priced common e dynamic = do
  gas ← stateless_gas common dynamic
  throw_when e.is_invalid invalid_opcode
  paid common e gas

unfoldable pub before_handler : Common → OpcodeMapEntry → Step (Unit {0})
unfolding charge analysed
before_handler common e = dynamic_gas_of e >>= priced common e

unfoldable pub run_step : Common → OpcodeMapEntry → Step (Unit {0})
unfolding before_handler
run_step common e = before_handler common e >> e.op_handler

-- What `run` gives back: the state, with the exception that ended the loop if there is one, or an error
-- that is no error of the machine, which is thrown again.
abbrev pub RunResult : Type 0
RunResult = RunState × Result TvmError (Option TvmError)

-- STOP is not an exception.
abbrev pub ended : TvmError → Result TvmError (Option TvmError)
ended stop = ok none
ended internal = err internal
ended e = ok (some e)

abbrev pub settle :
    (RunState → Option RunResult) → RunState → Result TvmError (Unit {0}) → Option RunResult
settle continue s (ok done) = continue s
settle continue s (err e) = some (s, ended e)

-- `checkChunkWitnessPresent` of the state manager, and the table of opcodes.
module _ (chunk_present : List ℕ → ℕ → Bool) (opcode_map : ℕ → OpcodeMapEntry)
    (common : Common) where
  -- After the jump analysis there is a cached entry only where the analysis came to; elsewhere the
  -- loop reads a field of `undefined`.
  abbrev pub is_uncached : RunState → Bool
  is_uncached s = not s.should_do_jump_analysis && not (is_cached common s.code s.program_counter)

  -- Before the jump analysis the opcode is the byte of the code, and afterwards that of the entry.
  abbrev pub op_code_at : RunState → ℕ
  op_code_at s =
      let byte = get_or s.code s.program_counter 0 in
      if s.should_do_jump_analysis then byte else (opcode_map byte).code

  abbrev pub misses_chunk : RunState → Bool
  misses_chunk s =
      op_code_at s == 254
      && common.is_activated_eip 7864
      && s.env.charge_code_accesses
      && not (chunk_present s.env.address s.program_counter)

  -- What the loop throws before the step.
  abbrev pub fails_at : RunState → Bool
  fails_at s = is_uncached s || misses_chunk s

  unfoldable pub step_at : Step (Unit {0})
  unfolding run_step
  step_at s =
      run_step common (opcode_map (get_or s.code s.program_counter 0))
        (record s { op_code = op_code_at s })

  -- The loop, on fuel; `none` where it runs out.
  unfoldable pub run_loop : ℕ → RunState → Option RunResult
  unfolding step_at
  run_loop zero s = none
  run_loop (suc fuel) s =
      if ltb s.program_counter (length s.code)
      then (if fails_at s
          then some (s, err internal)
          else settle (run_loop fuel) (step_at s).0 (step_at s).1)
      else some (s, ok none)

  -- What bounds the passes of the loop: no pass adds gas, and one that uses none moves forward.
  unfoldable pub enough_fuel : RunState → ℕ
  enough_fuel s = suc (s.gas_left * suc (length s.code) + (length s.code - s.program_counter))

  -- `run` of code that is not in the EOF format.
  unfoldable pub run : List ℕ → Option ℕ → RunState → Option RunResult
  unfolding run_loop enough_fuel
  run code pc s =
      let start : ℕ = elim pc [ none ↦ s.program_counter | some n ↦ n ] in
      let begun = record s {
        code = code;
        program_counter = start;
        should_do_jump_analysis = true;
      } in
      if not (start == 0) && leb (length code) start
      then some (record s { code = code; program_counter = start }, err internal)
      else run_loop (enough_fuel begun) begun
