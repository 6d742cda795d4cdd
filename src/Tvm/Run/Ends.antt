-- ===== src/Tvm/Run/Ends.antt =====
-- packages/tvm/src/interpreter.ts: the loop of `run` ends.
use tvmjs_monorepo.Prelude.{
  ℕ, zero, suc, ◌+◌, ◌-◌, ◌*◌, ◌<◌, ◌≤◌, ◌≡◌, refl, ap, sym, ◌∙◌, ◌⊎◌, inl, inr, ltb, ◌==◌, ◌&&◌,
  not, leb, get_or, Bool, true, false, List, length, none, some, Bool-cases, ok, err, Result-cases,
  arith,
}
use tvmjs_monorepo.Prelude.Effects.{◌>>◌, throw_when, bind_returned}
use tvmjs_monorepo.Tvm.Errors.{TvmError, internal, invalid_opcode}
use tvmjs_monorepo.Tvm.Stack.{Stack}
use tvmjs_monorepo.Tvm.Machine.{Common, RunState}
use tvmjs_monorepo.Tvm.Ops.Flow.Analysis.{analysed}
use tvmjs_monorepo.Tvm.Run.{
  OpcodeMapEntry, charge, stateless_gas, dynamic_gas_of, analyse_jumps, advance_pc, paid, priced,
  before_handler, run_step, RunResult, settle, ended, op_code_at, step_at, fails_at, run_loop,
  enough_fuel, run,
}

-- The gas, the stack and the place in the code stay.
abbrev pub SameFrame : RunState → RunState → Type 0
SameFrame s t =
    (t.code ≡ s.code)
    × (t.program_counter ≡ s.program_counter)
    × (t.gas_left ≡ s.gas_left)
    × (t.stack ≡ s.stack)

-- The price of an opcode is at least `least` of the stack. The handler gives back no more gas than that,
-- and where it may have given it all back it does not jump backwards. The code stays.
pub record IsCharging (e : OpcodeMapEntry) : Type 0 where
  pub least : Stack → ℕ
  pub prices :
      (s t : RunState) (gas : ℕ)
      → dynamic_gas_of e s ≡ (t, ok gas)
      → SameFrame s t × (least t.stack ≤ gas)
  pub runs :
      (s t : RunState)
      → e.op_handler s ≡ (t, ok tt)
      → (t.code ≡ s.code)
        × (t.gas_left ≤ s.gas_left + least s.stack)
        × ((t.gas_left < s.gas_left + least s.stack) ⊎ (s.program_counter ≤ t.program_counter))

stateless_gas_lem :
    (common : Common) (gas : ℕ) (s t : RunState) (g : ℕ)
    → stateless_gas common gas s ≡ (t, ok g)
    → SameFrame s t × (gas ≤ g)
stateless_gas_lem common gas s t g h = ground arith

charge_lem :
    (gas : ℕ) (s t : RunState)
    → charge gas s ≡ (t, ok tt)
    → (t.code ≡ s.code)
      × (t.program_counter ≡ s.program_counter)
      × (t.gas_left + gas ≡ s.gas_left)
      × (t.stack ≡ s.stack)
unfolding charge
charge_lem gas s t h = ground arith

analyse_jumps_lem :
    (common : Common) (e : OpcodeMapEntry) (s t : RunState)
    → analyse_jumps common e s ≡ (t, ok tt)
    → SameFrame s t
unfolding analysed
analyse_jumps_lem common e s t h = ground arith

throw_when_lem : (b : Bool) (e : TvmError) (s t : RunState) → throw_when b e s ≡ (t, ok tt) → t ≡ s
throw_when_lem true e s t h = cc
throw_when_lem false e s t h = cc

before_handler_lem :
    (common : Common) (e : OpcodeMapEntry) (law : IsCharging e) (s t : RunState)
    → before_handler common e s ≡ (t, ok tt)
    → (t.code ≡ s.code)
      × (t.program_counter ≡ suc s.program_counter)
      × (t.gas_left + law.least t.stack ≤ s.gas_left)
unfolding before_handler
before_handler_lem common e law s t h =
    let (s1, dynamic, h1, k1) = bind_returned (dynamic_gas_of e) (priced common e) s h in
    let (s2, gas, h2, k2) =
      bind_returned (stateless_gas common dynamic)
        (λ g. throw_when e.is_invalid invalid_opcode >> paid common e g) s1 k1 in
    let (s3, done3, h3, k3) =
      bind_returned (throw_when e.is_invalid invalid_opcode) (λ done. paid common e gas) s2 k2 in
    let (s4, done4, h4, k4) =
      bind_returned (charge gas) (λ done. analyse_jumps common e >> advance_pc) s3 k3 in
    let (s5, done5, h5, k5) = bind_returned (analyse_jumps common e) (λ done. advance_pc) s4 k4 in
    let ((c1, n1, g1, st1), l1) = law.prices s s1 dynamic h1 in
    let ((c2, n2, g2, st2), l2) = stateless_gas_lem common dynamic s1 s2 gas h2 in
    let same = throw_when_lem e.is_invalid invalid_opcode s2 s3 h3 in
    let (c4, n4, g4, st4) = charge_lem gas s3 s4 h4 in
    let (c5, n5, g5, st5) = analyse_jumps_lem common e s4 s5 h5 in
    let stack_of : (t.stack ≡ s1.stack) =
      sym (ap (λ r. r.0.stack) k5) ∙ st5 ∙ st4 ∙ ap (λ r. r.stack) same ∙ st2 in
    let least_of = ap law.least stack_of in
    let now : (t.gas_left ≡ s5.gas_left) = sym (ap (λ r. r.0.gas_left) k5) in
    let before : (s3.gas_left ≡ s2.gas_left) = ap (λ r. r.gas_left) same in
    let at : (s3.program_counter ≡ s2.program_counter) = ap (λ r. r.program_counter) same in
    let after : (suc s5.program_counter ≡ t.program_counter) =
      omega (arith, ap (λ r. r.0.program_counter) k5) in
    (
      sym (ap (λ r. r.0.code) k5) ∙ c5 ∙ c4 ∙ ap (λ r. r.code) same ∙ c2 ∙ c1,
      omega (arith, n1, n2, at, n4, n5, after),
      omega (arith, g1, g2, before, g4, g5, now, l1, l2, least_of),
    )

-- A pass that goes on comes closer to the end.
step_at-shrinks :
    (chunk_present : List ℕ → ℕ → Bool) (opcode_map : ℕ → OpcodeMapEntry) (common : Common)
    → ((op_code : ℕ) → IsCharging (opcode_map op_code))
    → (s t : RunState) → step_at chunk_present opcode_map common s ≡ (t, ok tt)
    → (t.code ≡ s.code)
      × (t.gas_left ≤ s.gas_left)
      × ((t.gas_left < s.gas_left) ⊎ (s.program_counter < t.program_counter))
unfolding step_at run_step
step_at-shrinks chunk_present opcode_map common laws s t h =
    let byte = get_or s.code s.program_counter 0 in
    let e = opcode_map byte in
    let law = laws byte in
    let op_code = op_code_at chunk_present opcode_map common s in
    let (u, done, charged, ran) =
      bind_returned (before_handler common e) (λ done. e.op_handler)
        (record s { op_code = op_code }) h in
    let (c, n, g) = before_handler_lem common e law (record s { op_code = op_code }) u charged in
    let (c', g', moves) = law.runs u t ran in
    (
      c' ∙ c,
      omega (arith, g, g'),
      elim moves [ inl less ↦ inl (omega (arith, g, less)) | inr on ↦ inr (omega (arith, n, on)) ],
    )

fuel_lem :
    (n g p g' p' fuel : ℕ)
    → g' ≤ g
    → (g' < g) ⊎ (p < p')
    → p < n
    → suc (g * suc n + (n - p)) ≤ suc fuel
    → suc (g' * suc n + (n - p')) ≤ fuel
fuel_lem n g p g' p' fuel below (inl less) inside h = grind arith
fuel_lem n g p g' p' fuel below (inr on) inside h = grind arith

in_range : (n pc : ℕ) → (pc ≡ 0) ⊎ (pc < n) → (not (pc == 0) && leb n pc) ≡ false
in_range n pc h = ground arith

module _ (chunk_present : List ℕ → ℕ → Bool) (opcode_map : ℕ → OpcodeMapEntry)
    (common : Common) where
  -- Executions, step by step.
  pub data Runs : RunState → RunResult → Type 0 where
    off_end : (s : RunState) → length s.code ≤ s.program_counter → Runs s (s, ok none)
    no_entry_or_chunk :
        (s : RunState)
        → s.program_counter < length s.code
        → fails_at chunk_present opcode_map common s ≡ true
        → Runs s (s, err internal)
    throws :
        (s t : RunState) (e : TvmError)
        → s.program_counter < length s.code
        → fails_at chunk_present opcode_map common s ≡ false
        → step_at chunk_present opcode_map common s ≡ (t, err e)
        → Runs s (t, ended e)
    goes_on :
        (s t : RunState) {r : RunResult}
        → s.program_counter < length s.code
        → fails_at chunk_present opcode_map common s ≡ false
        → step_at chunk_present opcode_map common s ≡ (t, ok tt)
        → Runs t r
        → Runs s r

  one_pass :
      (fuel : ℕ) (s : RunState)
      → ltb s.program_counter (length s.code) ≡ true
      → fails_at chunk_present opcode_map common s ≡ false
      → run_loop chunk_present opcode_map common (suc fuel) s
        ≡ settle
            (run_loop chunk_present opcode_map common fuel)
            (step_at chunk_present opcode_map common s).0
            (step_at chunk_present opcode_map common s).1
  unfolding run_loop
  one_pass fuel s inside present = rw (inside, present) refl

  -- The loop does what the steps do, and ends.
  RunsTo : ℕ → RunState → Type 0
  RunsTo fuel s =
      (r : RunResult) × (run_loop chunk_present opcode_map common fuel s ≡ some r) × Runs s r

  module _ (laws : (op_code : ℕ) → IsCharging (opcode_map op_code)) where
    run_loop-RunsTo :
        (fuel : ℕ) (s : RunState)
        → enough_fuel chunk_present opcode_map common s ≤ fuel
        → RunsTo fuel s
    unfolding enough_fuel RunsTo
    run_loop-RunsTo zero s h = absurd (omega arith)
    run_loop-RunsTo (suc fuel) s h = elim (Bool-cases (ltb s.program_counter (length s.code))) [
      | inr out ↦ ((s, ok none), unfold run_loop in rw out refl, off_end s (ground arith))
      | inl inside ↦ elim (Bool-cases (fails_at chunk_present opcode_map common s)) [
        | inl missing ↦ (
          (s, err internal),
          unfold run_loop in rw (inside, missing) refl,
          no_entry_or_chunk s (ground arith) missing,
        )
        | inr present ↦
            let t = (step_at chunk_present opcode_map common s).0 in
            elim (Result-cases (step_at chunk_present opcode_map common s).1) [
              | inl (e, threw) ↦ (
                (t, ended e),
                one_pass fuel s inside present
                    ∙ ap (settle (run_loop chunk_present opcode_map common fuel) t) threw,
                throws s t e (ground arith) present (ap (λ r. (t, r)) threw),
              )
              | inr (done, returned) ↦
                  let stepped : (step_at chunk_present opcode_map common s ≡ (t, ok tt)) =
                    ap (λ r. (t, r)) returned in
                  let (same, below, moves) =
                    step_at-shrinks chunk_present opcode_map common laws s t stepped in
                  let enough : (enough_fuel chunk_present opcode_map common t ≤ fuel) = rw same (
                    fuel_lem (length s.code) s.gas_left s.program_counter t.gas_left
                      t.program_counter fuel below moves (ground arith) h) in
                  let (r, ran, runs) = run_loop-RunsTo fuel t enough in
                  (
                    r,
                    one_pass fuel s inside present
                        ∙ ap (settle (run_loop chunk_present opcode_map common fuel) t) returned
                        ∙ ran,
                    goes_on s t (ground arith) present stepped runs,
                  )
            ]
      ]
    ]

    -- A run of charging opcodes ends within its fuel, with a result that its steps lead to.
    pub run-Runs :
        (code : List ℕ) (pc : ℕ) (s : RunState)
        → (pc ≡ 0) ⊎ (pc < length code)
        → (r : RunResult) × (run chunk_present opcode_map common code (some pc) s ≡ some r)
          × Runs (record s { code = code; program_counter = pc; should_do_jump_analysis = true }) r
    unfolding run RunsTo
    run-Runs code pc s inside =
        let begun = record s {
          code = code;
          program_counter = pc;
          should_do_jump_analysis = true;
        } in
        let (r, ran, runs) =
          run_loop-RunsTo (enough_fuel chunk_present opcode_map common begun) begun (omega arith) in
        (r, rw (in_range (length code) pc inside) ran, runs)
