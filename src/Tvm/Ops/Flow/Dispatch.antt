-- ===== src/Tvm/Ops/Flow/Dispatch.antt =====
-- What the jumps and pushes do.
use tvmjs_monorepo.Prelude.{
  ℕ, ◌+◌, ◌-◌, ◌≤◌, ◌<◌, ◌≡◌, ◌↔◌, refl, ap, ◌∙◌, ltb, ◌==◌, ◌&&◌, not, Bool, true, List, [], ◌∷◌,
  take, drop, length, length-take, get_or, some, if◌then◌else◌, arith, result_map, Result, ok, err,
}
use tvmjs_monorepo.Util.Bytes.{bytes_to_bigint}
use tvmjs_monorepo.Util.Bytes.Numbers.{set_length_right_lem}
use tvmjs_monorepo.Tvm.Errors.{TvmError, invalid_jump}
use tvmjs_monorepo.Tvm.Stack
use tvmjs_monorepo.Tvm.Stack.View.{view, IsValid}
use tvmjs_monorepo.Tvm.Stack.Steps.{shrunk, pop_n-shrunk, pop-shrunk}
use tvmjs_monorepo.Tvm.Machine.{Common, RunState, use_gas}
use tvmjs_monorepo.Tvm.Ops.Flow.{
  jump_is_valid, jump_to, jump, jumpi, lookup, cached, push_bytes, charge_code, push_value, push_n,
}
use tvmjs_monorepo.Tvm.Ops.Flow.Analysis.{
  fill_right, push_operand, analysed, get_valid_jump_destinations,
}
use tvmjs_monorepo.Tvm.Ops.Flow.Jumps.{Reach, is_push}
use tvmjs_monorepo.Tvm.Ops.Flow.Scan.{get_valid_jump_destinations_lem, cached-operand}

-- A destination is admissible where it is a JUMPDEST that is an opcode.
abbrev pub IsDestination : Common → List ℕ → ℕ → Type 0
IsDestination common code dest =
    Reach common code 0 dest × (dest < length code) × (get_or code dest 0 ≡ 91)

-- The state after a jump that popped `n` items.
abbrev pub jumped : RunState → ℕ → ℕ → RunState
jumped s n dest = record s { stack = shrunk n s.stack; program_counter = dest }

jump_to_lem :
    (s : RunState) (dest : ℕ)
    → jump_to dest s ≡ (
        if not (ltb (length s.env.code) dest) && get_or s.valid_jumps dest 0 == 1
        then ok (tt, record s { program_counter = dest })
        else err invalid_jump)
unfolding jump_is_valid
jump_to_lem s dest = ground arith

module _ (common : Common) (r : RunState) (dest : ℕ) (rest : List ℕ) where
  is_marked : Bool
  unfolding analysed
  is_marked =
      not (ltb (length r.env.code) dest) && get_or (analysed common r).valid_jumps dest 0 == 1

  is_marked-IsDestination :
      r.env.code ≡ r.code → (is_marked ≡ true) ↔ IsDestination common r.code dest
  unfolding is_marked analysed
  is_marked-IsDestination same =
      let (found, marked) = get_valid_jump_destinations_lem common r.code dest in
      (λ m. found (ground arith), λ d. ground (arith, marked d, d.1, ap length same))

  -- With a destination on top of the stack, after the jump analysis, and where the frame executes
  -- the code of its environment: JUMP pops the destination and goes there if it is a JUMPDEST that
  -- is an opcode of the code, and fails with an invalid jump at every other destination.
  pub jump_lem :
      r.env.code ≡ r.code
      → view r.stack ≡ dest ∷ rest
      → (admitted : Bool) × ((admitted ≡ true) ↔ IsDestination common r.code dest)
        × (jump (analysed common r)
            ≡ (if admitted then ok (tt, jumped (analysed common r) 1 dest) else err invalid_jump))
  unfolding jump analysed is_marked
  jump_lem same shows =
      let popped = pop-shrunk r.stack dest rest shows in
      (
        is_marked,
        is_marked-IsDestination same,
        ground (
          arith,
          popped,
          jump_to_lem (record (analysed common r) { stack = shrunk 1 r.stack }) dest,
        ),
      )

  -- With a destination and a condition on top of a valid stack, after the jump analysis, and where
  -- the frame executes the code of its environment: JUMPI only pops both where the condition is 0;
  -- else it also goes to a JUMPDEST that is an opcode of the code, and fails with an invalid jump
  -- at every other destination.
  pub jumpi_lem :
      (cond : ℕ)
      → r.env.code ≡ r.code
      → view r.stack ≡ dest ∷ cond ∷ rest
      → IsValid r.stack
      → (admitted : Bool) × ((admitted ≡ true) ↔ IsDestination common r.code dest)
        × (jumpi (analysed common r) ≡ (
            if cond == 0
            then ok (tt, record (analysed common r) { stack = shrunk 2 r.stack })
            else if admitted
            then ok (tt, jumped (analysed common r) 2 dest)
            else err invalid_jump))
  unfolding jumpi analysed is_marked
  jumpi_lem cond same shows valid =
      let popped = (pop_n-shrunk r.stack valid (dest ∷ cond ∷ []) rest shows 2 refl).0 in
      (
        is_marked,
        is_marked-IsDestination same,
        ground (
          arith,
          popped,
          jump_to_lem (record (analysed common r) { stack = shrunk 2 r.stack }) dest,
        ),
      )

-- The analysis changes nothing that the charge for code bytes reads.
charge_code-analysed :
    (common : Common) (num : ℕ) (s : RunState)
    → charge_code common num (analysed common s)
      ≡ result_map (λ r. (r.0, analysed common r.1)) (charge_code common num s)
unfolding analysed use_gas
charge_code-analysed common num s = ground arith

-- The bytes of a push that are loaded are those that the analysis took.
loads :
    (code : List ℕ) (j num p : ℕ) (s : RunState)
    → get_or code j 0 ≡ num + 95
    → p ≡ j + 1
    → (bs : List ℕ) × (push_bytes code p num s ≡ ok (bs, s))
      × (bytes_to_bigint bs ≡ push_operand code j)
loads code j num p s e at =
    let bs = fill_right (take num (drop p code)) num in
    let measured : length (take num (drop p code)) ≤ num =
      omega (arith, length-take num (drop p code)) in
    let same : get_or code j 0 - 95 ≡ num = omega (arith, e) in
    (
      bs,
      ground (arith, set_length_right_lem (take num (drop p code)) num measured),
      rw (at, same) refl,
    )

push_value-analysed :
    (common : Common) (j num : ℕ) (s : RunState)
    → s.should_do_jump_analysis ≡ true
    → s.program_counter ≡ j + 1
    → get_or s.code j 0 ≡ num + 95
    → lookup (j + 1) (get_valid_jump_destinations common s.code).1 ≡ some (push_operand s.code j)
    → push_value num (analysed common s)
      ≡ result_map (λ r. (r.0, analysed common r.1)) (push_value num s)
unfolding analysed
push_value-analysed common j num s off at opcode found =
    let (bs, loaded, value) = loads s.code j num s.program_counter s opcode at in
    let pushes = (get_valid_jump_destinations common s.code).1 in
    let hit : cached s.program_counter pushes ≡ bytes_to_bigint bs =
      ground (arith, ap (λ k. cached k pushes) at, found, value) in
    unfold Stack.push in ground (arith, hit, loaded, off)

charge_code-keeps :
    (common : Common) (num : ℕ) (s : RunState) {u : Unit {0}} {t : RunState}
    → charge_code common num s ≡ ok (u, t)
    → (t.program_counter ≡ s.program_counter)
      × (t.code ≡ s.code)
      × (t.should_do_jump_analysis ≡ s.should_do_jump_analysis)
unfolding use_gas
charge_code-keeps common num s {u} {t} e = ground (arith, e)

-- Before the jump analysis a push reads its operand from the code, afterwards from the cache. For
-- a push opcode that is reached from the start of the code, before the analysis has run, with the
-- program counter just behind the opcode: a push after the analysis has the outcome of the push
-- before it, the same error, or the same state but for what the analysis sets.
pub push_n-analysed :
    (common : Common) (j : ℕ) (s : RunState)
    → s.should_do_jump_analysis ≡ true
    → s.program_counter ≡ j + 1
    → Reach common s.code 0 j
    → j < length s.code
    → is_push common s.code j ≡ true
    → s.op_code ≡ get_or s.code j 0
    → push_n common (analysed common s)
      ≡ result_map (λ r. (r.0, analysed common r.1)) (push_n common s)
unfolding push_n
push_n-analysed common j s off at reached below is_p op = step (charge_code common num s) refl
  where
    num : ℕ
    num = s.op_code - 95

    same_op : (analysed common s).op_code ≡ s.op_code
    same_op = unfold analysed in refl

    opcode : get_or s.code j 0 ≡ num + 95
    opcode = ground arith

    step :
        (r : Result TvmError (Unit {0} × RunState))
        → charge_code common num s ≡ r
        → push_n common (analysed common s)
          ≡ result_map (λ r. (r.0, analysed common r.1)) (push_n common s)
    step (err x) e = ground (arith, e, charge_code-analysed common num s, same_op)
    step (ok (u, t)) e =
        let (pc', code', off') = charge_code-keeps common num s e in
        let found = cached-operand common s.code j reached below is_p in
        let pushed =
          push_value-analysed common j num t (off' ∙ off) (pc' ∙ at) (rw code' opcode)
            (rw code' found) in
        ground (arith, e, charge_code-analysed common num s, same_op, pushed)
