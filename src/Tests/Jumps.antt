-- ===== src/Tests/Jumps.antt =====
-- The jump analysis, the jumps and the pushes in a code whose first byte 0x5b is an operand.
use tvmjs_monorepo.Prelude.{
  ◌<◌, ◌≡◌, ◌↔◌, refl, Bool, true, [], ◌∷◌, length, get_or, ◌==◌, if◌then◌else◌, result_map, ok,
  err, arith,
}
use tvmjs_monorepo.Util.Bytes.{IsByte}
use tvmjs_monorepo.Tvm.Errors.{invalid_jump}
use tvmjs_monorepo.Tvm.Stack.{Stack}
use tvmjs_monorepo.Tvm.Stack.View.{view}
use tvmjs_monorepo.Tvm.Stack.Steps.{shrunk}
use tvmjs_monorepo.Tvm.Ops.Flow.{
  jump, jumpi, push_n, is_eip8024_single_immediate_valid, is_eip8024_pair_immediate_valid,
  decode_eip8024_single_immediate, decode_eip8024_pair_immediate,
}
use tvmjs_monorepo.Tvm.Ops.Flow.Analysis.{get_valid_jump_destinations, analysed}
use tvmjs_monorepo.Tvm.Ops.Flow.Jumps.{Reach, here, is_push}
use tvmjs_monorepo.Tvm.Ops.Flow.Scan.{get_valid_jump_destinations_lem}
use tvmjs_monorepo.Tvm.Ops.Flow.Dispatch.{
  IsDestination, jumped, jump_lem, jumpi_lem, push_n-analysed,
}
use tvmjs_monorepo.Tvm.Ops.Flow.Immediate.{
  IsCode, IsSingle, IsPair, IsSingleDepth, ArePairDepths, immediates_lem,
}
use tvmjs_monorepo.Tests.Data.{
  code_example, common_example, state, state_of, items_3_2_1-IsValid, view_3_2_1,
}

get_valid_jump_destinations_lem_example :
    (get_or (get_valid_jump_destinations common_example code_example).0 2 0 ≡ 1) ↔ (
      Reach common_example code_example 0 2
      × (2 < length code_example)
      × (get_or code_example 2 0 ≡ 91))
get_valid_jump_destinations_lem_example =
    get_valid_jump_destinations_lem common_example code_example 2

-- The operand is not marked, the opcode is.
marks_example : (get_valid_jump_destinations common_example code_example).0 ≡ 0 ∷ 0 ∷ 1 ∷ 0 ∷ []
unfolding get_valid_jump_destinations
marks_example = refl

abbrev to_2 : Stack
to_2 = record { store = 2 ∷ []; max_height = 1024; len = 1 }

view-to_2 : view to_2 ≡ 2 ∷ []
unfolding view
view-to_2 = refl

jump_lem_example :
    (admitted : Bool) × ((admitted ≡ true) ↔ IsDestination common_example code_example 2)
    × (jump (analysed common_example (state_of to_2)) ≡ (
        if admitted
        then ok (tt, jumped (analysed common_example (state_of to_2)) 1 2)
        else err invalid_jump))
jump_lem_example = jump_lem common_example (state_of to_2) 2 [] refl view-to_2

jumpi_lem_example :
    (admitted : Bool) × ((admitted ≡ true) ↔ IsDestination common_example code_example 3)
    × (jumpi (analysed common_example state) ≡ (
        if 2 == 0
        then ok (tt, record (analysed common_example state) { stack = shrunk 2 state.stack })
        else if admitted
        then ok (tt, jumped (analysed common_example state) 2 3)
        else err invalid_jump))
jumpi_lem_example = jumpi_lem common_example state 3 (1 ∷ []) 2 refl view_3_2_1 items_3_2_1-IsValid

first_byte : 0 < length code_example
first_byte = ground arith

first_is_push : is_push common_example code_example 0 ≡ true
first_is_push = refl

push_n-analysed_example :
    push_n common_example (analysed common_example state)
    ≡ result_map (λ r. (r.0, analysed common_example r.1)) (push_n common_example state)
push_n-analysed_example =
    push_n-analysed common_example 0 state refl refl (here 0) first_byte first_is_push refl

small-IsByte : IsByte 90
small-IsByte = ground arith

valid_90 : is_eip8024_single_immediate_valid 90 ≡ true
unfolding is_eip8024_single_immediate_valid
valid_90 = refl

decoded_90 : decode_eip8024_single_immediate 90 state ≡ ok (107, state)
unfolding decode_eip8024_single_immediate is_eip8024_single_immediate_valid
decoded_90 = refl

smaller-IsByte : IsByte 18
smaller-IsByte = ground arith

valid_18 : is_eip8024_pair_immediate_valid 18 ≡ true
unfolding is_eip8024_pair_immediate_valid
valid_18 = refl

decoded_18 : decode_eip8024_pair_immediate 18 state ≡ ok ((2, 3), state)
unfolding decode_eip8024_pair_immediate is_eip8024_pair_immediate_valid
decoded_18 = refl

immediates_lem_example :
    IsCode state decode_eip8024_single_immediate (IsSingle state) (IsSingleDepth state)
    × IsCode state decode_eip8024_pair_immediate (IsPair state) (ArePairDepths state)
immediates_lem_example = immediates_lem state
